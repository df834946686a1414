-- ===== src/Web/Packages.antt =====
-- web/src/pages/PackagesPage.vue: installing, switching and removing packages.
pub mod Locks
use ai_api_proxy.Common.{
  ℕ, zero, suc, ◌+◌, ◌-◌, ◌*◌, List, [], ◌∷◌, ◌++◌, map, Bool, true, false, not, ◌||◌, ◌&&◌, ltb,
  leb, ◌==◌, length, take, drop, if◌then◌else◌, Option, none, some, Outcome, ok, throws, Bytes,
}
use ai_api_proxy.Common.Strings.{JsString, js, same_string}
use ai_api_proxy.Web.Api.{
  packages_inspect_bytes, packages_inspect_url, packages_install, packages_import_url,
  packages_enable, packages_remove,
}
use ai_api_proxy.Web.Http.{Failure, message_of}
use ai_api_proxy.Web.Process.{
  Process, Handler, api, refetch, navigate, array_buffer, fetch, state, update, perform, done, read,
  write, return, await, ◌>>◌, ◌>>=◌,
}
use ai_api_proxy.Web.Toasts.{Toast, success, failure, info}
use ai_api_proxy.Web.Types
use ai_api_proxy.Web.Values.{trim}

-- What is inspected waits for a confirmation, in `pendingInspect` and `pendingBytes`.
pub record State : Type 0 where
  pub toasts : List Toast
  pub inspecting : Bool
  pub pending_inspect : Option Types.InspectSummary
  pub pending_bytes : Option Bytes
  pub pending_url : JsString
  pub url_open : Bool
  pub import_url : JsString
  pub url_inspecting : Bool
  pub installing : Bool
  pub removing : Option JsString

abbrev toast : Toast → Handler State
toast t = update (λ s. record s { toasts = s.toasts ++ t ∷ [] })

abbrev toast_failure : Failure → JsString → Handler State
toast_failure e text = toast (failure (message_of e text))

abbrev refetch_packages : Handler State
refetch_packages = perform (refetch (js "packages"))

-- `onFileChosen`, with the chosen file
unfoldable pub on_file_chosen : Option ℕ → Handler State
on_file_chosen none = done
on_file_chosen (some file) = do
  s ← state
  (if s.inspecting then done else do
    update (λ s. record s { inspecting = true })
    content ← perform (array_buffer file)
    (elim content [
      | throws e ↦ toast_failure e (js "解析失败")
      | ok bytes ↦ do
        reply ← perform (api (packages_inspect_bytes bytes))
        (elim reply [
          | throws e ↦ toast_failure e (js "解析失败")
          | ok summary ↦ update (λ s. record s {
            pending_bytes = some bytes;
            pending_url = [];
            pending_inspect = some summary;
          })
        ])
    ])
    update (λ s. record s { inspecting = false }))

unfoldable pub inspect_url : Handler State
unfolding trim
inspect_url = do
  s ← state
  (if length (trim s.import_url) == 0 || s.url_inspecting then done else do
    update (λ s. record s { url_inspecting = true })
    reply ← perform (api (packages_inspect_url (trim s.import_url)))
    (elim reply [
      | throws e ↦ toast_failure e (js "拉取失败")
      | ok summary ↦ update (λ s. record s {
        pending_bytes = none;
        pending_url = trim s.import_url;
        pending_inspect = some summary;
        url_open = false;
      })
    ])
    update (λ s. record s { url_inspecting = false }))

-- What `confirmInstall` does with the answer
unfoldable pub installed : Outcome Failure (Unit {0}) → Handler State
installed (throws e) = toast_failure e (js "安装失败")
installed (ok answer) = do
  toast (success (js "安装成功"))
  update (λ s. record s { pending_inspect = none })
  refetch_packages

unfoldable pub confirm_install : Handler State
unfolding installed
confirm_install = do
  s ← state
  (if s.installing then done else do
    update (λ s. record s { installing = true })
    (elim s.pending_bytes [
      | some bytes ↦ perform (api (packages_install bytes)) >>= installed
      | none ↦ perform (api (packages_import_url s.pending_url)) >>= installed
    ])
    update (λ s. record s { installing = false }))

unfoldable pub toggle_enabled : JsString → Bool → Handler State
toggle_enabled name enabled = do
  reply ← perform (api (packages_enable name enabled))
  (elim reply [
    | ok answer ↦ refetch_packages
    | throws e ↦ toast_failure e (js "操作失败") >> refetch_packages
  ])

-- `if (!removing.value) return;` takes an empty name for none.
unfoldable pub confirm_remove : Handler State
confirm_remove = do
  s ← state
  (elim s.removing [
    | none ↦ done
    | some name ↦ if length name == 0 then done else do
      reply ← perform (api (packages_remove name))
      (elim reply [
        | throws e ↦ toast_failure e (js "卸载失败")
        | ok answer ↦ do
          toast (success (js "已卸载"))
          update (λ s. record s { removing = none })
          refetch_packages
      ])
  ])
