-- ===== src/Web/Keys.antt =====
-- web/src/components/KeysPanel.vue: the keys of a package.
pub mod Names
pub mod Markup
use ai_api_proxy.Common.{
  ℕ, zero, suc, ◌+◌, List, [], ◌∷◌, ◌++◌, map, Bool, true, false, ◌||◌, ltb, length, take,
  if◌then◌else◌, Option, none, some, ok, throws,
}
use ai_api_proxy.Common.Strings.{JsString, js, same_string}
use ai_api_proxy.Web.Api.{keys_write, keys_remove}
use ai_api_proxy.Web.Http.{Failure, message_of}
use ai_api_proxy.Web.Process.{
  Process, Handler, api, refetch, state, update, perform, done, read, write, return, await, ◌>>◌,
  ◌>>=◌,
}
use ai_api_proxy.Web.Toasts.{Toast, success, failure}
use ai_api_proxy.Web.Types
use ai_api_proxy.Web.Values.{Engine, Value, decimal}

pub record State : Type 0 where
  pub toasts : List Toast
  pub keys_data : Option Types.KeysView
  pub editing : Option Types.KeyRow
  pub edit_json : JsString
  pub adding : Bool
  pub new_key_name : JsString
  pub new_value_json : JsString
  pub removing : Option Types.KeyRow
  pub mgmt_open : Bool
  pub mgmt_key : ℕ

abbrev toast : Toast → Handler State
toast t = update (λ s. record s { toasts = s.toasts ++ t ∷ [] })

abbrev toast_failure : Failure → JsString → Handler State
toast_failure e text = toast (failure (message_of e text))

abbrev refetch_keys : Handler State
refetch_keys = perform (refetch (js "keys"))

-- `keys`, `rotation` and `hasLogin`
unfoldable pub keys_of : State → List Types.KeyRow
keys_of s = elim s.keys_data [ none ↦ [] | some view ↦ view.keys ]

unfoldable pub rotation_of : State → ℕ
rotation_of s = elim s.keys_data [ none ↦ 0 | some view ↦ view.rotation ]

unfoldable pub has_login : State → Bool
has_login s = elim s.keys_data [ none ↦ false | some view ↦ view.login ]

unfoldable pub has_id : List Types.KeyRow → JsString → Bool
unfolding same_string
has_id [] name = false
has_id (row ∷ rows) name = same_string row.id name || has_id rows name

-- `key-${i}`
unfoldable pub key_name : ℕ → JsString
unfolding decimal
key_name i = js "key-" ++ decimal i

-- `while (existing.has(`key-${i}`)) i += 1;` with the rounds that are left
unfoldable pub free_from : ℕ → List Types.KeyRow → ℕ → Option JsString
unfolding has_id key_name
free_from zero rows i = none
free_from (suc rounds) rows i =
    let more = free_from rounds rows (i + 1) in
    if has_id rows (key_name i) then more else some (key_name i)

-- A key more than there are rows makes one of the names free.
unfoldable pub next_key_name : List Types.KeyRow → Option JsString
unfolding free_from
next_key_name rows = free_from (suc (length rows)) rows (length rows + 1)

unfoldable pub open_add : Handler State
unfolding next_key_name keys_of
open_add = update (λ s. record s {
  adding = true;
  new_key_name = elim (next_key_name (keys_of s)) [ none ↦ [] | some name ↦ name ];
  new_value_json = js "{}";
})

-- The first characters of a text, and an ellipsis.
unfoldable pub summary : JsString → JsString
summary text = if ltb 60 (length text) then take 60 text ++ js "…" else text

unfoldable pub data_summary : Engine → Types.KeyRow → JsString
unfolding summary
data_summary engine row = summary (engine.stringify row.«data»)

unfoldable pub open_mgmt : Handler State
open_mgmt = update (λ s. record s { mgmt_open = true; mgmt_key = s.mgmt_key + 1 })

module _ (engine : Engine) (package_name : JsString) where
  unfoldable pub open_edit : Types.KeyRow → Handler State
  open_edit row =
      update
        (λ s. record s { editing = some row; edit_json = engine.stringify_indented row.«data» })

  unfoldable pub save_edit : Handler State
  save_edit = do
    s ← state
    (elim s.editing [
      | none ↦ done
      | some row ↦ elim (engine.parse s.edit_json) [
        | none ↦ toast (failure (js "不是合法 JSON"))
        | some value ↦ do
          reply ← perform (api (keys_write package_name row.id value row.updated_at))
          (elim reply [
            | throws e ↦ toast_failure e (js "保存失败")
            | ok answer ↦ do
              toast (success (js "已保存"))
              update (λ s. record s { editing = none })
              refetch_keys
          ])
      ]
    ])

  unfoldable pub submit_add : Handler State
  submit_add = do
    s ← state
    (elim (engine.parse s.new_value_json) [
      | none ↦ toast (failure (js "不是合法 JSON"))
      | some value ↦ do
        reply ← perform (api (keys_write package_name s.new_key_name value 0))
        (elim reply [
          | throws e ↦ toast_failure e (js "添加失败")
          | ok answer ↦ do
            toast (success (js "已添加"))
            update (λ s. record s { adding = false })
            refetch_keys
        ])
    ])

  unfoldable pub confirm_remove : Handler State
  confirm_remove = do
    s ← state
    (elim s.removing [
      | none ↦ done
      | some row ↦ do
        reply ← perform (api (keys_remove package_name row.id))
        (elim reply [
          | throws e ↦ toast_failure e (js "删除失败")
          | ok answer ↦ do
            toast (success (js "已删除"))
            update (λ s. record s { removing = none })
            refetch_keys
        ])
    ])
