-- ===== src/Web/Subscriptions.antt =====
-- web/src/pages/SubscriptionsPage.vue: the repositories that packages come from.
pub mod Columns
use ai_api_proxy.Common.{
  ℕ, List, [], ◌∷◌, ◌++◌, Bool, false, ◌||◌, ◌==◌, length, take, if◌then◌else◌, some, ok, throws,
}
use ai_api_proxy.Common.Strings.{JsString, js}
use ai_api_proxy.Web.Api.{subscriptions_create, subscriptions_sync, subscriptions_remove}
use ai_api_proxy.Web.Http.{Failure, message_of}
use ai_api_proxy.Web.Process.{Handler, api, refetch, state, update, perform, ◌>>◌, ◌>>=◌}
use ai_api_proxy.Web.Toasts.{Toast, success, failure}
use ai_api_proxy.Web.Types
use ai_api_proxy.Web.Values.{trim}

pub record Form : Type 0 where
  pub name : JsString
  pub repo_url : JsString
  pub user : JsString
  pub path : JsString
  pub token : JsString

abbrev pub empty_form : Form
empty_form = record { name = []; repo_url = []; user = []; path = []; token = [] }

-- `syncing` is a set of ids.
pub record State : Type 0 where
  pub toasts : List Toast
  pub create_open : Bool
  pub syncing : List ℕ
  pub form : Form

abbrev toast : Toast → Handler State
toast t = update (λ s. record s { toasts = s.toasts ++ t ∷ [] })

abbrev toast_failure : Failure → JsString → Handler State
toast_failure e text = toast (failure (message_of e text))

abbrev refetch_subs : Handler State
refetch_subs = perform (refetch (js "subscriptions"))

-- `set.has(id)`, `set.add(id)` and `set.delete(id)`
unfoldable pub has : ℕ → List ℕ → Bool
has id [] = false
has id (x ∷ xs) = x == id || has id xs

unfoldable pub add : ℕ → List ℕ → List ℕ
unfolding has
add id xs = if has id xs then xs else xs ++ id ∷ []

unfoldable pub delete : ℕ → List ℕ → List ℕ
delete id [] = []
delete id (x ∷ xs) = let rest = delete id xs in if x == id then rest else x ∷ rest

-- The argument of `create`
unfoldable pub create_of : Form → Types.SubscriptionCreate
unfolding trim
create_of form = record {
  name = trim form.name;
  repo_url = trim form.repo_url;
  user = some (trim form.user);
  path = some (if length (trim form.path) == 0 then js "." else trim form.path);
  token = some form.token;
}

unfoldable pub submit_create : Handler State
unfolding create_of
submit_create = do
  s ← state
  (if length (trim s.form.name) == 0 || length (trim s.form.repo_url) == 0
      then toast (failure (js "名称与仓库地址必填"))
      else do
        reply ← perform (api (subscriptions_create (create_of s.form)))
        (elim reply [
          | throws e ↦ toast_failure e (js "创建失败")
          | ok answer ↦ do
            toast (success (js "订阅已创建"))
            update (λ s. record s { create_open = false; form = empty_form })
            refetch_subs
        ]))

unfoldable pub sync_sub : Types.Subscription → Handler State
unfolding add delete
sync_sub row = do
  update (λ s. record s { syncing = add row.id s.syncing })
  reply ← perform (api (subscriptions_sync row.id))
  (elim reply [
    | ok answer ↦ toast (success (row.name ++ js " 同步完成"))
    | throws e ↦ toast_failure e (js "同步失败")
  ])
  update (λ s. record s { syncing = delete row.id s.syncing })
  refetch_subs

unfoldable pub remove_sub : Types.Subscription → Handler State
remove_sub row = do
  reply ← perform (api (subscriptions_remove row.id))
  (elim reply [
    | ok answer ↦ toast (success (row.name ++ js " 已删除(导入的包已卸载)"))
    | throws e ↦ toast_failure e (js "删除失败")
  ])
  refetch_subs

-- What the columns show of the commit and of the state
unfoldable pub commit_text : Types.Subscription → JsString
commit_text row =
    if length row.last_synced_commit == 0 then js "未同步" else take 8 row.last_synced_commit

unfoldable pub status_text : Types.Subscription → JsString
status_text row =
    if length row.last_error == 0
    then if length row.last_synced_at == 0 then js "-" else row.last_synced_at
    else row.last_error
