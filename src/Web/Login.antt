-- ===== src/Web/Login.antt =====
-- web/src/pages/LoginPage.vue.
pub mod Locks
pub mod Redirect
use ai_api_proxy.Common.{
  ℕ, zero, suc, ◌+◌, List, [], ◌∷◌, ◌++◌, map, Bool, true, false, not, ◌||◌, ◌&&◌, ltb, leb, ◌==◌,
  length, take, drop, if◌then◌else◌, Option, none, some, Outcome, ok, throws,
}
use ai_api_proxy.Common.Strings.{JsString, js, same_string}
use ai_api_proxy.Web.Auth.{Store, login_request, login_result, logged_in}
use ai_api_proxy.Web.Http.{Failure, Response, message_of}
use ai_api_proxy.Web.Process.{
  Process, Handler, api, refetch, navigate, array_buffer, fetch, state, update, perform, done, read,
  write, return, await, ◌>>◌, ◌>>=◌,
}
use ai_api_proxy.Web.Toasts.{Toast, success, failure, info}
use ai_api_proxy.Web.Values.{Engine}

pub record State : Type 0 where
  pub toasts : List Toast
  pub session : Store
  pub redirect : Option JsString
  pub user : JsString
  pub password : JsString
  pub submitting : Bool

-- `redirect ?? { name: 'monitor' }`
unfoldable pub target_of : Option JsString → JsString
target_of none = js "/monitor"
target_of (some path) = path

-- The `catch` block.
abbrev rejected : Failure → Handler State
rejected e = update (λ s. record s { toasts = s.toasts ++ failure (message_of e (js "登录失败")) ∷ [] })

-- `submit` behind the answer to the request of `login` for this user.
unfoldable pub answered : JsString → Outcome Failure Response → Handler State
unfolding login_result logged_in target_of
answered user reply = do
  (elim (login_result reply) [
    | throws e ↦ rejected e
    | ok answer ↦ do
      update (λ t. record t { session = logged_in user t.session })
      t ← state
      moved ← perform (navigate (target_of t.redirect))
      (elim moved [ ok answer ↦ done | throws e ↦ rejected e ])
  ])
  update (λ s. record s { submitting = false })

unfoldable pub submit : Engine → Handler State
unfolding answered
submit engine = do
  s ← state
  (if length s.user == 0 || (length s.password == 0 || s.submitting) then done else do
    update (λ s. record s { submitting = true })
    reply ← perform (fetch (login_request engine s.user s.password))
    answered s.user reply)
