-- ===== src/Web/Layout.antt =====
-- web/src/layouts/AdminLayout.vue: the frame of the pages.
use ai_api_proxy.Common.{List, [], ◌∷◌, ◌++◌, Bool, false, Option, none, some, ok, throws}
use ai_api_proxy.Common.Strings.{JsString, js}
use ai_api_proxy.Web.Auth.{
  Store, logged_out, logout_request, Route, monitor, models, packages, package_settings, history,
  transports, subscriptions,
}
use ai_api_proxy.Web.Process.{Handler, navigate, fetch, state, update, perform, done, ◌>>◌, ◌>>=◌}
use ai_api_proxy.Web.Toasts.{Toast, failure}

pub record State : Type 0 where
  pub toasts : List Toast
  pub session : Store
  pub mobile_menu_open : Bool

-- `label` of the item of `navItems` that goes to a route
unfoldable pub nav_label : Route → Option JsString
nav_label monitor = some (js "监控")
nav_label models = some (js "渠道管理")
nav_label packages = some (js "插件管理")
nav_label history = some (js "请求历史")
nav_label transports = some (js "传输通道")
nav_label subscriptions = some (js "仓库订阅")
nav_label _ = none

unfoldable pub page_title : Route → JsString
unfolding nav_label
page_title package_settings = js "插件配置"
page_title route = elim (nav_label route) [ none ↦ js "ai-api-proxy" | some label ↦ label ]

unfoldable pub sign_out : Handler State
unfolding logged_out
sign_out = do
  reply ← perform (fetch logout_request)
  s ← state
  let (result, session) = logged_out reply s.session
  update (λ s. record s { session = session })
  (elim result [
    | throws e ↦ update (λ s. record s { toasts = s.toasts ++ failure (js "退出登录失败") ∷ [] })
    | ok answer ↦ do
      moved ← perform (navigate (js "/login"))
      (elim moved [
        | ok answer ↦ done
        | throws e ↦ update (λ s. record s { toasts = s.toasts ++ failure (js "退出登录失败") ∷ [] })
      ])
  ])

unfoldable pub close_mobile_menu : Handler State
close_mobile_menu = update (λ s. record s { mobile_menu_open = false })
