-- ===== src/Web/Transports.antt =====
-- web/src/pages/TransportsPage.vue: the transports, their test and the command that evicts.
pub mod Columns
use ai_api_proxy.Common.{
  List, [], ◌∷◌, ◌++◌, Bool, true, false, ◌==◌, length, if◌then◌else◌, none, some, ok, throws,
}
use ai_api_proxy.Common.Strings.{JsString, js}
use ai_api_proxy.Web.Api.{transports_test, transports_evict, Scope, egress}
use ai_api_proxy.Web.Http.{Failure, message_of}
use ai_api_proxy.Web.Process.{Handler, api, state, update, perform, ◌>>◌, ◌>>=◌}
use ai_api_proxy.Web.Toasts.{Toast, success, failure}
use ai_api_proxy.Web.Types
use ai_api_proxy.Web.Values.{trim, decimal}

pub record State : Type 0 where
  pub toasts : List Toast
  pub evict_open : Bool
  pub evict_transport : JsString
  pub evict_scope : Scope
  pub evict_value : JsString

abbrev toast : Toast → Handler State
toast t = update (λ s. record s { toasts = s.toasts ++ t ∷ [] })

abbrev toast_failure : Failure → JsString → Handler State
toast_failure e text = toast (failure (message_of e text))

unfoldable pub test_transport : JsString → Handler State
unfolding decimal
test_transport name = do
  reply ← perform (api (transports_test name))
  (elim reply [
    | throws e ↦ toast_failure e (js "测试失败")
    | ok result ↦
        if result.ok
        then toast (success (name ++ (js " 连通 " ++ (decimal result.latency_ms ++ js "ms"))))
        else toast
            (failure (name ++ (js " 断: " ++ elim result.error [ none ↦ js "未知错误" | some e ↦ e ])))
  ])

unfoldable pub submit_evict : Handler State
unfolding trim
submit_evict = do
  s ← state
  (if length (trim s.evict_value) == 0 then toast (failure (js "失效值不能为空")) else do
    reply ← perform (api (transports_evict s.evict_transport s.evict_scope (trim s.evict_value)))
    s' ← state
    (elim reply [
      | throws e ↦ toast_failure e (js "失效命令失败")
      | ok answer ↦ do
        toast (success (js "已对 " ++ (s'.evict_transport ++ js " 执行失效命令")))
        update (λ s. record s { evict_open = false })
    ]))

unfoldable pub open_evict : Types.Transport → Handler State
open_evict row = update (λ s. record s {
  evict_transport = row.name;
  evict_scope = egress;
  evict_value = [];
  evict_open = true;
})
