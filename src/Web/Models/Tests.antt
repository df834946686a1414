-- ===== src/Web/Models/Tests.antt =====
-- The chat test of a channel, and the check of the keys of its package.
use ai_api_proxy.Common.{
  ℕ, suc, List, [], ◌∷◌, ◌++◌, true, false, ◌==◌, length, if◌then◌else◌, Option, none, some, ok,
  throws,
}
use ai_api_proxy.Common.Strings.{JsString, js, same_string}
use ai_api_proxy.Json.{string}
use ai_api_proxy.Web.Api.{groups_chat_test, groups_keys_check}
use ai_api_proxy.Web.Http.{message_of}
use ai_api_proxy.Web.Models.State.{State, toast, toast_failure}
use ai_api_proxy.Web.Process.{Handler, api, state, update, perform, done, ◌>>◌, ◌>>=◌}
use ai_api_proxy.Web.Toasts.{warning}
use ai_api_proxy.Web.Types
use ai_api_proxy.Web.Types.{probe, chat}
use ai_api_proxy.Web.Values.{Engine, Value, trim, decimal}

unfoldable pub open_chat_test : Types.ModelGroup → Handler State
open_chat_test row = update (λ s. record s {
  chat_group_id = some row.id;
  chat_group_label = row.prefix;
  chat_message = [];
  chat_result = [];
  chat_open = true;
})

-- `lines.filter(Boolean).join('\n')`
unfoldable pub join_lines : List JsString → JsString
join_lines [] = []
join_lines (line ∷ lines) =
    let rest = join_lines lines in
    if length line == 0 then rest else if length rest == 0 then line else line ++ (10 ∷ rest)

unfoldable pub labelled : JsString → JsString → JsString
labelled label text = if length text == 0 then [] else label ++ text

module _ (engine : Engine) where
  -- `typeof body === 'string' ? body : JSON.stringify(body, null, 2)`; undefined has no text.
  unfoldable pub body_text : Option Value → JsString
  body_text none = []
  body_text (some (string t)) = t
  body_text (some v) = engine.stringify_indented v

  unfoldable pub chat_text : Types.ChatTestResult → JsString
  unfolding join_lines labelled body_text decimal
  chat_text r = join_lines (
      (js "ok: " ++ (if r.ok then js "true" else js "false"))
      ∷ elim r.status [ none ↦ [] | some n ↦ js "status: " ++ decimal n ]
      ∷ (js "latency: " ++ (decimal r.latency_ms ++ js "ms"))
      ∷ labelled (js "error: ") (elim r.error [ none ↦ [] | some e ↦ e ])
      ∷ labelled (js "body:" ++ 10 ∷ []) (body_text r.body)
      ∷ [])

  unfoldable pub run_chat_test : Handler State
  unfolding chat_text trim
  run_chat_test = do
    s ← state
    (if length (trim s.chat_message) == 0
        then toast (warning (js "请输入测试消息"))
        else elim s.chat_group_id [
          | none ↦ done
          | some id ↦ if s.chat_busy then done else do
            update (λ s. record s { chat_busy = true })
            reply ← perform (api (groups_chat_test id s.chat_message))
            (elim reply [
              | ok result ↦ update (λ s. record s { chat_result = chat_text result })
              | throws e ↦ update (λ s. record s { chat_result = message_of e (js "测试失败") })
            ])
            update (λ s. record s { chat_busy = false })
        ])

unfoldable pub open_keys_check : Types.ModelGroup → Handler State
open_keys_check row = update (λ s. record s {
  check_group = some row;
  check_mode = probe;
  check_message = [];
  check_report = none;
  check_open = true;
})

-- `mode === 'chat' && text.trim() ? text.trim() : undefined`
unfoldable pub check_text : Types.KeysCheckMode → JsString → Option JsString
unfolding trim
check_text probe text = none
check_text chat text = if length (trim text) == 0 then none else some (trim text)

unfoldable pub run_keys_check : Handler State
unfolding check_text
run_keys_check = do
  s ← state
  (elim s.check_group [
    | none ↦ done
    | some group ↦ if s.check_busy then done else do
      update (λ s. record s { check_busy = true })
      reply ←
          perform (
            api (groups_keys_check group.id s.check_mode (check_text s.check_mode s.check_message)))
      (elim reply [
        | ok report ↦ update (λ s. record s { check_report = some report })
        | throws e ↦ toast_failure e (js "检测失败")
      ])
      update (λ s. record s { check_busy = false })
  ])

-- `checkInvalidCount`
unfoldable pub invalid_count : List Types.KeysCheckRow → ℕ
unfolding same_string
invalid_count [] = 0
invalid_count (r ∷ rs) =
    let rest = invalid_count rs in if same_string r.verdict (js "invalid") then suc rest else rest

-- The label and the type of the tag of a verdict; one that is not known is shown as it is.
unfoldable pub verdict_of : JsString → JsString × JsString
unfolding same_string
verdict_of v =
    if same_string v (js "ok")
    then (js "有效", js "success")
    else if same_string v (js "invalid")
    then (js "失效", js "error")
    else if same_string v (js "rate_limited")
    then (js "限流", js "warning")
    else if same_string v (js "unknown")
    then (js "未知", js "default")
    else (v, js "default")
