-- ===== src/Gemini/Tests.antt =====
-- Runs of the Gemini plugin's model, and the theorems applied to them.
use ai_api_proxy.Common.Strings.{JsString, js, same_string}
use ai_api_proxy.Common.{ℕ, ◌+◌, ◌≡◌, refl, [], ◌∷◌, true, ◌==◌, if◌then◌else◌, Option, none, some}
use ai_api_proxy.Gemini.Contents.{
  model, user, conversation, own, is_string, text_of, is_system, role_of, same_role, add_message,
  push_text,
}
use ai_api_proxy.Gemini.Contents.Laws.{IsAlternating, said, conversation_lem}
use ai_api_proxy.Gemini.Contents.Heard.{Heard}
use ai_api_proxy.Gemini.Failures.{error_json, error_of, type_of}
use ai_api_proxy.Gemini.Requests.{Config}
use ai_api_proxy.Gemini.Responses.{
  Host, Context, own_of, usage_of, count, event_finish, response_finish,
}
use ai_api_proxy.Gemini.Responses.Laws.{or_stop, response_finish-event_finish, usage_of-total}
use ai_api_proxy.Json.{
  Json, null, boolean, number, string, array, find, member, truthy, items, to_items, to_object,
  to_members, array_or_empty, full_string,
}

abbrev says : JsString → JsString → Json ℕ
says role text = to_object ((js "role", string role) ∷ (js "content", string text) ∷ [])

abbrev some_messages : Option (Json ℕ)
some_messages = some (
    array (
      to_items (
        says (js "system") (js "brief")
        ∷ says (js "user") (js "a")
        ∷ null
        ∷ says (js "developer") (js "terse")
        ∷ says (js "tool") (js "b")
        ∷ says (js "assistant") (js "c")
        ∷ says (js "assistant") []
        ∷ [])))

test_conversation : conversation some_messages ≡ record {
  contents =
      record { role = user; parts = js "a" ∷ js "b" ∷ [] }
      ∷ record { role = model; parts = js "c" ∷ [] }
      ∷ [];
  sys = js "brief" ∷ js "terse" ∷ [];
}
unfolding conversation add_message push_text is_system role_of text_of own find same_string
    is_string same_role items to_items to_members array_or_empty
test_conversation = refl

conversation_lem_example :
    Heard
      (array_or_empty some_messages)
      (said (conversation some_messages).contents)
      (conversation some_messages).sys
    × IsAlternating (conversation some_messages).contents
conversation_lem_example = conversation_lem some_messages

-- An error as the upstream reports it, without a code.
abbrev quota_error : Json ℕ
quota_error = to_object (
    (js "status", string (js "RESOURCE_EXHAUSTED"))
    ∷ (js "message", string (js "quota"))
    ∷ (js "details", boolean true)
    ∷ [])

-- Two texts are understood: "e", a request without messages, and "q", a body with an error.
abbrev test_parse : JsString → Option (Json ℕ)
test_parse text =
    if same_string text (js "e")
    then some (to_object ((js "messages", array (to_items [])) ∷ []))
    else if same_string text (js "q")
    then some (to_object ((js "error", quota_error) ∷ []))
    else none

abbrev test_host : Host ℕ
test_host = record {
  parse = test_parse;
  stringify = λ v. [];
  to_string = λ v. some [];
  number_string = λ n. [];
  encode_uri_component = λ s. some s;
  is_zero = λ n. n == 0;
  zero_number = 0;
  add = λ x y. x + y;
  now_seconds = 1700000000;
  uuid = js "u";
  api_key = js "k";
}

abbrev test_context : Context ℕ
test_context = record { request_id = js "r"; vars_model = js "m"; entry_stream = none }

abbrev test_config : Config
test_config = record { base_url = js "https://h/"; api_version = js "v1beta" }

-- The code is missing, so the HTTP status is shown.
test_error_json :
    error_json test_host 429 (js "q")
    ≡ to_object (
        (
          js "error",
          to_object (
              (js "type", string (js "RESOURCE_EXHAUSTED"))
              ∷ (js "message", string (js "quota"))
              ∷ (js "status", number 429)
              ∷ (js "details", boolean true)
              ∷ []),
        )
        ∷ [])
unfolding error_json error_of own_of own find same_string to_members full_string type_of
test_error_json = refl

abbrev blocked : Option (Json ℕ)
blocked = some (string (js "OTHER"))

response_finish-event_finish_example :
    response_finish test_host blocked none ≡ or_stop (event_finish test_host blocked none)
response_finish-event_finish_example = response_finish-event_finish test_host blocked none

abbrev empty_frame : Json ℕ
empty_frame = to_object []

abbrev counts : Json ℕ
counts = to_object (
    (js "promptTokenCount", number 5)
    ∷ (js "thoughtsTokenCount", number 4)
    ∷ (js "totalTokenCount", number 9)
    ∷ [])

usage_of-total_example : 9 ≡ 5 + (0 + 4)
unfolding usage_of member find to_members truthy same_string own_of own count
usage_of-total_example =
    usage_of-total test_host (to_object ((js "usageMetadata", counts) ∷ [])) (some counts)
      (record { prompt_tokens = 5; completion_tokens = 4; total_tokens = 9 }) refl refl refl
