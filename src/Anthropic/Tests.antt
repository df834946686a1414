-- ===== src/Anthropic/Tests.antt =====
-- The theorem on relayed requests, applied to a request.
use ai_api_proxy.Common.Strings.{JsString, js, same_string}
use ai_api_proxy.Common.{if◌then◌else◌, ℕ, ◌+◌, ◌≡◌, refl, [], ◌∷◌, ◌==◌, Option, none, some, ok}
use ai_api_proxy.Anthropic.{relay_event, Request, build_messages, demand, key_string, api_version}
use ai_api_proxy.Anthropic.Laws.{build_messages-relays}
use ai_api_proxy.Gemini.Requests.{strip_slashes}
use ai_api_proxy.Gemini.Responses.{Host, Context, own_of, json_parse}
use ai_api_proxy.Gemini.Contents.{own}
use ai_api_proxy.Json.{member, Json, null, string, full_string, find, to_object, to_members}

-- Every text parses as null.
abbrev null_host : Host ℕ
null_host = record {
  parse = λ text. some null;
  stringify = λ v. [];
  to_string = λ v. some [];
  number_string = λ n. [];
  encode_uri_component = λ s. some s;
  is_zero = λ n. n == 0;
  zero_number = 0;
  add = λ x y. x + y;
  now_seconds = 0;
  uuid = [];
  api_key = [];
}

abbrev sole_key : JsString → Option (Json ℕ)
sole_key name = some (string (js "k"))

abbrev some_config : Option (Json ℕ)
some_config = some (to_object ((js "base_url", string (js "https://h/")) ∷ []))

abbrev some_context : Context ℕ
some_context = record { request_id = js "r"; vars_model = js "m"; entry_stream = none }

abbrev sent : Request ℕ
sent = record {
  url = js "https://h/v1/messages";
  method = js "POST";
  headers =
      (js "Content-Type", js "application/json")
      ∷ (js "x-api-key", js "k")
      ∷ (js "anthropic-version", js "2023-06-01")
      ∷ [];
  body = js "{}";
  stream = none;
}

test_build_messages : build_messages null_host sole_key some_config some_context (js "{}") ≡ ok sent
unfolding build_messages demand key_string api_version strip_slashes own_of own json_parse
    full_string find to_members same_string
test_build_messages = refl

build_messages-relays_example :
    (sent.body ≡ js "{}")
    × (sent.stream ≡ some_context.entry_stream)
    × ((v : Json ℕ) × (null_host.parse (js "{}") ≡ some v))
    × ((url : JsString) × (full_string (own_of some_config (js "base_url")) ≡ some url))
    × ((token : JsString) × (full_string (sole_key (js "api_key")) ≡ some token))
build_messages-relays_example =
    build_messages-relays null_host sole_key some_config some_context (js "{}") sent
      test_build_messages

abbrev frame_json : Json ℕ
frame_json = to_object ((js "data", string (js "n")) ∷ [])

-- "e" is a frame whose data is "n", and "n" is null.
abbrev frame_host : Host ℕ
frame_host = record null_host {
  parse = λ text. if same_string text (js "e") then some frame_json else some null;
  stringify = λ v. js "[null]";
}

test_relay_event : relay_event frame_host sole_key (js "e") ≡ ok (some (js "[null]"))
unfolding relay_event json_parse member full_string find to_members same_string
test_relay_event = refl
