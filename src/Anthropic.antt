-- ===== src/Anthropic.antt =====
-- plugins/anthropic-compatible/protocol.js: the plugin that relays Anthropic messages unchanged.
pub mod Laws
pub mod Tests
use ai_api_proxy.Common.Strings.{JsString, js}
use ai_api_proxy.Common.{List, [], ◌∷◌, ◌++◌, Option, none, some, ok, throws, ◌>>=◌, Outcome}
use ai_api_proxy.Gemini.Requests.{strip_slashes}
use ai_api_proxy.Gemini.Responses.{Host, Context, own_of, json_parse}
use ai_api_proxy.Json.{
  Json, Items, string, array, item, nil, PluginError, message, member, full_string,
}

-- `stream` is whatever `ctx.vars.entryStream` is.
pub record Request (N : Type 0) : Type 0 where
  pub url : JsString
  pub method : JsString
  pub headers : List (JsString × JsString)
  pub body : JsString
  pub stream : Option (Json N)

module _ {N : Type 0} where
  -- `apiVersion`, with DEFAULT_API_VERSION
  unfoldable pub api_version : Option (Json N) → JsString
  unfolding own_of full_string
  api_version config = elim (full_string (own_of config (js "api_version"))) [
    | some version ↦ version
    | none ↦ js "2023-06-01"
  ]

  -- `v` if it is a string that is not empty, else an error
  unfoldable pub demand : Option (Json N) → JsString → Outcome PluginError JsString
  unfolding full_string
  demand v text = elim (full_string v) [ some s ↦ ok s | none ↦ throws (message text) ]

-- `util.key` of the host is the parameter `key`.
module _ {N : Type 0} (host : Host N) (key : JsString → Option (Json N)) where
  unfoldable pub key_string : JsString → Outcome PluginError JsString
  unfolding demand
  key_string name = demand (key name) (js "package key \"" ++ (name ++ js "\" empty or missing"))

  unfoldable pub build_messages :
      Option (Json N) → Context N → JsString → Outcome PluginError (Request N)
  unfolding demand key_string api_version
  build_messages config ctx entry = do
    base_url ← demand (own_of config (js "base_url")) (js "package param base_url unset")
    parsed ← json_parse host entry
    token ← key_string (js "api_key")
    ok (record {
      url = strip_slashes base_url ++ js "/v1/messages";
      method = js "POST";
      headers =
          (js "Content-Type", js "application/json")
          ∷ (js "x-api-key", token)
          ∷ (js "anthropic-version", api_version config)
          ∷ [];
      body = entry;
      stream = ctx.entry_stream;
    })

  unfoldable pub relay_event : JsString → Outcome PluginError (Option JsString)
  unfolding full_string
  relay_event event = do
    frame ← json_parse host event
    held ← member (some frame) (js "data")
    (elim (full_string held) [
      | none ↦ ok none
      | some text ↦ json_parse host text >>= λ v. ok (some (host.stringify (array (item v nil))))
    ])

unfoldable pub relay_response : JsString → JsString
relay_response body = body
