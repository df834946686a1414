-- ===== src/Gemini/Requests.antt =====
-- The configuration of the plugin and `buildRequest`.
pub mod Laws
use ai_api_proxy.Common.Strings.{JsString, js}
use ai_api_proxy.Common.{
  ℕ, List, [], ◌∷◌, ◌++◌, map, Bool, true, false, ◌&&◌, ◌==◌, length, if◌then◌else◌, Option, none,
  some, ok, throws, ◌>>=◌, ◌>>◌, throw_if, Outcome,
}
use ai_api_proxy.Gemini.Contents.{Role, model, user, Content, Conversation, conversation}
use ai_api_proxy.Gemini.Responses.{Host, Context, json_parse, own_of}
use ai_api_proxy.Json.{
  Json, null, boolean, number, string, array, object, items, to_items, PluginError, type_error,
  uri_error, message, member, full_string, to_object, array_or_empty,
}

-- What the plugin keeps of its configuration.
pub record Config : Type 0 where
  pub base_url : JsString
  pub api_version : JsString

pub record UpstreamRequest : Type 0 where
  pub url : JsString
  pub method : JsString
  pub headers : List (JsString × JsString)
  pub body : JsString
  pub stream : Bool

-- `base_url.replace(/\/+$/, "")`
unfoldable pub strip_slashes : JsString → JsString
strip_slashes [] = []
strip_slashes (c ∷ cs) =
    let rest = strip_slashes cs in if c == 47 && length rest == 0 then [] else c ∷ rest

unfoldable pub role_name : Role → JsString
role_name model = js "model"
role_name user = js "user"

module _ {N : Type 0} where
  unfoldable pub read_config : Option (Json N) → Outcome PluginError Config
  unfolding own_of full_string
  read_config config = elim (full_string (own_of config (js "base_url"))) [
    | none ↦ throws (message (js "package param base_url unset"))
    | some url ↦ elim (full_string (own_of config (js "api_version"))) [
      | none ↦ ok (record { base_url = url; api_version = js "v1beta" })
      | some version ↦ ok (record { base_url = url; api_version = version })
    ]
  ]

  -- `if (typeof v === "number") gen[key] = v;`
  unfoldable pub number_field : JsString → Option (Json N) → List (JsString × Json N)
  number_field key (some (number n)) = (key, number n) ∷ []
  number_field key _ = []

  -- `typeof a === "number" ? a : b`
  unfoldable pub number_or : Option (Json N) → Option (Json N) → Option (Json N)
  number_or (some (number n)) other = some (number n)
  number_or _ other = other

  unfoldable pub text_part : JsString → Json N
  text_part t = to_object ((js "text", string t) ∷ [])

  unfoldable pub content_json : Content → Json N
  unfolding text_part role_name to_items
  content_json c = to_object (
      (js "role", string (role_name c.role))
      ∷ (js "parts", array (to_items (map text_part c.parts)))
      ∷ [])

  unfoldable pub system_field : List JsString → List (JsString × Json N)
  unfolding text_part to_items
  system_field sys =
      if length sys == 0
      then []
      else (
        js "systemInstruction",
        to_object ((js "parts", array (to_items (map text_part sys))) ∷ []),
      )
        ∷ []

  -- `ctx.vars.entryStream === true`
  unfoldable pub is_true : Option (Json N) → Bool
  is_true (some (boolean b)) = b
  is_true _ = false

module _ {N : Type 0} (host : Host N) where
  -- `map(String)`
  unfoldable pub strings_of : List (Json N) → Outcome PluginError (List (Json N))
  strings_of [] = ok []
  strings_of (x ∷ xs) = elim (host.to_string x) [
    | none ↦ throws type_error
    | some s ↦ strings_of xs >>= λ rest. ok (string s ∷ rest)
  ]

  unfoldable pub stop_field : Option (Json N) → Outcome PluginError (List (JsString × Json N))
  unfolding strings_of full_string array_or_empty
  stop_field stop = elim (full_string stop) [
    | some s ↦ ok ((js "stopSequences", array (to_items (string s ∷ []))) ∷ [])
    | none ↦
        if length (array_or_empty stop) == 0
        then ok []
        else strings_of (array_or_empty stop) >>= λ all.
            ok ((js "stopSequences", array (to_items all)) ∷ [])
  ]

  unfoldable pub generation : Json N → Outcome PluginError (List (JsString × Json N))
  unfolding member number_field number_or stop_field
  generation req = do
    most ← member (some req) (js "max_completion_tokens")
    limit ← member (some req) (js "max_tokens")
    temperature ← member (some req) (js "temperature")
    top_p ← member (some req) (js "top_p")
    stop ← member (some req) (js "stop")
    stops ← stop_field stop
    ok (
        number_field (js "maxOutputTokens") (number_or most limit)
        ++ (number_field (js "temperature") temperature
            ++ (number_field (js "topP") top_p ++ stops)))

  unfoldable pub encode : JsString → Outcome PluginError JsString
  encode s = elim (host.encode_uri_component s) [ some e ↦ ok e | none ↦ throws uri_error ]

  -- The object `body`, from the two lists that the loop built.
  unfoldable pub request_body : Conversation → List (JsString × Json N) → Json N
  unfolding content_json system_field
  request_body v gen = to_object (
      ((js "contents", array (to_items (map content_json v.contents))) ∷ [])
      ++ (system_field v.sys
          ++ (if length gen == 0 then [] else (js "generationConfig", to_object gen) ∷ [])))

  unfoldable pub build_request : Config → Context N → JsString → Outcome PluginError UpstreamRequest
  unfolding generation request_body encode is_true strip_slashes
  build_request cfg ctx entry = do
    req ← json_parse host entry
    messages ← member (some req) (js "messages")
    let v : Conversation = conversation messages
    throw_if (length v.contents == 0) (message (js "no translatable contents"))
    gen ← generation req
    let stream : Bool = is_true ctx.entry_stream
    let action : JsString =
        (if stream then js ":streamGenerateContent?alt=sse" else js ":generateContent")
    version ← encode cfg.api_version
    name ← encode ctx.vars_model
    ok (record {
      url =
          strip_slashes cfg.base_url
          ++ (js "/" ++ (version ++ (js "/models/" ++ (name ++ action))));
      method = js "POST";
      headers =
          (js "Content-Type", js "application/json") ∷ (js "x-goog-api-key", host.api_key) ∷ [];
      body = host.stringify (request_body v gen);
      stream = stream;
    })
