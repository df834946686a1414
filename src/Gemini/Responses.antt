-- ===== src/Gemini/Responses.antt =====
-- `mapEvent`, `mapResponse` and `mapError`, with their helpers.
pub mod Laws
use ai_api_proxy.Common.Strings.{JsString, js}
use ai_api_proxy.Common.{
  ℕ, List, [], ◌∷◌, ◌++◌, map, concat, Bool, true, false, not, ◌&&◌, ◌||◌, ◌==◌, length,
  if◌then◌else◌, Option, none, some, ok, throws, ◌>>=◌, ◌>>◌, Outcome,
}
use ai_api_proxy.Gemini.Contents.{is_string, own}
use ai_api_proxy.Json.{
  Json, Items, Members, null, boolean, number, string, array, object, item, nil, PluginError,
  syntax_error, type_error, member, array_or_empty, string_or_empty, full_string, truthy, to_object,
  to_items,
}

-- What the plugins call and the repository's JavaScript does not define: `JSON`, `String` and
-- `encodeURIComponent` of the engine, arithmetic on its numbers, and the host's `util`.
pub record Host (N : Type 0) : Type 0 where
  pub parse : JsString → Option (Json N)
  pub stringify : Json N → JsString
  pub to_string : Json N → Option JsString
  pub number_string : N → JsString
  pub encode_uri_component : JsString → Option JsString
  pub is_zero : N → Bool
  pub zero_number : N
  pub add : N → N → N
  pub now_seconds : N
  pub uuid : JsString
  pub api_key : JsString

-- The parts of `ctx` that the plugin reads.
pub record Context (N : Type 0) : Type 0 where
  pub request_id : JsString
  pub vars_model : JsString
  pub entry_stream : Option (Json N)

pub record Usage (N : Type 0) : Type 0 where
  pub prompt_tokens : N
  pub completion_tokens : N
  pub total_tokens : N

unfoldable pub is_none {ℓ} : {A : Type ℓ} → Option A → Bool
is_none none = true
is_none (some a) = false

module _ {N : Type 0} where
  unfoldable pub own_of : Option (Json N) → JsString → Option (Json N)
  unfolding own
  own_of none key = none
  own_of (some v) key = own v key

  unfoldable pub is_blocking : Option (Json N) → Bool
  unfolding is_string
  is_blocking fr =
      is_string fr (js "SAFETY")
      || is_string fr (js "BLOCKLIST")
      || is_string fr (js "PROHIBITED_CONTENT")
      || is_string fr (js "SPII")
      || is_string fr (js "RECITATION")

  unfoldable pub finish_reason : Option (Json N) → JsString
  unfolding is_blocking
  finish_reason fr =
      if is_string fr (js "MAX_TOKENS")
      then js "length"
      else if is_blocking fr
      then js "content_filter"
      else js "stop"

  -- `v[0]` of an array, else `undefined`
  unfoldable pub first_of : Option (Json N) → Option (Json N)
  first_of (some (array (item x xs))) = some x
  first_of _ = none

  unfoldable pub first_candidate : Json N → Outcome PluginError (Option (Json N))
  unfolding member first_of
  first_candidate g = do candidates ← member (some g) (js "candidates"); ok (first_of candidates)

  -- A value that is no object has no `content`, `parts` or `text`.
  unfoldable pub parts_text : Option (Json N) → JsString
  unfolding own_of array_or_empty string_or_empty
  parts_text cand = concat (
      map (λ p. string_or_empty (own p (js "text")))
        (array_or_empty (own_of (own_of cand (js "content")) (js "parts"))))

  unfoldable pub resp_id : Json N → JsString → Outcome PluginError JsString
  unfolding member full_string
  resp_id g fallback = do
    id ← member (some g) (js "responseId")
    (elim (full_string id) [ some s ↦ ok s | none ↦ ok fallback ])

  -- `g.promptFeedback && g.promptFeedback.blockReason`
  unfoldable pub block_of : Json N → Outcome PluginError (Option (Json N))
  unfolding member own_of
  block_of g = do
    feedback ← member (some g) (js "promptFeedback")
    ok (own_of feedback (js "blockReason"))

  unfoldable pub null_or_string : Option JsString → Json N
  null_or_string none = null
  null_or_string (some s) = string s

module _ {N : Type 0} (host : Host N) where
  unfoldable pub count : Option (Json N) → N
  count (some (number n)) = n
  count _ = host.zero_number

  unfoldable pub usage_of : Json N → Outcome PluginError (Option (Usage N))
  unfolding member own_of count truthy
  usage_of g = do
    u ← member (some g) (js "usageMetadata")
    let usage : Usage N = record {
      prompt_tokens = count (own_of u (js "promptTokenCount"));
      completion_tokens =
          host.add (count (own_of u (js "candidatesTokenCount")))
            (count (own_of u (js "thoughtsTokenCount")));
      total_tokens = count (own_of u (js "totalTokenCount"));
    }
    (if truthy host.is_zero u then ok (some usage) else ok none)

  unfoldable pub usage_json : Usage N → Json N
  usage_json u = to_object (
      (js "prompt_tokens", number u.prompt_tokens)
      ∷ (js "completion_tokens", number u.completion_tokens)
      ∷ (js "total_tokens", number u.total_tokens)
      ∷ [])

  -- `JSON.parse(text)`
  unfoldable pub json_parse : JsString → Outcome PluginError (Json N)
  json_parse text = elim (host.parse text) [ some v ↦ ok v | none ↦ throws syntax_error ]

  -- `JSON.parse(v)` of a value, which is made a string first
  unfoldable pub parse_value : Option (Json N) → Outcome PluginError (Json N)
  unfolding json_parse
  parse_value none = json_parse (js "undefined")
  parse_value (some (string s)) = json_parse s
  parse_value (some v) = elim (host.to_string v) [
    | some s ↦ json_parse s
    | none ↦ throws type_error
  ]

  -- `fr` of `mapEvent`; `none` is null.
  unfoldable pub event_finish : Option (Json N) → Option (Json N) → Option JsString
  unfolding truthy own_of finish_reason
  event_finish block cand =
      if truthy host.is_zero block
      then some (js "content_filter")
      else if truthy host.is_zero (own_of cand (js "finishReason"))
      then some (finish_reason (own_of cand (js "finishReason")))
      else none

  -- The `finish_reason` of `mapResponse`.
  unfoldable pub response_finish : Option (Json N) → Option (Json N) → JsString
  unfolding truthy own_of finish_reason
  response_finish block cand =
      if truthy host.is_zero block
      then js "content_filter"
      else finish_reason (own_of cand (js "finishReason"))

  -- `if (usage) out.usage = usage;`
  unfoldable pub usage_field : Option (Usage N) → List (JsString × Json N)
  unfolding usage_json
  usage_field none = []
  usage_field (some u) = (js "usage", usage_json u) ∷ []

  unfoldable pub chunk_of :
      Context N → JsString → JsString → Option JsString → Option (Usage N) → Json N
  unfolding null_or_string usage_field
  chunk_of ctx id text fr usage =
      let delta : Json N =
        if length text == 0 then to_object [] else to_object ((js "content", string text) ∷ []) in
      let choice : Json N = to_object (
        (js "index", number host.zero_number)
        ∷ (js "delta", delta)
        ∷ (js "finish_reason", null_or_string fr)
        ∷ []) in
      to_object (
        ((js "id", string id)
          ∷ (js "object", string (js "chat.completion.chunk"))
          ∷ (js "created", number host.now_seconds)
          ∷ (js "model", string ctx.vars_model)
          ∷ (js "choices", array (item choice nil))
          ∷ [])
        ++ usage_field usage)

  -- `mapEvent` behind its parses; `none` is the skipped frame.
  unfoldable pub event_chunk : Context N → Json N → Outcome PluginError (Option (Json N))
  unfolding first_candidate parts_text block_of event_finish usage_of resp_id chunk_of is_none
  event_chunk ctx g = do
    cand ← first_candidate g
    block ← block_of g
    usage ← usage_of g
    let text = parts_text cand
    let fr = event_finish block cand
    (if length text == 0 && is_none fr && is_none usage
        then ok none
        else resp_id g ctx.request_id >>= λ id. ok (some (chunk_of ctx id text fr usage)))

  unfoldable pub map_event : Context N → JsString → Outcome PluginError (Option JsString)
  unfolding event_chunk parse_value
  map_event ctx event = do
    frame ← json_parse event
    data_text ← member (some frame) (js "data")
    g ← parse_value data_text
    chunk ← event_chunk ctx g
    (elim chunk [ none ↦ ok none | some c ↦ ok (some (host.stringify (array (item c nil)))) ])

  unfoldable pub response_json : Context N → Json N → Outcome PluginError (Json N)
  unfolding first_candidate block_of resp_id usage_of usage_field response_finish parts_text
  response_json ctx g = do
    cand ← first_candidate g
    block ← block_of g
    id ← resp_id g host.uuid
    usage ← usage_of g
    let fr : JsString = response_finish block cand
    let reply : Json N =
        to_object
          ((js "role", string (js "assistant")) ∷ (js "content", string (parts_text cand)) ∷ [])
    let choice : Json N = to_object (
        (js "index", number host.zero_number)
        ∷ (js "message", reply)
        ∷ (js "finish_reason", string fr)
        ∷ [])
    ok (
        to_object (
          ((js "id", string id)
            ∷ (js "object", string (js "chat.completion"))
            ∷ (js "created", number host.now_seconds)
            ∷ (js "model", string ctx.vars_model)
            ∷ (js "choices", array (item choice nil))
            ∷ [])
          ++ usage_field usage))

  unfoldable pub map_response : Context N → JsString → Outcome PluginError JsString
  unfolding response_json json_parse
  map_response ctx body = do g ← json_parse body; out ← response_json ctx g; ok (host.stringify out)
