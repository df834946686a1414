-- ===== src/Anthropic/Laws.antt =====
-- When the relay sends a request on, and what the request carries.
use ai_api_proxy.Common.Strings.{JsString, js}
use ai_api_proxy.Common.{
  Ensures, [], ◌∷◌, none, ◌++◌, Option, some, ok, ◌≡◌, refl, Option-cases, inl, inr, Ensures->>=,
  Ensures-elim, arith, suc, ap, ◌∙◌, length, ◌==◌, false,
}
use ai_api_proxy.Anthropic.{Request, demand, key_string, build_messages, relay_event}
use ai_api_proxy.Gemini.Responses.{Host, Context, own_of, json_parse}
use ai_api_proxy.Json.{
  Json, full_string, member, null, boolean, number, string, array, object, item, nil,
}

module _ {N : Type 0} where
  demand-eq-some :
      (v : Option (Json N)) (text : JsString) {s : JsString}
      → demand v text ≡ ok s
      → full_string v ≡ some s
  unfolding demand
  demand-eq-some v text h = elim (Option-cases (full_string v)) [
    | inl missing ↦ ground arith
    | inr (s, given) ↦ ground arith
  ]

  json_parse-eq-some :
      (host : Host N) (text : JsString) {v : Json N}
      → json_parse host text ≡ ok v
      → host.parse text ≡ some v
  unfolding json_parse
  json_parse-eq-some host text h = elim (Option-cases (host.parse text)) [
    | inl missing ↦ ground arith
    | inr (s, given) ↦ ground arith
  ]

module _ {N : Type 0} (host : Host N) (key : JsString → Option (Json N)) where
  -- A request that is sent on carries the client's text as it came and the client's choice of
  -- streaming; the text parses, and the base address and the package's key are strings that are
  -- not empty.
  pub build_messages-relays :
      (config : Option (Json N)) (ctx : Context N) (entry : JsString) (request : Request N)
      → build_messages host key config ctx entry ≡ ok request
      → (request.body ≡ entry)
        × (request.stream ≡ ctx.entry_stream)
        × ((v : Json N) × (host.parse entry ≡ some v))
        × ((url : JsString) × (full_string (own_of config (js "base_url")) ≡ some url))
        × ((token : JsString) × (full_string (key (js "api_key")) ≡ some token))
  unfolding build_messages key_string
  build_messages-relays config ctx entry request h =
      let unset = js "package param base_url unset" in
      let missing = js "package key \"" ++ (js "api_key" ++ js "\" empty or missing") in
      Ensures-elim Relays (build_messages host key config ctx entry)
        (Ensures->>= Relays (demand (own_of config (js "base_url")) unset) _ λ url found.
          Ensures->>= Relays (json_parse host entry) _ λ v parsed.
            Ensures->>= Relays (demand (key (js "api_key")) missing) _ λ token held. (
              refl,
              refl,
              (v, json_parse-eq-some host entry parsed),
              (url, demand-eq-some (own_of config (js "base_url")) unset found),
              (token, demand-eq-some (key (js "api_key")) missing held),
            ))
        h
    where
      Relays : Request N → Type 0
      Relays r =
          (r.body ≡ entry)
          × (r.stream ≡ ctx.entry_stream)
          × ((v : Json N) × (host.parse entry ≡ some v))
          × ((url : JsString) × (full_string (own_of config (js "base_url")) ≡ some url))
          × ((token : JsString) × (full_string (key (js "api_key")) ≡ some token))

module _ {N : Type 0} where
  full_string-eq-some :
      (v : Option (Json N)) {s : JsString} → full_string v ≡ some s → v ≡ some (string s)
  unfolding full_string
  full_string-eq-some (some (string [])) h = cc
  full_string-eq-some (some (string (c ∷ cs))) h =
      let held : (suc (length cs) == 0) ≡ false = ground arith in ap (λ o. kept o) (rw held at h)
    where
      kept : Option JsString → Option (Json N)
      kept none = none
      kept (some t) = some (string t)
  full_string-eq-some none h = cc
  full_string-eq-some (some null) h = cc
  full_string-eq-some (some (boolean b)) h = cc
  full_string-eq-some (some (number n)) h = cc
  full_string-eq-some (some (array xs)) h = cc
  full_string-eq-some (some (object ms)) h = cc

module _ {N : Type 0} (host : Host N) (key : JsString → Option (Json N)) (event : JsString) where
  abbrev Emits : Option JsString → Type 0
  Emits none = Unit
  Emits (some out) =
      (frame : Json N) × (text : JsString) × (v : Json N) × (host.parse event ≡ some frame)
      × (member (some frame) (js "data") ≡ ok (some (string text)))
      × (host.parse text ≡ some v)
      × (out ≡ host.stringify (array (item v nil)))

  relay_event-Emits : Ensures Emits (relay_event host key event)
  unfolding relay_event
  relay_event-Emits = Ensures->>= Emits (json_parse host event) _ λ frame parsed.
      Ensures->>= Emits (member (some frame) (js "data")) _ λ held found.
        elim (Option-cases (full_string held)) [
          | inl empty ↦ rw empty tt
          | inr (text, full) ↦ rw full (
              Ensures->>= Emits (json_parse host text) _ λ v inner. (
                frame,
                text,
                v,
                json_parse-eq-some host event parsed,
                found ∙ ap (λ d. ok d) (full_string-eq-some held full),
                json_parse-eq-some host text inner,
                refl,
              ))
        ]

  -- An event that is emitted is the one-element array of the value that the frame's text, under
  -- `data`, parses to.
  relay_event-emits :
      {out : JsString}
      → relay_event host key event ≡ ok (some out)
      → (frame : Json N) × (text : JsString) × (v : Json N) × (host.parse event ≡ some frame)
        × (member (some frame) (js "data") ≡ ok (some (string text)))
        × (host.parse text ≡ some v)
        × (out ≡ host.stringify (array (item v nil)))
  relay_event-emits h = Ensures-elim Emits (relay_event host key event) relay_event-Emits h
