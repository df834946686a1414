-- ===== src/Gemini/Requests/Laws.antt =====
-- What `buildRequest` refuses, and the address it builds.
use ai_api_proxy.Common.Strings.{JsString, js}
use ai_api_proxy.Common.{
  ℕ, zero, suc, ◌<◌, List, [], ◌∷◌, ◌++◌, map, Bool, false, ◌&&◌, ◌==◌, length, if◌then◌else◌,
  Option, some, ok, throws, ◌≡◌, ◌≢◌, refl, ap, ◌∙◌, arith, Bool-cases, inl, inr, ==_iff,
}
use ai_api_proxy.Gemini.Contents.{Role, Content, conversation}
use ai_api_proxy.Gemini.Contents.Laws.{
  IsAlternating, said, spoken, conversation_lem, said-conversation,
}
use ai_api_proxy.Gemini.Requests.{Config, strip_slashes, build_request}
use ai_api_proxy.Gemini.Responses.{Host, Context, json_parse}
use ai_api_proxy.Json.{Json, member, message, array_or_empty}

abbrev pub slashes : ℕ → JsString
slashes zero = []
slashes (suc k) = 47 ∷ slashes k

unfoldable pub ends_in_slash : JsString → Bool
ends_in_slash [] = false
ends_in_slash (c ∷ []) = c == 47
ends_in_slash (c ∷ (d ∷ cs)) = ends_in_slash (d ∷ cs)

abbrev keep_or_drop : ℕ → JsString → JsString
keep_or_drop c rest = if c == 47 && length rest == 0 then [] else c ∷ rest

-- One character in front of a text that has lost its slashes.
keep_or_drop_lem :
    (c : ℕ) (rest : JsString) (k : ℕ)
    → ends_in_slash rest ≡ false
    → (ends_in_slash (keep_or_drop c rest) ≡ false)
      × ((k' : ℕ) × (c ∷ (rest ++ slashes k) ≡ keep_or_drop c rest ++ slashes k'))
unfolding ends_in_slash
keep_or_drop_lem c [] k h = elim (Bool-cases (c == 47)) [
  | inl slash ↦ rw slash ((refl, (suc k, ap (λ d. d ∷ slashes k) ((==_iff c 47).0 slash))))
  | inr other ↦ rw other ((other, (k, refl)))
]
keep_or_drop_lem c (d ∷ rest) k h =
    let kept : (c == 47 && suc (length rest) == 0) ≡ false = ground arith in
    rw kept ((h, (k, refl)))

-- The base address loses its slashes at the end, all of them and nothing else.
strip_slashes_lem :
    (s : JsString)
    → (ends_in_slash (strip_slashes s) ≡ false) × ((k : ℕ) × (s ≡ strip_slashes s ++ slashes k))
unfolding strip_slashes ends_in_slash
strip_slashes_lem [] = (refl, (0, refl))
strip_slashes_lem (c ∷ cs) =
    let (clean, (k, split)) = strip_slashes_lem cs in
    let (clean', (k', split')) = keep_or_drop_lem c (strip_slashes cs) k clean in
    (clean', (k', ap (λ t. c ∷ t) split ∙ split'))

said_some :
    (r : Role) (parts : List JsString) (more : List (Role × JsString))
    → 0 < length parts
    → map (λ p. (r, p)) parts ++ more ≢ []
said_some r [] more h e = absurd (omega arith)
said_some r (p ∷ parts) more h e = cc

nothing_said : (cs : List Content) → IsAlternating cs → said cs ≡ [] → cs ≡ []
unfolding said
nothing_said [] h e = refl
nothing_said (c ∷ cs) (held, _, h) e = absurd (said_some c.role c.parts (said cs) held e)

-- A request that parses and in which no user and no assistant says anything is refused, with the
-- plugin's message.
build_request_empty :
    {N : Type 0} (host : Host N) (cfg : Config) (ctx : Context N) (entry : JsString) (req : Json N)
    (messages : Option (Json N))
    → json_parse host entry ≡ ok req
    → member (some req) (js "messages") ≡ ok messages
    → spoken (array_or_empty messages) ≡ []
    → build_request host cfg ctx entry ≡ throws (message (js "no translatable contents"))
unfolding build_request
build_request_empty host cfg ctx entry req messages parsed found silent =
    let empty =
      nothing_said (conversation messages).contents (conversation_lem messages).1
        (said-conversation messages ∙ silent) in
    rw (parsed, found, empty) refl
