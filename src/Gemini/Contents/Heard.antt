-- ===== src/Gemini/Contents/Heard.antt =====
-- What the messages of a request say, by the words of their roles and by the shape of their content.
use ai_api_proxy.Common.{
  List, [], ◌∷◌, ◌++◌, map, concat, true, false, Bool-cases, inl, inr, ◌⊎◌, Option, none, some, ◌≡◌,
  ◌≢◌, refl, ap, ◌∙◌, arith,
}
use ai_api_proxy.Common.Strings.{JsString, js, same_string_iff}
use ai_api_proxy.Gemini.Contents.{
  Role, model, user, own, is_string, block_text, text_of, is_system, role_of,
}
use ai_api_proxy.Json.Texts.{IsText, string_or_empty_lem}
use ai_api_proxy.Json.{Json, Items, null, boolean, number, string, array, object, nil, item, items}

module _ {N : Type 0} where
  -- A block `{ type: "text", text }` has its text, and all else is empty.
  abbrev pub BlockSays : Json N → JsString → Type 0
  BlockSays p t =
      (IsText (own p (js "type")) (js "text") × IsText (own p (js "text")) t)
      ⊎ (((s : JsString)
            → IsText (own p (js "type")) (js "text")
            → IsText (own p (js "text")) s
            → ⊥)
          × (t ≡ []))

  pub data BlocksSay : Items N → JsString → Type 0 where
    no_blocks : BlocksSay nil []
    blocks :
        {p : Json N} {ps : Items N} {t u : JsString}
        → BlockSays p t
        → BlocksSay ps u
        → BlocksSay (item p ps) (t ++ u)

  -- A content is a text, or an array of blocks, and says nothing if it is neither.
  abbrev pub Says : Option (Json N) → JsString → Type 0
  Says (some (string s)) t = t ≡ s
  Says (some (array xs)) t = BlocksSay xs t
  Says none t = t ≡ []
  Says (some null) t = t ≡ []
  Says (some (boolean b)) t = t ≡ []
  Says (some (number n)) t = t ≡ []
  Says (some (object ms)) t = t ≡ []

  is_string_iff : (v : Option (Json N)) (s : JsString) → is_string v s ≡ true → IsText v s
  unfolding is_string
  is_string_iff (some (string t)) s h = ap (λ u. some (string u)) ((same_string_iff t s).0 h)
  is_string_iff none s h = absurd (cc h)
  is_string_iff (some null) s h = absurd (cc h)
  is_string_iff (some (boolean b)) s h = absurd (cc h)
  is_string_iff (some (number n)) s h = absurd (cc h)
  is_string_iff (some (array xs)) s h = absurd (cc h)
  is_string_iff (some (object ms)) s h = absurd (cc h)

  not_string : (v : Option (Json N)) (s : JsString) → is_string v s ≡ false → IsText v s → ⊥
  unfolding is_string
  not_string v s h e =
      let same : is_string v s ≡ true = ap (λ w. is_string w s) e ∙ (same_string_iff s s).1 refl in
      cc (same, h)

  BlockSays-block_text : (p : Json N) → BlockSays p (block_text p)
  unfolding block_text
  BlockSays-block_text p = elim (Bool-cases (is_string (own p (js "type")) (js "text"))) [
    | inl typed ↦ elim (string_or_empty_lem (own p (js "text"))) [
      | inl there ↦ rw typed (inl (is_string_iff (own p (js "type")) (js "text") typed, there))
      | inr (missing, empty) ↦ rw typed (inr (λ s _ e. missing s e, empty))
    ]
    | inr untyped ↦
        rw untyped (inr (λ s e _. not_string (own p (js "type")) (js "text") untyped e, refl))
  ]

  BlocksSay-concat : (xs : Items N) → BlocksSay xs (concat (map block_text (items xs)))
  unfolding items
  BlocksSay-concat nil = no_blocks
  BlocksSay-concat (item p ps) = blocks (BlockSays-block_text p) (BlocksSay-concat ps)

  pub Says-text_of : (v : Option (Json N)) → Says v (text_of v)
  unfolding text_of
  Says-text_of (some (string s)) = refl
  Says-text_of (some (array xs)) = BlocksSay-concat xs
  Says-text_of none = refl
  Says-text_of (some null) = refl
  Says-text_of (some (boolean b)) = refl
  Says-text_of (some (number n)) = refl
  Says-text_of (some (object ms)) = refl

  -- `m.role` is this word.
  abbrev pub HasRole : Json N → JsString → Type 0
  HasRole m word = IsText (own m (js "role")) word

  abbrev pub IsInstruction : Json N → Type 0
  IsInstruction m = HasRole m (js "system") ⊎ HasRole m (js "developer")

  -- The messages, what they say under which role, and what they instruct, in order. An assistant
  -- speaks as the model, and who is no assistant, no system and no developer as the user; a message
  -- that says nothing adds nothing.
  pub data Heard : List (Json N) → List (Role × JsString) → List JsString → Type 0 where
    nobody : Heard [] [] []
    silent :
        {m : Json N} {ms : List (Json N)} {said : List (Role × JsString)}
        {instructed : List JsString}
        → Says (own m (js "content")) []
        → Heard ms said instructed
        → Heard (m ∷ ms) said instructed
    instructs :
        {m : Json N} {ms : List (Json N)} {said : List (Role × JsString)}
        {instructed : List JsString} {t : JsString}
        → Says (own m (js "content")) t
        → t ≢ []
        → IsInstruction m
        → Heard ms said instructed
        → Heard (m ∷ ms) said (t ∷ instructed)
    answers :
        {m : Json N} {ms : List (Json N)} {said : List (Role × JsString)}
        {instructed : List JsString} {t : JsString}
        → Says (own m (js "content")) t
        → t ≢ []
        → HasRole m (js "assistant")
        → Heard ms said instructed
        → Heard (m ∷ ms) ((model, t) ∷ said) instructed
    asks :
        {m : Json N} {ms : List (Json N)} {said : List (Role × JsString)}
        {instructed : List JsString} {t : JsString}
        → Says (own m (js "content")) t
        → t ≢ []
        → (IsInstruction m → ⊥)
        → (HasRole m (js "assistant") → ⊥)
        → Heard ms said instructed
        → Heard (m ∷ ms) ((user, t) ∷ said) instructed

  pub IsInstruction-is_system : (m : Json N) → is_system m ≡ true → IsInstruction m
  unfolding is_system
  IsInstruction-is_system m h = elim (Bool-cases (is_string (own m (js "role")) (js "system"))) [
    | inl system ↦ inl (is_string_iff (own m (js "role")) (js "system") system)
    | inr other ↦ inr (is_string_iff (own m (js "role")) (js "developer") (ground arith))
  ]

  not_instruction : (m : Json N) → is_system m ≡ false → IsInstruction m → ⊥
  unfolding is_system
  not_instruction m h (inl e) = not_string (own m (js "role")) (js "system") (ground arith) e
  not_instruction m h (inr e) = not_string (own m (js "role")) (js "developer") (ground arith) e

  -- What one message adds that is no instruction.
  pub spoken-Heard :
      (m : Json N) {ms : List (Json N)} {said : List (Role × JsString)} {instructed : List JsString}
      → text_of (own m (js "content")) ≢ []
      → is_system m ≡ false
      → Heard ms said instructed
      → Heard (m ∷ ms) ((role_of m, text_of (own m (js "content"))) ∷ said) instructed
  unfolding role_of
  spoken-Heard m full speaks h =
      elim (Bool-cases (is_string (own m (js "role")) (js "assistant"))) [
        | inl assistant ↦ rw assistant (
            answers (Says-text_of (own m (js "content"))) full
              (is_string_iff (own m (js "role")) (js "assistant") assistant) h)
        | inr other ↦ rw other (
            asks (Says-text_of (own m (js "content"))) full (not_instruction m speaks)
              (not_string (own m (js "role")) (js "assistant") other) h)
      ]
