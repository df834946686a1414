-- ===== src/Gemini/Contents/Laws.antt =====
-- What the loop over the messages makes of them.
use ai_api_proxy.Common.Strings.{JsString, js}
use ai_api_proxy.Common.{
  ◌<◌, List, [], ◌∷◌, ◌++◌, map, append-nil, append_assoc, true, false, ◌==◌, length, length-append,
  if◌then◌else◌, Bool-cases, inl, inr, Option, ◌≡◌, ◌≢◌, refl, sym, ap, subst, ◌∙◌, arith,
}
use ai_api_proxy.Gemini.Contents.{
  Role, model, user, same_role, Content, Conversation, text_of, own, is_system, role_of, push_text,
  add_message, add_messages, conversation,
}
use ai_api_proxy.Gemini.Contents.Heard.{
  Says, Says-text_of, Heard, nobody, silent, instructs, IsInstruction-is_system, spoken-Heard,
}
use ai_api_proxy.Json.{Json, array_or_empty}

-- The contents do not begin with this role.
abbrev Avoids : Role → List Content → Type 0
Avoids r [] = Unit
Avoids r (c ∷ cs) = r ≢ c.role

-- No two neighbours have one role, and each content has a part.
abbrev pub IsAlternating : List Content → Type 0
IsAlternating [] = Unit
IsAlternating (c ∷ cs) = (0 < length c.parts) × Avoids c.role cs × IsAlternating cs

same_role-ne : (r s : Role) → same_role r s ≡ false → r ≢ s
unfolding same_role
same_role-ne model model h e = cc
same_role-ne model user h e = cc
same_role-ne user model h e = cc
same_role-ne user user h e = cc

same_role-eq : (r s : Role) → same_role r s ≡ true → r ≡ s
unfolding same_role
same_role-eq model model h = refl
same_role-eq model user h = cc
same_role-eq user model h = cc
same_role-eq user user h = refl

push_text-Avoids :
    (q : Role) (c : Content) (cs : List Content) (r : Role) (t : JsString)
    → q ≢ c.role
    → Avoids q (push_text (c ∷ cs) r t)
unfolding push_text
push_text-Avoids q c [] r t h = elim (Bool-cases (same_role c.role r)) [
  | inl same ↦ rw same h
  | inr other ↦ rw other h
]
push_text-Avoids q c (d ∷ cs) r t h = h

push_text-IsAlternating :
    (cs : List Content) (r : Role) (t : JsString)
    → IsAlternating cs
    → IsAlternating (push_text cs r t)
unfolding push_text
push_text-IsAlternating [] r t h = (omega arith, tt, tt)
push_text-IsAlternating (c ∷ []) r t (held, _, h) = elim (Bool-cases (same_role c.role r)) [
  | inl same ↦ rw same ((omega (arith, length-append c.parts (t ∷ [])), tt, tt))
  | inr other ↦ rw other ((held, same_role-ne c.role r other, (omega arith, tt, tt)))
]
push_text-IsAlternating (c ∷ (d ∷ cs)) r t (held, apart, h) =
    (held, push_text-Avoids c.role d cs r t apart, push_text-IsAlternating (d ∷ cs) r t h)

-- The texts of a content, each with its role.
abbrev said_by : Content → List (Role × JsString)
said_by c = map (λ p. (c.role, p)) c.parts

unfoldable pub said : List Content → List (Role × JsString)
said [] = []
said (c ∷ cs) = said_by c ++ said cs

map-append {ℓ κ} :
    {A : Type ℓ} {B : Type κ} (f : A → B) (xs ys : List A) → map f (xs ++ ys) ≡ map f xs ++ map f ys
map-append f [] ys = refl
map-append f (x ∷ xs) ys = ap (λ zs. f x ∷ zs) (map-append f xs ys)

said-push_text :
    (cs : List Content) (r : Role) (t : JsString) → said (push_text cs r t) ≡ said cs ++ (r, t) ∷ []
unfolding said push_text
said-push_text [] r t = refl
said-push_text (c ∷ []) r t =
    let alone : said_by c ++ (r, t) ∷ [] ≡ (said_by c ++ []) ++ (r, t) ∷ [] =
      ap (λ said. said ++ (r, t) ∷ []) (sym (append-nil (said_by c))) in
    elim (Bool-cases (same_role c.role r)) [
      | inl same ↦
          let joined = map-append (λ p. (c.role, p)) c.parts (t ∷ []) in
          let renamed = ap (λ q. said_by c ++ (q, t) ∷ []) (same_role-eq c.role r same) in
          rw same (append-nil _ ∙ joined ∙ renamed ∙ alone)
      | inr other ↦ rw other alone
    ]
said-push_text (c ∷ (d ∷ cs)) r t =
    ap (λ rest. said_by c ++ rest) (said-push_text (d ∷ cs) r t)
    ∙ sym (append_assoc (said_by c) (said (d ∷ cs)) ((r, t) ∷ []))

length-eq-zero : (t : JsString) → (length t == 0) ≡ true → t ≡ []
length-eq-zero [] h = refl
length-eq-zero (c ∷ t) h = absurd (ground arith)

length-ne-zero : (t : JsString) → (length t == 0) ≡ false → t ≢ []
length-ne-zero t h e =
    let empty : (length t == 0) ≡ true = ap (λ u. length u == 0) e in cc (h, empty)

record Holds (v : Conversation) (texts : List (Role × JsString)) (system : List JsString)
    : Type 0 where
  holds_texts : said v.contents ≡ texts
  holds_system : v.sys ≡ system
  alternates : IsAlternating v.contents

module _ {N : Type 0} where
  abbrev content_of : Json N → JsString
  content_of m = text_of (own m (js "content"))

  -- The texts that are not empty of the messages of users and assistants, in order.
  unfoldable pub spoken : List (Json N) → List (Role × JsString)
  spoken [] = []
  spoken (m ∷ ms) =
      let rest = spoken ms in
      if is_system m
      then rest
      else if length (content_of m) == 0
      then rest
      else (role_of m, content_of m) ∷ rest

  -- The texts that are not empty of the system and developer messages, in order.
  unfoldable pub instructions : List (Json N) → List JsString
  instructions [] = []
  instructions (m ∷ ms) =
      let rest = instructions ms in
      if is_system m then if length (content_of m) == 0 then rest else content_of m ∷ rest else rest

  -- What one message adds.
  add_message-Holds :
      (v : Conversation) (m : Json N) {texts : List (Role × JsString)} {system : List JsString}
      → Holds v texts system
      → Holds (add_message v m) (texts ++ spoken (m ∷ [])) (system ++ instructions (m ∷ []))
  unfolding add_message spoken instructions
  add_message-Holds v m h = elim (Bool-cases (is_system m)) [
    | inl system ↦ elim (Bool-cases (length (content_of m) == 0)) [
      | inl empty ↦ rw (system, empty, append-nil, append-nil) h
      | inr full ↦
          rw (system, full, append-nil)
            (record {
              holds_texts = h.holds_texts;
              holds_system = ap (λ s. s ++ content_of m ∷ []) h.holds_system;
              alternates = h.alternates;
            })
    ]
    | inr speaks ↦ elim (Bool-cases (length (content_of m) == 0)) [
      | inl empty ↦ rw (speaks, empty, append-nil, append-nil) h
      | inr full ↦
          rw (speaks, full, append-nil)
            (record {
              holds_texts =
                  said-push_text v.contents (role_of m) (content_of m)
                  ∙ ap (λ s. s ++ (role_of m, content_of m) ∷ []) h.holds_texts;
              holds_system = h.holds_system;
              alternates =
                  push_text-IsAlternating v.contents (role_of m) (content_of m) h.alternates;
            })
    ]
  ]

  spoken-cons : (m : Json N) (ms : List (Json N)) → spoken (m ∷ ms) ≡ spoken (m ∷ []) ++ spoken ms
  unfolding spoken
  spoken-cons m ms = ground arith

  instructions-cons :
      (m : Json N) (ms : List (Json N))
      → instructions (m ∷ ms) ≡ instructions (m ∷ []) ++ instructions ms
  unfolding instructions
  instructions-cons m ms = ground arith

  add_messages-Holds :
      (v : Conversation) (ms : List (Json N)) {texts : List (Role × JsString)}
      {system : List JsString}
      → Holds v texts system
      → Holds (add_messages v ms) (texts ++ spoken ms) (system ++ instructions ms)
  unfolding add_messages
  add_messages-Holds v [] h = unfold spoken instructions in rw (append-nil, append-nil) h
  add_messages-Holds v (m ∷ ms) {texts} {system} h =
      rw
        (
          spoken-cons m ms,
          instructions-cons m ms,
          ← append_assoc texts (spoken (m ∷ [])) (spoken ms),
          ← append_assoc system (instructions (m ∷ [])) (instructions ms),
        )
        (add_messages-Holds (add_message v m) ms (add_message-Holds v m h))

  conversation-Holds :
      (messages : Option (Json N))
      → Holds
          (conversation messages)
          (spoken (array_or_empty messages))
          (instructions (array_or_empty messages))
  unfolding conversation said
  conversation-Holds messages =
      add_messages-Holds (record { contents = []; sys = [] }) (array_or_empty messages)
        (record { holds_texts = refl; holds_system = refl; alternates = tt })

  Heard-messages : (ms : List (Json N)) → Heard ms (spoken ms) (instructions ms)
  unfolding spoken instructions
  Heard-messages [] = nobody
  Heard-messages (m ∷ ms) = elim (Bool-cases (length (content_of m) == 0)) [
    | inl empty ↦
        let says : Says (own m (js "content")) [] =
          subst (λ t. Says (own m (js "content")) t) (length-eq-zero (content_of m) empty)
            (Says-text_of (own m (js "content"))) in
        elim (Bool-cases (is_system m)) [
          | inl system ↦ rw (system, empty) (silent says (Heard-messages ms))
          | inr speaks ↦ rw (speaks, empty) (silent says (Heard-messages ms))
        ]
    | inr full ↦ elim (Bool-cases (is_system m)) [
      | inl system ↦
          rw (system, full)
            (instructs (Says-text_of (own m (js "content"))) (length-ne-zero (content_of m) full)
              (IsInstruction-is_system m system) (Heard-messages ms))
      | inr speaks ↦
          rw (speaks, full)
            (spoken-Heard m (length-ne-zero (content_of m) full) speaks (Heard-messages ms))
    ]
  ]

  pub said-conversation :
      (messages : Option (Json N))
      → said (conversation messages).contents ≡ spoken (array_or_empty messages)
  said-conversation messages = (conversation-Holds messages).holds_texts

  -- The contents hold, in order, the texts that are not empty of the messages: those of assistants
  -- under the role of the model, and under that of the user those of every other message but of the
  -- system and of developers, whose texts `sys` holds in order. Each content has a part, and no two
  -- neighbours have one role.
  pub conversation_lem :
      (messages : Option (Json N))
      → Heard
          (array_or_empty messages)
          (said (conversation messages).contents)
          (conversation messages).sys
        × IsAlternating (conversation messages).contents
  conversation_lem messages =
      let h = conversation-Holds messages in
      let ms = array_or_empty messages in
      (
        subst (λ texts. Heard ms texts (conversation messages).sys) (sym h.holds_texts)
            (subst (λ texts. Heard ms (spoken ms) texts) (sym h.holds_system) (Heard-messages ms)),
        h.alternates,
      )
