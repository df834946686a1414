-- ===== src/Web/Settings/Slots.antt =====
-- What `coerceSlots` of PackageSettingsPage.vue makes of the values in the form.
use ai_api_proxy.Common.{
  List, [], ◌∷◌, true, false, All, none, some, ok, throws, ◌≡◌, sym, ◌≢◌, ◌↔◌, ◌⊎◌, inl, inr, refl,
  arith, Bool-cases, Option-cases, subst,
}
use ai_api_proxy.Common.Strings.{JsString, same_string, same_string_iff}
use ai_api_proxy.Json.{number}
use ai_api_proxy.Web.Objects.{Properties, property, with_property}
use ai_api_proxy.Web.Settings.{
  Draft, is_numeric, is_empty_string, coerce_from, coerce_slots, bad_slot,
}
use ai_api_proxy.Web.Types
use ai_api_proxy.Web.Values.{Engine, Value}

-- Some element has the property.
abbrev pub Some : {A : Type 0} → (A → Type 0) → List A → Type 0
Some P [] = ⊥
Some P (x ∷ xs) = P x ⊎ Some P xs

with_property-All :
    (P : JsString × Value → Type 0) (name : JsString) (v : Value) (config : Properties Value)
    → ((k : JsString) → same_string k name ≡ true → P (k, v))
    → P (name, v)
    → All P config
    → All P (with_property name v config)
unfolding with_property
with_property-All P name v [] p h a = (h, tt)
with_property-All P name v ((k, w) ∷ config) p h (b, a) = elim (Bool-cases (same_string k name)) [
  | inl same ↦ rw same ((p k same, a))
  | inr other ↦ rw other ((b, with_property-All P name v config p h a))
]

with_property-keeps :
    (k : JsString) (v : Value) (config : Properties Value) (name : JsString)
    → property (with_property k v config) name ≡ none
    → property config name ≡ none
unfolding with_property property
with_property-keeps k v [] name gone = refl
with_property-keeps k v ((j, w) ∷ config) name gone =
    ground (arith, with_property-keeps k v config name)

with_property-there :
    (k : JsString) (v : Value) (config : Properties Value)
    → property (with_property k v config) k ≢ none
unfolding with_property property
with_property-there k v [] gone = ground (arith, (same_string_iff k k).1 refl)
with_property-there k v ((j, w) ∷ config) gone = ground (arith, with_property-there k v config)

module _ (engine : Engine) (config : Properties Value) where
  -- The value that is saved for a slot of the form: the number of what is in a numeric slot, which
  -- is not NaN, and what is in another slot as it is. Nothing is saved for an empty text.
  abbrev pub IsSaved : Types.SettingsSlot → Value → Type 0
  IsSaved slot v =
      (raw : Value) × (property config slot.name ≡ some raw)
      × (is_empty_string raw ≡ false)
      × (((is_numeric slot.schema ≡ true)
            × (engine.is_nan (engine.to_number raw) ≡ false)
            × (v ≡ number (engine.to_number raw)))
          ⊎ ((is_numeric slot.schema ≡ false) × (v ≡ raw)))

  -- A numeric slot holds the text of a number, is empty, or was never set.
  abbrev pub IsSavable : Types.SettingsSlot → Type 0
  IsSavable slot =
      (raw : Value)
      → property config slot.name ≡ some raw
      → is_empty_string raw ≡ false
      → is_numeric slot.schema ≡ true
      → engine.is_nan (engine.to_number raw) ≡ false

  -- What the loop does at a slot.
  abbrev Verdict : Types.SettingsSlot → Type 0
  Verdict slot =
      (IsSavable slot
        × ((v : Value) → IsSaved slot v → ⊥)
        × ((slots : List Types.SettingsSlot) (saved : Properties Value)
            → coerce_from engine config (slot ∷ slots) saved
              ≡ coerce_from engine config slots saved))
      ⊎ ((v : Value) × IsSavable slot
          × IsSaved slot v
          × ((slots : List Types.SettingsSlot) (saved : Properties Value)
              → coerce_from engine config (slot ∷ slots) saved
                ≡ coerce_from engine config slots (with_property slot.name v saved)))
      ⊎ ((text : JsString) × (IsSavable slot → ⊥)
          × ((slots : List Types.SettingsSlot) (saved : Properties Value)
              → coerce_from engine config (slot ∷ slots) saved ≡ throws text))

  -- The verdict on a slot that holds a value which is not empty.
  filled :
      (slot : Types.SettingsSlot) (raw : Value)
      → property config slot.name ≡ some raw
      → is_empty_string raw ≡ false
      → Verdict slot
  unfolding coerce_from
  filled slot raw e f = elim (Bool-cases (is_numeric slot.schema)) [
    | inr other ↦ inr (
        inl (
          raw,
          λ r. grind arith,
          (raw, e, f, inr (other, refl)),
          λ slots saved. rw (coerce_from, e, f, other) refl,
        ))
    | inl numeric ↦ elim (Bool-cases (engine.is_nan (engine.to_number raw))) [
      | inl bad ↦ inr (
          inr (
            bad_slot engine slot.name raw,
            λ savable. grind (arith, savable raw e f numeric),
            λ slots saved. rw (coerce_from, e, f, numeric, bad) refl,
          ))
      | inr good ↦ inr (
          inl (
            number (engine.to_number raw),
            λ r. grind arith,
            (raw, e, f, inl (numeric, good, refl)),
            λ slots saved. rw (coerce_from, e, f, numeric, good) refl,
          ))
    ]
  ]

  verdict : (slot : Types.SettingsSlot) → Verdict slot
  unfolding coerce_from
  verdict slot = elim (Option-cases (property config slot.name)) [
    | inl absent ↦ inl (
      λ raw e. cc (absent, e),
      λ v (r, e, f, more). cc (absent, e),
      λ slots saved. rw (coerce_from, absent) refl,
    )
    | inr (raw, e) ↦ elim (Bool-cases (is_empty_string raw)) [
      | inl empty ↦ inl (
        λ r. grind arith,
        λ v (r, f, t, more). cc (e, empty, f, t),
        λ slots saved. rw (coerce_from, e, empty) refl,
      )
      | inr text ↦ filled slot raw e text
    ]
  ]

  module _ (P : JsString × Value → Type 0) where
    -- What is saved for a slot satisfies `P`, under each text that is the name of the slot.
    abbrev Covers : Types.SettingsSlot → Type 0
    Covers slot =
        (v : Value) → IsSaved slot v → (k : JsString) → same_string k slot.name ≡ true → P (k, v)

    coerce_from-All :
        (slots : List Types.SettingsSlot) (saved out : Properties Value)
        → All Covers slots
        → All P saved
        → coerce_from engine config slots saved ≡ ok out
        → All P out
    coerce_from-All [] saved out cs a e =
        let start : coerce_from engine config [] saved ≡ ok saved = unfold coerce_from in refl in
        let same : saved ≡ out = cc (start, e) in subst (All P) same a
    coerce_from-All (slot ∷ slots) saved out (c, cs) a e = elim (verdict slot) [
      | inl (savable, unsaved, step) ↦
          coerce_from-All slots saved out cs a (cc (step slots saved, e))
      | inr (inl (v, savable, kept, step)) ↦
          coerce_from-All slots (with_property slot.name v saved) out cs
            (with_property-All P slot.name v saved (c v kept)
              (c v kept slot.name ((same_string_iff slot.name slot.name).1 refl)) a)
            (cc (step slots saved, e))
      | inr (inr (text, bad, step)) ↦ cc (step slots saved, e)
    ]

  coerce_from-ok_iff :
      (slots : List Types.SettingsSlot) (saved : Properties Value)
      → ((out : Properties Value) × (coerce_from engine config slots saved ≡ ok out))
        ↔ All IsSavable slots
  coerce_from-ok_iff [] saved = (λ h. tt, λ h. (saved, unfold coerce_from in refl))
  coerce_from-ok_iff (slot ∷ slots) saved = elim (verdict slot) [
    | inl (savable, unsaved, step) ↦
        let rest = coerce_from-ok_iff slots saved in
        (
          λ (out, e). (savable, rest.0 (out, cc (step slots saved, e))),
          λ (s, h). let found = rest.1 h in (found.0, cc (step slots saved, found.1)),
        )
    | inr (inl (v, savable, kept, step)) ↦
        let rest = coerce_from-ok_iff slots (with_property slot.name v saved) in
        (
          λ (out, e). (savable, rest.0 (out, cc (step slots saved, e))),
          λ (s, h). let found = rest.1 h in (found.0, cc (step slots saved, found.1)),
        )
    | inr (inr (text, bad, step)) ↦
        (λ (out, e). cc (step slots saved, e), λ (s, h). elim (bad s) [ ])
  ]

  -- A name that is not saved in the end was not saved before.
  coerce_from-keeps :
      (slots : List Types.SettingsSlot) (saved out : Properties Value) (name : JsString)
      → coerce_from engine config slots saved ≡ ok out
      → property out name ≡ none
      → property saved name ≡ none
  coerce_from-keeps [] saved out name e gone =
      let start : coerce_from engine config [] saved ≡ ok saved = unfold coerce_from in refl in
      let same : saved ≡ out = cc (start, e) in subst (λ o. property o name ≡ none) (sym same) gone
  coerce_from-keeps (slot ∷ slots) saved out name e gone = elim (verdict slot) [
    | inl (savable, unsaved, step) ↦
        coerce_from-keeps slots saved out name (cc (step slots saved, e)) gone
    | inr (inl (v, savable, kept, step)) ↦ with_property-keeps slot.name v saved name (
        coerce_from-keeps slots (with_property slot.name v saved) out name
          (cc (step slots saved, e)) gone)
    | inr (inr (text, bad, step)) ↦ cc (step slots saved, e)
  ]

  coerce_from-saves :
      (slots : List Types.SettingsSlot) (saved out : Properties Value)
      → coerce_from engine config slots saved ≡ ok out
      → All (λ slot. (v : Value) → IsSaved slot v → property out slot.name ≢ none) slots
  coerce_from-saves [] saved out e = tt
  coerce_from-saves (slot ∷ slots) saved out e = elim (verdict slot) [
    | inl (savable, unsaved, step) ↦
        (λ w h gone. unsaved w h, coerce_from-saves slots saved out (cc (step slots saved, e)))
    | inr (inl (v, savable, kept, step)) ↦ (
      λ w h gone. with_property-there slot.name v saved (
          coerce_from-keeps slots (with_property slot.name v saved) out slot.name
            (cc (step slots saved, e)) gone),
      coerce_from-saves slots (with_property slot.name v saved) out (cc (step slots saved, e)),
    )
    | inr (inr (text, bad, step)) ↦ cc (step slots saved, e)
  ]

All-weaken :
    {A : Type 0} (P Q : A → Type 0) (xs : List A) → ((x : A) → P x → Q x) → All P xs → All Q xs
All-weaken P Q [] f ps = tt
All-weaken P Q (x ∷ xs) f (p, ps) = (f x p, All-weaken P Q xs f ps)

Some-All :
    {A B : Type 0} (R : B → A → Type 0) (xs : List A)
    → All (λ x. (b : B) → R b x → Some (R b) xs) xs
Some-All R [] = tt
Some-All R (x ∷ xs) = (
  λ b r. inl r,
  All-weaken (λ y. (b : _) → R b y → Some (R b) xs) (λ y. (b : _) → R b y → Some (R b) (x ∷ xs)) xs
      (λ y f b r. inr (f b r)) (Some-All R xs),
)

module _ (engine : Engine) (draft : Draft) where
  -- The form can be saved exactly when each numeric slot holds the text of a number, is empty, or
  -- was never set.
  coerce_slots-ok_iff :
      ((out : Properties Value) × (coerce_slots engine draft ≡ ok out))
      ↔ All (IsSavable engine draft.config) draft.slots
  unfolding coerce_slots
  coerce_slots-ok_iff = coerce_from-ok_iff engine draft.config draft.slots []

  -- A property that is saved is the value of a slot with its name.
  abbrev pub IsFromForm : JsString × Value → Types.SettingsSlot → Type 0
  IsFromForm p slot = (slot.name ≡ p.0) × IsSaved engine draft.config slot p.1

  from_form : All (Covers engine draft.config (λ p. Some (IsFromForm p) draft.slots)) draft.slots
  from_form =
      All-weaken
        (λ slot. (p : JsString × Value) → IsFromForm p slot → Some (IsFromForm p) draft.slots)
        (Covers engine draft.config (λ p. Some (IsFromForm p) draft.slots)) draft.slots
        (λ slot f v h k same. f (k, v) (sym ((same_string_iff k slot.name).0 same), h))
        (Some-All IsFromForm draft.slots)

  -- If the form is saved, then each property that is saved is the value of a slot with its name,
  -- a number where the slot is numeric; and each slot that has a value to save is saved.
  pub coerce_slots-typed :
      (out : Properties Value)
      → coerce_slots engine draft ≡ ok out
      → All (λ p. Some (IsFromForm p) draft.slots) out
        × All
            (λ slot.
              (v : Value) → IsSaved engine draft.config slot v → property out slot.name ≢ none)
            draft.slots
  unfolding coerce_slots
  coerce_slots-typed out e = (
    coerce_from-All engine draft.config (λ p. Some (IsFromForm p) draft.slots) draft.slots [] out
        from_form tt e,
    coerce_from-saves engine draft.config draft.slots [] out e,
  )
