-- ===== src/Json/Texts.antt =====
-- Which values are texts and which are numbers.
use ai_api_proxy.Common.{[], ◌⊎◌, inl, inr, Option, none, some, ◌≡◌, ◌≢◌, refl}
use ai_api_proxy.Common.Strings.{JsString}
use ai_api_proxy.Json.{
  Json, Items, Members, null, boolean, number, string, array, object, string_or_empty,
}

module _ {N : Type 0} where
  -- `v` is this string.
  abbrev pub IsText : Option (Json N) → JsString → Type 0
  IsText v s = v ≡ some (string s)

  -- `v` is this number.
  abbrev pub IsNumber : Option (Json N) → N → Type 0
  IsNumber v n = v ≡ some (number n)

  -- The number `v`, or else `other`.
  abbrev pub NumberOr : Option (Json N) → N → N → Type 0
  NumberOr v other n = IsNumber v n ⊎ (((k : N) → IsNumber v k → ⊥) × (n ≡ other))

  -- The text `v`, or else the empty one.
  abbrev pub TextOrEmpty : Option (Json N) → JsString → Type 0
  TextOrEmpty v t = IsText v t ⊎ (((s : JsString) → IsText v s → ⊥) × (t ≡ []))

  -- The text `v` if it is not empty, or else `other`.
  abbrev pub FullTextOr : Option (Json N) → JsString → JsString → Type 0
  FullTextOr v other t =
      (IsText v t × (t ≢ [])) ⊎ (((s : JsString) → IsText v s → s ≡ []) × (t ≡ other))

  -- An object or an array, which `typeof` calls objects.
  pub data IsObject : Json N → Type 0 where
    is_object : (ms : Members N) → IsObject (object ms)
    is_array : (xs : Items N) → IsObject (array xs)

  pub string_or_empty_lem : (v : Option (Json N)) → TextOrEmpty v (string_or_empty v)
  unfolding string_or_empty
  string_or_empty_lem (some (string t)) = inl refl
  string_or_empty_lem none = inr (λ s e. cc e, refl)
  string_or_empty_lem (some null) = inr (λ s e. cc e, refl)
  string_or_empty_lem (some (boolean b)) = inr (λ s e. cc e, refl)
  string_or_empty_lem (some (number n)) = inr (λ s e. cc e, refl)
  string_or_empty_lem (some (array xs)) = inr (λ s e. cc e, refl)
  string_or_empty_lem (some (object ms)) = inr (λ s e. cc e, refl)
