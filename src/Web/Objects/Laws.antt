-- ===== src/Web/Objects/Laws.antt =====
-- What is read behind a write.
use ai_api_proxy.Common.{[], ◌∷◌, if◌then◌else◌, none, some, ◌≡◌, inl, inr, arith, Bool-cases}
use ai_api_proxy.Common.Strings.{JsString, same_string, same_string_trans, same_string_apart}
use ai_api_proxy.Web.Objects.{Properties, property, without, with_property}

module _ {A : Type 0} where
  pub property-without :
      (ps : Properties A) (key name : JsString)
      → property (without key ps) name ≡ (if same_string key name then none else property ps name)
  unfolding property without
  property-without [] key name = ground arith
  property-without ((k, v) ∷ ps) key name = elim (Bool-cases (same_string k key)) [
    | inl same ↦ ground (arith, property-without ps key name, same_string_trans k key name same)
    | inr other ↦ ground (arith, property-without ps key name, same_string_apart k key name other)
  ]

  pub property-with_property :
      (ps : Properties A) (key name : JsString) (w : A)
      → property (with_property key w ps) name
        ≡ (if same_string key name then some w else property ps name)
  unfolding property with_property
  property-with_property [] key name w = ground arith
  property-with_property ((k, v) ∷ ps) key name w = elim (Bool-cases (same_string k key)) [
    | inl same ↦ ground (arith, same_string_trans k key name same)
    | inr other ↦
        ground (arith, property-with_property ps key name w, same_string_apart k key name other)
  ]
