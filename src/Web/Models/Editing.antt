-- ===== src/Web/Models/Editing.antt =====
-- What a channel's parameters are after they were opened in the editor and saved as they are.
use ai_api_proxy.Common.{
  ◌<◌, ◌==◌, length, [], ◌∷◌, false, none, some, ◌≡◌, refl, ap, ◌∙◌, ◌⊎◌, inl, inr, arith,
  Bool-cases,
}
use ai_api_proxy.Common.Strings.{JsString, js, same_string, same_string_iff}
use ai_api_proxy.Json.{string, to_object, to_members}
use ai_api_proxy.Web.Models.Groups.{
  entries, open_edit, params_without_transport, final_params, string_or,
}
use ai_api_proxy.Web.Models.State.{State}
use ai_api_proxy.Web.Objects.Laws.{property-without, property-with_property}
use ai_api_proxy.Web.Objects.{Properties, property, without, with_property}
use ai_api_proxy.Web.Process.{advance}
use ai_api_proxy.Web.Types
use ai_api_proxy.Web.Values.{Engine, Value}

entries-to_members : (ps : Properties Value) → entries (to_members ps) ≡ ps
unfolding entries to_members
entries-to_members [] = refl
entries-to_members ((k, v) ∷ ps) = ap (λ rest. (k, v) ∷ rest) (entries-to_members ps)

-- The transport of a channel is missing, or a text that is not empty.
abbrev pub HasTransport : Properties Value → Type 0
HasTransport params =
    (property params (js "transport") ≡ none)
    ⊎ ((t : JsString) × (property params (js "transport") ≡ some (string t)) × (0 < length t))

-- What is left without the transport and gets it back.
abbrev pub rest_of : Properties Value → Properties Value
rest_of params = without (js "transport") params

final_params-direct :
    (engine : Engine) (ps : Properties Value)
    → final_params engine (to_object ps) [] ≡ some (to_object (without (js "transport") ps))
unfolding final_params
final_params-direct engine ps =
    ap (λ qs. some (to_object (without (js "transport") qs))) (entries-to_members ps)

final_params-transport :
    (engine : Engine) (ps : Properties Value) (t : JsString)
    → 0 < length t
    → final_params engine (to_object ps) t
      ≡ some (to_object (with_property (js "transport") (string t) ps))
unfolding final_params
final_params-transport engine ps t h =
    let filled : (length t == 0) ≡ false = ground arith in
    rw filled (
      ap (λ qs. some (to_object (with_property (js "transport") (string t) qs)))
        (entries-to_members ps))

string_or-absent : string_or none [] ≡ []
unfolding string_or
string_or-absent = refl

string_or-present : (t : JsString) → string_or (some (string t)) [] ≡ t
unfolding string_or
string_or-present t = refl

restored :
    (engine : Engine) (params : Properties Value)
    → HasTransport params
    → (ps : Properties Value) × (final_params engine
          (to_object (rest_of params))
          (string_or (property params (js "transport")) [])
        ≡ some (to_object ps))
      × ((name : JsString) → property ps name ≡ property params name)
restored engine params (inl absent) = (
  rest_of (rest_of params),
  rw (absent, string_or-absent) (final_params-direct engine (rest_of params)),
  restored_absent params absent,
)
  where
    restored_absent :
        (params : Properties Value)
        → property params (js "transport") ≡ none
        → (name : JsString) → property (rest_of (rest_of params)) name ≡ property params name
    restored_absent params absent name = elim (Bool-cases (same_string (js "transport") name)) [
      | inl same ↦
          let equal : property params (js "transport") ≡ property params name =
            ap (property params) ((same_string_iff (js "transport") name).0 same) in
          let gone : property (rest_of (rest_of params)) name ≡ none =
            property-without (rest_of params) (js "transport") name ∙ rw same refl in
          cc (equal, gone, absent)
      | inr other ↦
          property-without (rest_of params) (js "transport") name
          ∙ rw other (property-without params (js "transport") name ∙ rw other refl)
    ]
restored engine params (inr (t, present, filled)) = (
  with_property (js "transport") (string t) (rest_of params),
  rw (present, string_or-present t) (final_params-transport engine (rest_of params) t filled),
  restored_present params t present,
)
  where
    restored_present :
        (params : Properties Value) (t : JsString)
        → property params (js "transport") ≡ some (string t)
        → (name : JsString)
        → property (with_property (js "transport") (string t) (rest_of params)) name
          ≡ property params name
    restored_present params t present name = elim (Bool-cases (same_string (js "transport") name)) [
      | inl same ↦
          let equal : property params (js "transport") ≡ property params name =
            ap (property params) ((same_string_iff (js "transport") name).0 same) in
          let back : property (with_property (js "transport") (string t) (rest_of params)) name
              ≡ some (string t) =
            property-with_property (rest_of params) (js "transport") name (string t)
            ∙ rw same refl in
          cc (equal, back, present)
      | inr other ↦
          property-with_property (rest_of params) (js "transport") name (string t)
          ∙ rw other (property-without params (js "transport") name ∙ rw other refl)
    ]

-- A channel whose transport is missing or a text that is not empty is opened in the editor. If the
-- engine reads back what it writes of the other parameters, then the texts in the editor are saved
-- as parameters of which each has the value that it had.
pub open_edit-final_params :
    (engine : Engine) (row : Types.ModelGroup) (s : State)
    → engine.parse (engine.stringify_indented (to_object (rest_of row.params)))
      ≡ some (to_object (rest_of row.params))
    → HasTransport row.params
    → let opened = (advance (open_edit engine row) s).0 in
      (v : Value) × (ps : Properties Value) × (engine.parse opened.edit_params_json ≡ some v)
      × (final_params engine v opened.edit_transport ≡ some (to_object ps))
      × ((name : JsString) → property ps name ≡ property row.params name)
unfolding open_edit advance params_without_transport
open_edit-final_params engine row s reads transport =
    let found = restored engine row.params transport in
    (to_object (rest_of row.params), found.0, reads, found.1, found.2)
