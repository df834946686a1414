-- ===== src/Web/Objects.antt =====
-- JavaScript objects with string keys, as the list of their own properties.
pub mod Laws
use ai_api_proxy.Common.{
  List, [], ◌∷◌, Bool, true, false, if◌then◌else◌, Option, none, some, ◌&&◌, ◌||◌, ◌==◌,
}
use ai_api_proxy.Common.Strings.{JsString, same_string}

abbrev pub Properties : Type 0 → Type 0
Properties A = List (JsString × A)

module _ {A : Type 0} where
  -- `o[key]`
  unfoldable pub property : Properties A → JsString → Option A
  unfolding same_string
  property [] key = none
  property ((k, v) ∷ ps) key =
      let rest = property ps key in if same_string k key then some v else rest

  -- `delete o[key]`
  unfoldable pub without : JsString → Properties A → Properties A
  unfolding same_string
  without key [] = []
  without key ((k, v) ∷ ps) =
      let rest = without key ps in if same_string k key then rest else (k, v) ∷ rest

  -- `o[key] = v`
  unfoldable pub with_property : JsString → A → Properties A → Properties A
  unfolding same_string
  with_property key v [] = (key, v) ∷ []
  with_property key v ((k, w) ∷ ps) =
      let rest = with_property key v ps in if same_string k key then (k, v) ∷ ps else (k, w) ∷ rest

  -- `Object.fromEntries`, onto an object
  unfoldable pub from_entries : Properties A → Properties A → Properties A
  unfolding with_property
  from_entries o [] = o
  from_entries o ((k, v) ∷ es) = from_entries (with_property k v o) es

-- `s.startsWith(t)` and `s.includes(t)`
unfoldable pub starts_with : JsString → JsString → Bool
starts_with s [] = true
starts_with [] (d ∷ t) = false
starts_with (c ∷ s) (d ∷ t) = c == d && starts_with s t

unfoldable pub includes : JsString → JsString → Bool
unfolding starts_with
includes [] t = starts_with [] t
includes (c ∷ s) t = starts_with (c ∷ s) t || includes s t
