-- ===== src/Sdk/Paths.antt =====
-- `get` and `set`, on paths of names with dots between them.
pub mod Laws
use ai_api_proxy.Common.{List, [], ◌∷◌, Bool, true, false, ◌==◌, if◌then◌else◌, Option, none, some}
use ai_api_proxy.Common.Strings.{JsString}
use ai_api_proxy.Json.{Json, Members, null, boolean, number, string, array, object, end, find}
use ai_api_proxy.Sdk.Objects.{put}

-- `path.split(".")`: the names, of which there is one at least.
unfoldable pub split_first : JsString → JsString × List JsString
split_first [] = ([], [])
split_first (c ∷ s) =
    let rest = split_first s in if c == 0x2e then ([], rest.0 ∷ rest.1) else (c ∷ rest.0, rest.1)

module _ {N : Type 0} (element : Json N → JsString → Option (Json N)) where
  -- `a == null ? a : a[k]`; `element` has the elements and the length of arrays and of strings.
  unfoldable pub step : Option (Json N) → JsString → Option (Json N)
  step none k = none
  step (some null) k = some null
  step (some (object ms)) k = find ms k
  step (some v) k = element v k

  unfoldable pub get_names : Option (Json N) → List JsString → Option (Json N)
  unfolding step
  get_names v [] = v
  get_names v (k ∷ ks) = get_names (step v k) ks

  unfoldable pub get : Json N → JsString → Option (Json N)
  unfolding get_names split_first
  get obj path = let names = split_first path in get_names (some obj) (names.0 ∷ names.1)

module _ {N : Type 0} where
  -- The properties of the object that stands under a name of the path, or of the new one; `none` is
  -- an array, to which the code adds a property that JSON has not.
  unfoldable pub entered : Option (Json N) → Option (Members N)
  entered (some (object ms)) = some ms
  entered (some (array xs)) = none
  entered _ = some end

  -- The loop of `set` on `cur`.
  unfoldable pub set_names : Members N → JsString → List JsString → Json N → Option (Members N)
  unfolding entered put find
  set_names cur k [] v = some (put k v cur)
  set_names cur k (k' ∷ ks) v = elim (entered (find cur k)) [
    | none ↦ none
    | some inner ↦ elim (set_names inner k' ks v) [
      | none ↦ none
      | some inner' ↦ some (put k (object inner') cur)
    ]
  ]

  unfoldable pub set : Members N → JsString → Json N → Option (Members N)
  unfolding set_names split_first
  set obj path v = let names = split_first path in set_names obj names.0 names.1 v
