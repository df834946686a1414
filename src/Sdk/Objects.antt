-- ===== src/Sdk/Objects.antt =====
-- `deepMerge`, `pick`, `omit`, `mockCtx` and the declarations of `setting`, on objects whose names
-- are not those of `Object.prototype` and are no indices.
pub mod Merged
use ai_api_proxy.Common.{List, [], ◌∷◌, Bool, true, false, ◌||◌, if◌then◌else◌, Option, none, some}
use ai_api_proxy.Common.Strings.{JsString, js, same_string}
use ai_api_proxy.Json.{Json, Members, string, object, field, end, find, to_members, boolean}

module _ {N : Type 0} where
  -- `o[key] = v`
  unfoldable pub put : JsString → Json N → Members N → Members N
  put key v end = field key v end
  put key v (field k w ms) =
      let rest = put key v ms in if same_string k key then field k v ms else field k w rest

  -- `delete o[key]`
  unfoldable pub remove : JsString → Members N → Members N
  remove key end = end
  remove key (field k w ms) =
      let rest = remove key ms in if same_string k key then rest else field k w rest

  unfoldable mutual
    unfolding put find

    -- The loop of `deepMerge` on the names of `b`.
    pub deep_merge : Members N → Members N → Members N
    deep_merge out end = out
    deep_merge out (field k bv b) = deep_merge (put k (merge_value (find out k) bv) out) b

    pub merge_value : Option (Json N) → Json N → Json N
    merge_value (some (object av)) (object bv) = object (deep_merge av bv)
    merge_value av bv = bv

  -- `pick`
  unfoldable pub pick_onto : Members N → Members N → List JsString → Members N
  unfolding put find
  pick_onto obj out [] = out
  pick_onto obj out (k ∷ ks) = elim (find obj k) [
    | none ↦ pick_onto obj out ks
    | some v ↦ pick_onto obj (put k v out) ks
  ]

  unfoldable pub pick : Members N → List JsString → Members N
  unfolding pick_onto
  pick obj keys = pick_onto obj end keys

  -- `omit`
  unfoldable pub omit : Members N → List JsString → Members N
  unfolding remove
  omit out [] = out
  omit out (k ∷ ks) = omit (remove k out) ks

  -- `Object.assign(o, over)`, where undefined is `none`
  unfoldable pub assign : Members N → Members N → Members N
  unfolding put
  assign out end = out
  assign out (field k v over) = assign (put k v out) over

  -- `setting.string` and the others
  unfoldable pub declare : JsString → Members N → Members N
  unfolding assign
  declare type opts = assign (field (js "type") (string type) end) opts

  unfoldable pub mock_ctx : Members N → Members N
  unfolding assign to_members
  mock_ctx over =
      assign
        (to_members (
          (js "requestId", string (js "test-req"))
          ∷ (js "upstream", object (field (js "name") (string (js "test-model")) end))
          ∷ (js "state", object end)
          ∷ (
            js "vars",
            object (
                field (js "model") (string (js "test-model"))
                  (field (js "entryStream") (boolean false) end)),
          )
          ∷ []))
        over
