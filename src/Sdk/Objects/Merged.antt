-- ===== src/Sdk/Objects/Merged.antt =====
-- What the functions on objects make of each name.
use ai_api_proxy.Common.{
  List, [], ◌∷◌, Bool, false, ◌||◌, if◌then◌else◌, Option, none, some, ◌≡◌, refl, ap, subst, sym,
  ◌∙◌, arith, Bool-cases, Option-cases, inl, inr,
}
use ai_api_proxy.Common.Strings.{
  JsString, same_string, same_string_iff, same_string_trans, same_string_apart,
}
use ai_api_proxy.Json.{
  string, object, null, boolean, number, array, Json, Members, field, end, find,
}
use ai_api_proxy.Sdk.Objects.{put, remove, deep_merge, merge_value, pick_onto, pick, omit, assign}

-- Is the name one of the list?
unfoldable pub listed : List JsString → JsString → Bool
listed [] name = false
listed (k ∷ ks) name = same_string k name || listed ks name

module _ {N : Type 0} where
  pub find-put :
      (ms : Members N) (key name : JsString) (v : Json N)
      → find (put key v ms) name ≡ (if same_string key name then some v else find ms name)
  unfolding find put
  find-put end key name v = ground arith
  find-put (field k w ms) key name v = elim (Bool-cases (same_string k key)) [
    | inl same ↦ ground (arith, same_string_trans k key name same)
    | inr other ↦ ground (arith, find-put ms key name v, same_string_apart k key name other)
  ]

  pub find-remove :
      (ms : Members N) (key name : JsString)
      → find (remove key ms) name ≡ (if same_string key name then none else find ms name)
  unfolding find remove
  find-remove end key name = ground arith
  find-remove (field k w ms) key name = elim (Bool-cases (same_string k key)) [
    | inl same ↦ ground (arith, find-remove ms key name, same_string_trans k key name same)
    | inr other ↦ ground (arith, find-remove ms key name, same_string_apart k key name other)
  ]

  -- No name is there twice.
  abbrev pub IsSimple : Members N → Type 0
  IsSimple end = Unit
  IsSimple (field k v ms) = (find ms k ≡ none) × IsSimple ms

  -- What a merge has under a name: two objects are merged themselves, and else the second value
  -- stands for the first.
  abbrev pub merged : Option (Json N) → Option (Json N) → Option (Json N)
  merged (some (object av)) (some (object bv)) = some (object (deep_merge av bv))
  merged av (some bv) = some bv
  merged av none = av

  merged-none : (av : Option (Json N)) → merged av none ≡ av
  merged-none none = refl
  merged-none (some null) = refl
  merged-none (some (boolean b)) = refl
  merged-none (some (number n)) = refl
  merged-none (some (string s)) = refl
  merged-none (some (array xs)) = refl
  merged-none (some (object ms)) = refl

  merged-some :
      (av : Option (Json N)) (bv : Json N) → merged av (some bv) ≡ some (merge_value av bv)
  unfolding merge_value
  merged-some none bv = refl
  merged-some (some null) bv = refl
  merged-some (some (boolean b)) bv = refl
  merged-some (some (number n)) bv = refl
  merged-some (some (string s)) bv = refl
  merged-some (some (array xs)) bv = refl
  merged-some (some (object av)) (object bv) = refl
  merged-some (some (object av)) (array xs) = refl
  merged-some (some (object av)) (string s) = refl
  merged-some (some (object av)) (number n) = refl
  merged-some (some (object av)) (boolean b) = refl
  merged-some (some (object av)) null = refl

  -- Under each name, `deepMerge` has the merge of the two values if both are objects, and else the
  -- value of `b`, or if `b` has none, that of `a`. No name is twice in `b`.
  pub find-deep_merge :
      (a b : Members N) (name : JsString)
      → IsSimple b
      → find (deep_merge a b) name ≡ merged (find a name) (find b name)
  unfolding deep_merge find
  find-deep_merge a end name h = sym (merged-none (find a name))
  find-deep_merge a (field k bv b) name (once, h) =
      let v = merge_value (find a k) bv in
      let later = find-deep_merge (put k v a) b name h in
      elim (Bool-cases (same_string k name)) [
        | inl same ↦
            let e : k ≡ name = (same_string_iff k name).0 same in
            let gone : find b name ≡ none = subst (λ n. find b n ≡ none) e once in
            let put_there : find (put k v a) name ≡ some v = find-put a k name v ∙ rw same refl in
            rw same (
              later
              ∙ ap (merged (find (put k v a) name)) gone
              ∙ merged-none (find (put k v a) name)
              ∙ put_there
              ∙ ap (λ n. some (merge_value (find a n) bv)) e
              ∙ sym (merged-some (find a name) bv))
        | inr other ↦
            rw other
              (later ∙ ap (λ o. merged o (find b name)) (find-put a k name v ∙ rw other refl))
      ]

  -- A value, or else another.
  abbrev pub prefer : Option (Json N) → Option (Json N) → Option (Json N)
  prefer none other = other
  prefer (some v) other = some v

  find-pick_onto :
      (obj out : Members N) (ks : List JsString) (name : JsString)
      → find (pick_onto obj out ks) name
        ≡ (if listed ks name then prefer (find obj name) (find out name) else find out name)
  unfolding pick_onto listed
  find-pick_onto obj out [] name = refl
  find-pick_onto obj out (k ∷ ks) name = elim (Option-cases (find obj k)) [
    | inl absent ↦
        rw (absent, pick_onto)
          (elim (Bool-cases (same_string k name)) [
            | inl same ↦
                let gone : find obj name ≡ none =
                  subst (λ n. find obj n ≡ none) ((same_string_iff k name).0 same) absent in
                ground (arith, find-pick_onto obj out ks name)
            | inr other ↦ ground (arith, find-pick_onto obj out ks name)
          ])
    | inr (v, there) ↦
        rw (there, pick_onto)
          (elim (Bool-cases (same_string k name)) [
            | inl same ↦
                let found : find obj name ≡ some v =
                  subst (λ n. find obj n ≡ some v) ((same_string_iff k name).0 same) there in
                ground (arith, find-pick_onto obj (put k v out) ks name, find-put out k name v)
            | inr other ↦
                ground (arith, find-pick_onto obj (put k v out) ks name, find-put out k name v)
          ])
  ]

  find-omit :
      (obj : Members N) (ks : List JsString) (name : JsString)
      → find (omit obj ks) name ≡ (if listed ks name then none else find obj name)
  unfolding omit listed
  find-omit obj [] name = refl
  find-omit obj (k ∷ ks) name =
      ground (arith, find-omit (remove k obj) ks name, find-remove obj k name)

  find-end : (name : JsString) → find {N = N} end name ≡ none
  unfolding find
  find-end name = refl

  -- `pick` has the names of the list with the values of the object, and `omit` all others with
  -- theirs: together they are the object.
  find-pick-omit :
      (obj : Members N) (ks : List JsString) (name : JsString)
      → (find (pick obj ks) name ≡ (if listed ks name then find obj name else none))
        × (find (omit obj ks) name ≡ (if listed ks name then none else find obj name))
        × (prefer (find (pick obj ks) name) (find (omit obj ks) name) ≡ find obj name)
  unfolding pick
  find-pick-omit obj ks name =
      ground (arith, find-pick_onto obj end ks name, find-omit obj ks name, find-end name)

  -- `Object.assign` of simple objects has what the second has under a name, or else the first.
  find-assign :
      (out over : Members N) (name : JsString)
      → IsSimple over
      → find (assign out over) name ≡ prefer (find over name) (find out name)
  unfolding assign find
  find-assign out end name h = refl
  find-assign out (field k v over) name (once, h) = elim (Bool-cases (same_string k name)) [
    | inl same ↦
        let gone : find over name ≡ none =
          subst (λ n. find over n ≡ none) ((same_string_iff k name).0 same) once in
        ground (arith, find-assign (put k v out) over name h, find-put out k name v)
    | inr other ↦ ground (arith, find-assign (put k v out) over name h, find-put out k name v)
  ]
