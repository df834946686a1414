-- ===== src/Sdk/Paths/Laws.antt =====
-- What `get` reads behind a `set`.
use ai_api_proxy.Common.{
  ◌≢◌, ◌⊎◌, ◌++◌, List, [], ◌∷◌, true, false, Option, none, some, ◌≡◌, refl, sym, ap, ◌∙◌,
  Option-cases, Bool-cases, inl, inr,
}
use ai_api_proxy.Common.Strings.{JsString, same_string, same_string_iff}
use ai_api_proxy.Json.{
  Json, Items, Members, null, boolean, number, string, array, object, end, find,
}
use ai_api_proxy.Sdk.Objects.{put}
use ai_api_proxy.Sdk.Objects.Merged.{find-put}
use ai_api_proxy.Sdk.Paths.{split_first, step, get_names, get, entered, set_names, set}

module _ {N : Type 0} (element : Json N → JsString → Option (Json N)) where
  find-put-same : (ms : Members N) (k : JsString) (v : Json N) → find (put k v ms) k ≡ some v
  find-put-same ms k v = find-put ms k k v ∙ rw ((same_string_iff k k).1 refl) refl

  step-object : (ms : Members N) (k : JsString) → step element (some (object ms)) k ≡ find ms k
  unfolding step
  step-object ms k = refl

  get_names-set_names :
      (cur : Members N) (k : JsString) (ks : List JsString) (v : Json N) {out : Members N}
      → set_names cur k ks v ≡ some out
      → get_names element (some (object out)) (k ∷ ks) ≡ some v
  unfolding set_names get_names
  get_names-set_names cur k [] v {out} e =
      let same : put k v cur ≡ out = cc e in
      step-object out k ∙ ap (λ o. find o k) (sym same) ∙ find-put-same cur k v
  get_names-set_names cur k (k' ∷ ks) v {out} e = elim (Option-cases (entered (find cur k))) [
    | inl blocked ↦ let stops : none ≡ some out = rw (blocked, set_names) at e in cc stops
    | inr (inner, there) ↦ elim (Option-cases (set_names inner k' ks v)) [
      | inl failed ↦ let stops : none ≡ some out = rw (there, failed, set_names) at e in cc stops
      | inr (inner', done) ↦
          let whole : some (put k (object inner') cur) ≡ some out =
            rw (there, done, set_names) at e in
          let same : put k (object inner') cur ≡ out = cc whole in
          let inside : step element (some (object out)) k ≡ some (object inner') =
            step-object out k
            ∙ ap (λ o. find o k) (sym same)
            ∙ find-put-same cur k (object inner') in
          ap (λ o. get_names element o (k' ∷ ks)) inside ∙ get_names-set_names inner k' ks v done
    ]
  ]

  -- A name of the object that is not the first of the path keeps its value.
  set_names-other :
      (cur : Members N) (k : JsString) (ks : List JsString) (v : Json N) (name : JsString)
      {out : Members N}
      → same_string k name ≡ false
      → set_names cur k ks v ≡ some out
      → find out name ≡ find cur name
  unfolding set_names
  set_names-other cur k [] v name {out} ne e =
      let same : put k v cur ≡ out = cc e in
      ap (λ o. find o name) (sym same) ∙ find-put cur k name v ∙ rw ne refl
  set_names-other cur k (k' ∷ ks) v name {out} ne e = elim (Option-cases (entered (find cur k))) [
    | inl blocked ↦ let stops : none ≡ some out = rw (blocked, set_names) at e in cc stops
    | inr (inner, there) ↦ elim (Option-cases (set_names inner k' ks v)) [
      | inl failed ↦ let stops : none ≡ some out = rw (there, failed, set_names) at e in cc stops
      | inr (inner', done) ↦
          let whole : some (put k (object inner') cur) ≡ some out =
            rw (there, done, set_names) at e in
          let same : put k (object inner') cur ≡ out = cc whole in
          ap (λ o. find o name) (sym same) ∙ find-put cur k name (object inner') ∙ rw ne refl
    ]
  ]

  first_or_kept :
      (cur : Members N) (k : JsString) (ks : List JsString) (v : Json N) (name : JsString)
      {out : Members N}
      → set_names cur k ks v ≡ some out
      → (same_string k name ≡ true) ⊎ (find out name ≡ find cur name)
  first_or_kept cur k ks v name e = elim (Bool-cases (same_string k name)) [
    | inl same ↦ inl same
    | inr other ↦ inr (set_names-other cur k ks v name other e)
  ]

  entered-none : (o : Option (Json N)) → entered o ≡ none → (xs : Items N) × (o ≡ some (array xs))
  unfolding entered
  entered-none (some (array xs)) e = (xs, refl)
  entered-none (some (object ms)) e = absurd (cc e)
  entered-none (some null) e = absurd (cc e)
  entered-none (some (boolean b)) e = absurd (cc e)
  entered-none (some (number n)) e = absurd (cc e)
  entered-none (some (string s)) e = absurd (cc e)
  entered-none none e = absurd (cc e)

  entered-some :
      (o : Option (Json N)) {inner : Members N}
      → entered o ≡ some inner
      → (o ≡ some (object inner)) ⊎ (inner ≡ end)
  unfolding entered
  entered-some (some (object ms)) e = inl (cc e)
  entered-some (some (array xs)) e = absurd (cc e)
  entered-some (some null) e = inr (cc e)
  entered-some (some (boolean b)) e = inr (cc e)
  entered-some (some (number n)) e = inr (cc e)
  entered-some (some (string s)) e = inr (cc e)
  entered-some none e = inr (cc e)

  get_names-missing : (ks : List JsString) → get_names element none ks ≡ none
  unfolding get_names step
  get_names-missing [] = refl
  get_names-missing (k ∷ ks) = get_names-missing ks

  get_names-empty :
      (ks : List JsString) (xs : Items N)
      → get_names element (some (object end)) ks ≢ some (array xs)
  unfolding get_names step find
  get_names-empty [] xs e = cc e
  get_names-empty (k ∷ ks) xs e = let missing = get_names-missing ks in cc (missing, e)

  -- A first part of the names, but not all of them, leads to an array.
  abbrev pub LeadsThroughArray : Members N → List JsString → Type 0
  LeadsThroughArray cur ks =
      (taken : List JsString) × (next : JsString) × (left : List JsString) × (xs : Items N) × (ks
        ≡ taken ++ next ∷ left)
      × (get_names element (some (object cur)) taken ≡ some (array xs))

  deeper :
      (cur inner : Members N) (k : JsString) (ks : List JsString)
      → entered (find cur k) ≡ some inner
      → LeadsThroughArray inner ks
      → LeadsThroughArray cur (k ∷ ks)
  unfolding get_names
  deeper cur inner k ks there (taken, next, left, xs, cut, stops) =
      elim (entered-some (find cur k) there) [
        | inl here ↦ (
          k ∷ taken,
          next,
          left,
          xs,
          ap (λ l. k ∷ l) cut,
          ap (λ o. get_names element o taken) (step-object cur k ∙ here) ∙ stops,
        )
        | inr nothing ↦ absurd (
            get_names-empty taken xs
              (ap (λ m. get_names element (some (object m)) taken) (sym nothing) ∙ stops))
      ]

  set_names-some :
      (cur : Members N) (k : JsString) (ks : List JsString) (v : Json N)
      → LeadsThroughArray cur (k ∷ ks) ⊎ ((out : Members N) × (set_names cur k ks v ≡ some out))
  unfolding set_names get_names
  set_names-some cur k [] v = inr (put k v cur, refl)
  set_names-some cur k (k' ∷ ks) v = elim (Option-cases (entered (find cur k))) [
    | inl blocked ↦
        let found = entered-none (find cur k) blocked in
        inl (k ∷ [], k', ks, found.0, refl, step-object cur k ∙ found.1)
    | inr (inner, there) ↦ elim (set_names-some inner k' ks v) [
      | inl blocked ↦ inl (deeper cur inner k (k' ∷ ks) there blocked)
      | inr (inner', done) ↦ inr (put k (object inner') cur, rw (there, done, set_names) refl)
    ]
  ]

  -- `set` puts the value where `get` of the same path reads it, whatever stood there and on the way,
  -- and keeps all names of the object but the first of the path; unless an array stands on the way,
  -- in front of the last name, to which JavaScript adds a property that the model's values have not.
  pub get-set :
      (obj : Members N) (path name : JsString) (v : Json N)
      → LeadsThroughArray obj ((split_first path).0 ∷ (split_first path).1)
        ⊎ ((out : Members N) × (set obj path v ≡ some out)
            × (get element (object out) path ≡ some v)
            × ((same_string (split_first path).0 name ≡ true) ⊎ (find out name ≡ find obj name)))
  unfolding get set
  get-set obj path name v =
      let k = (split_first path).0 in
      let ks = (split_first path).1 in
      elim (set_names-some obj k ks v) [
        | inl blocked ↦ inl blocked
        | inr (out, done) ↦
            inr (out, done, get_names-set_names obj k ks v done, first_or_kept obj k ks v name done)
      ]
