-- ===== src/Web/Keys/Names.antt =====
-- The name that KeysPanel.vue proposes for a new key.
use ai_api_proxy.Common.{
  ℕ, zero, suc, ◌+◌, ◌<◌, ◌≤◌, List, [], ◌∷◌, true, false, if◌then◌else◌, length, drop, some, subst,
  ◌≡◌, refl, ap, arith, Bool-cases, inl, inr,
}
use ai_api_proxy.Common.Strings.{JsString, same_string, same_string_iff}
use ai_api_proxy.Common.Numerals.{decimal_inj}
use ai_api_proxy.Web.Keys.{has_id, key_name, free_from, next_key_name}
use ai_api_proxy.Web.Types
use ai_api_proxy.Web.Values.{decimal}

-- Two numbers have two names.
key_name_inj : (i j : ℕ) → same_string (key_name i) (key_name j) ≡ true → i ≡ j
unfolding key_name
key_name_inj i j h =
    let equal : decimal i ≡ decimal j =
      ap (drop 4) ((same_string_iff (key_name i) (key_name j)).0 h) in
    decimal_inj i j equal

-- How many of the names `lo`, …, `lo + n - 1` the text `id` is.
hits : JsString → ℕ → ℕ → ℕ
hits id lo zero = 0
hits id lo (suc n) =
    let rest = hits id (lo + 1) n in if same_string id (key_name lo) then 1 + rest else rest

-- No name below the first is hit.
hits-past : (id : JsString) (k lo n : ℕ) → id ≡ key_name k → k < lo → hits id lo n ≡ 0
unfolding hits
hits-past id k lo zero e h = refl
hits-past id k lo (suc n) e h = elim (Bool-cases (same_string id (key_name lo))) [
  | inl same ↦
      let equal : k ≡ lo =
        key_name_inj k lo (subst (λ s. same_string s (key_name lo) ≡ true) e same) in
      omega arith
  | inr other ↦ rw other (hits-past id k (lo + 1) n e (omega arith))
]

hits-once : (id : JsString) (lo n : ℕ) → hits id lo n ≤ 1
unfolding hits
hits-once id lo zero = omega arith
hits-once id lo (suc n) = elim (Bool-cases (same_string id (key_name lo))) [
  | inl same ↦
      let none : hits id (lo + 1) n ≡ 0 =
        hits-past id lo (lo + 1) n ((same_string_iff id (key_name lo)).0 same) (omega arith) in
      rw (same, none) (omega arith)
  | inr other ↦ rw other (hits-once id (lo + 1) n)
]

-- The hits of all rows.
all_hits : List Types.KeyRow → ℕ → ℕ → ℕ
all_hits [] lo n = 0
all_hits (row ∷ rows) lo n = hits row.id lo n + all_hits rows lo n

all_hits-le : (rows : List Types.KeyRow) (lo n : ℕ) → all_hits rows lo n ≤ length rows
unfolding all_hits
all_hits-le [] lo n = omega arith
all_hits-le (row ∷ rows) lo n = omega (arith, hits-once row.id lo n, all_hits-le rows lo n)

all_hits-zero : (rows : List Types.KeyRow) (lo : ℕ) → all_hits rows lo 0 ≡ 0
unfolding all_hits hits
all_hits-zero [] lo = refl
all_hits-zero (row ∷ rows) lo = omega (arith, all_hits-zero rows lo)

all_hits-suc :
    (rows : List Types.KeyRow) (lo n : ℕ) → all_hits rows (lo + 1) n ≤ all_hits rows lo (suc n)
unfolding all_hits hits
all_hits-suc [] lo n = omega arith
all_hits-suc (row ∷ rows) lo n = ground (arith, all_hits-suc rows lo n)

all_hits-taken :
    (rows : List Types.KeyRow) (lo n : ℕ)
    → has_id rows (key_name lo) ≡ true
    → all_hits rows (lo + 1) n < all_hits rows lo (suc n)
unfolding all_hits hits has_id
all_hits-taken [] lo n h = ground arith
all_hits-taken (row ∷ rows) lo n h =
    ground (arith, all_hits-suc rows lo n, all_hits-taken rows lo n)

-- What the loop finds: the first name from `lo` on that no row has.
abbrev pub IsFirstFree : List Types.KeyRow → ℕ → ℕ → Type 0
IsFirstFree rows lo k =
    (has_id rows (key_name (lo + k)) ≡ false)
    × ((j : ℕ) → j < k → has_id rows (key_name (lo + j)) ≡ true)

free_from_lem :
    (rounds : ℕ) (rows : List Types.KeyRow) (lo : ℕ)
    → all_hits rows lo rounds < rounds
    → (k : ℕ) × (free_from rounds rows lo ≡ some (key_name (lo + k))) × IsFirstFree rows lo k
unfolding free_from
free_from_lem zero rows lo h = let impossible : ⊥ = omega arith in elim impossible [ ]
free_from_lem (suc rounds) rows lo h = elim (Bool-cases (has_id rows (key_name lo))) [
  | inr free ↦
      let same : lo + 0 ≡ lo = omega arith in
      (
        0,
        rw (free, same) refl,
        (rw same free, λ j below. let impossible : ⊥ = omega arith in elim impossible [ ]),
      )
  | inl taken ↦
      let room : all_hits rows (lo + 1) rounds < rounds =
        omega (arith, all_hits-taken rows lo rounds taken) in
      let found = free_from_lem rounds rows (lo + 1) room in
      let next : (j : ℕ) → lo + 1 + j ≡ lo + (suc j) = λ j. omega arith in
      (
        suc found.0,
        rw taken (
            subst (λ i. free_from rounds rows (lo + 1) ≡ some (key_name i)) (next found.0) found.1),
        (
          subst (λ i. has_id rows (key_name i) ≡ false) (next found.0) found.2.0,
          taken_before rows lo found.0 taken found.2.1,
        ),
      )
]
  where
    taken_before :
        (rows : List Types.KeyRow) (lo k : ℕ)
        → has_id rows (key_name lo) ≡ true
        → ((j : ℕ) → j < k → has_id rows (key_name (lo + 1 + j)) ≡ true)
        → (j : ℕ) → j < suc k
        → has_id rows (key_name (lo + j)) ≡ true
    taken_before rows lo k h hs zero below = let same : lo + 0 ≡ lo = omega arith in rw same h
    taken_before rows lo k h hs (suc j) below =
        let same : lo + suc j ≡ lo + 1 + j = omega arith in rw same (hs j (omega arith))

-- The loop of the proposal ends: its result is the first of the names `key-i`, with `i` from one
-- more than the number of keys on, that no key has.
pub next_key_name_lem :
    (rows : List Types.KeyRow)
    → (k : ℕ) × (next_key_name rows ≡ some (key_name (length rows + 1 + k)))
      × IsFirstFree rows (length rows + 1) k
unfolding next_key_name
next_key_name_lem rows =
    free_from_lem (suc (length rows)) rows (length rows + 1)
      (omega (arith, all_hits-le rows (length rows + 1) (suc (length rows))))
