-- ===== src/Web/Monitor/Sums.antt =====
-- The tables of the monitor against the rows that they are made of.
use ai_api_proxy.Common.{
  ℕ, ◌+◌, ◌≤◌, List, [], ◌∷◌, false, All, leb, if◌then◌else◌, ◌≡◌, refl, ap, ◌∙◌, arith, Bool-cases,
  inl, inr,
}
use ai_api_proxy.Common.Strings.{JsString, same_string, same_string_iff}
use ai_api_proxy.Web.Monitor.{
  Counters, no_counts, merge, add_counters, add_all, Pick, picked, add_rows, insert_sorted,
  sort_counters, aggregate_dimension,
}
use ai_api_proxy.Web.Types.{UpstreamCounters, MetricsSeriesRow}

-- A figure that is added up: the requests or the errors.
pub data Figure : Type 0 where
  requests errors : Figure

abbrev pub figure_of : Figure → UpstreamCounters → ℕ
figure_of requests c = c.requests
figure_of errors c = c.errors

module _ (figure : Figure) (name : JsString) where
  -- The figure of a name in a list of counters, and in all rows.
  unfoldable pub total_for : Counters → ℕ
  total_for [] = 0
  total_for ((k, c) ∷ cs) =
      let rest = total_for cs in if same_string k name then figure_of figure c + rest else rest

  unfoldable pub total_in_rows : Pick → List MetricsSeriesRow → ℕ
  unfolding total_for
  total_in_rows pick [] = 0
  total_in_rows pick (row ∷ rows) = total_for (picked pick row) + total_in_rows pick rows

  figure_of-merge :
      (a b : UpstreamCounters)
      → figure_of figure (merge a b) ≡ figure_of figure a + figure_of figure b
  figure_of-merge a b =
      elim figure as (λ f. figure_of f (merge a b) ≡ figure_of f a + figure_of f b) [
        | requests ↦ refl
        | errors ↦ refl
      ]

  figure_of-no_counts : figure_of figure no_counts ≡ 0
  figure_of-no_counts = elim figure as (λ f. figure_of f no_counts ≡ 0) [
    | requests ↦ refl
    | errors ↦ refl
  ]

  total_for-add_counters :
      (cs : Counters) (k : JsString) (c : UpstreamCounters)
      → total_for (add_counters cs k c) ≡ total_for cs + total_for ((k, c) ∷ [])
  unfolding total_for add_counters
  total_for-add_counters [] k c = ground (arith, figure_of-merge no_counts c, figure_of-no_counts)
  total_for-add_counters ((j, cur) ∷ cs) k c = elim (Bool-cases (same_string j k)) [
    | inl same ↦
        let equal : same_string j name ≡ same_string k name =
          ap (λ s. same_string s name) ((same_string_iff j k).0 same) in
        rw same (ground (arith, figure_of-merge cur c, equal))
    | inr other ↦ rw other (ground (arith, total_for-add_counters cs k c))
  ]

  total_for-add_all :
      (cs more : Counters) → total_for (add_all cs more) ≡ total_for cs + total_for more
  unfolding total_for add_all
  total_for-add_all cs [] = omega arith
  total_for-add_all cs ((k, c) ∷ more) =
      ground (arith, total_for-add_all (add_counters cs k c) more, total_for-add_counters cs k c)

  total_for-add_rows :
      (pick : Pick) (cs : Counters) (rows : List MetricsSeriesRow)
      → total_for (add_rows pick cs rows) ≡ total_for cs + total_in_rows pick rows
  unfolding add_rows total_in_rows
  total_for-add_rows pick cs [] = omega arith
  total_for-add_rows pick cs (row ∷ rows) = omega (
    arith,
    total_for-add_rows pick (add_all cs (picked pick row)) rows,
    total_for-add_all cs (picked pick row),
  )

  total_for-insert_sorted :
      (x : JsString × UpstreamCounters) (ys : Counters)
      → total_for (insert_sorted x ys) ≡ total_for (x ∷ ys)
  unfolding total_for insert_sorted
  total_for-insert_sorted x [] = refl
  total_for-insert_sorted x (y ∷ ys) = ground (arith, total_for-insert_sorted x ys)

  total_for-sort_counters : (cs : Counters) → total_for (sort_counters cs) ≡ total_for cs
  unfolding sort_counters total_for
  total_for-sort_counters [] = refl
  total_for-sort_counters (x ∷ xs) =
      total_for-insert_sorted x (sort_counters xs)
      ∙ (unfold total_for in ground (arith, total_for-sort_counters xs))

  -- Under each name the table has the sum of the requests, and of the errors, that the rows have
  -- under it.
  pub aggregate_dimension-totals :
      (pick : Pick) (rows : List MetricsSeriesRow)
      → total_for (aggregate_dimension pick rows) ≡ total_in_rows pick rows
  unfolding aggregate_dimension
  aggregate_dimension-totals pick rows =
      let empty : total_for [] ≡ 0 = unfold total_for in refl in
      omega (
        arith,
        total_for-sort_counters (add_rows pick [] rows),
        total_for-add_rows pick [] rows,
        empty,
      )

abbrev Apart : JsString → Counters → Type 0
Apart k cs = All (λ e. same_string e.0 k ≡ false) cs

-- No name is there twice.
abbrev pub IsDistinct : Counters → Type 0
IsDistinct [] = Unit
IsDistinct ((k, c) ∷ cs) = Apart k cs × IsDistinct cs

-- From the most requests to the least.
abbrev pub IsDescending : Counters → Type 0
IsDescending [] = Unit
IsDescending (x ∷ ys) = All (λ y. y.1.requests ≤ x.1.requests) ys × IsDescending ys

same_string_sym : (s t : JsString) → same_string s t ≡ same_string t s
unfolding same_string
same_string_sym [] [] = refl
same_string_sym [] (y ∷ t) = refl
same_string_sym (x ∷ s) [] = refl
same_string_sym (x ∷ s) (y ∷ t) = ground (arith, same_string_sym s t)

add_counters-Apart :
    (j k : JsString) (c : UpstreamCounters) (cs : Counters)
    → same_string k j ≡ false
    → Apart j cs
    → Apart j (add_counters cs k c)
unfolding add_counters
add_counters-Apart j k c [] h a = (h, tt)
add_counters-Apart j k c ((i, cur) ∷ cs) h (a, rest) = elim (Bool-cases (same_string i k)) [
  | inl same ↦ rw same ((a, rest))
  | inr other ↦ rw other ((a, add_counters-Apart j k c cs h rest))
]

add_counters-IsDistinct :
    (cs : Counters) (k : JsString) (c : UpstreamCounters)
    → IsDistinct cs
    → IsDistinct (add_counters cs k c)
unfolding add_counters
add_counters-IsDistinct [] k c d = (tt, tt)
add_counters-IsDistinct ((i, cur) ∷ cs) k c (a, d) = elim (Bool-cases (same_string i k)) [
  | inl same ↦ rw same ((a, d))
  | inr other ↦ rw other (
      (
        add_counters-Apart i k c cs (same_string_sym k i ∙ other) a,
        add_counters-IsDistinct cs k c d,
      ))
]

add_all-IsDistinct : (cs more : Counters) → IsDistinct cs → IsDistinct (add_all cs more)
unfolding add_all
add_all-IsDistinct cs [] d = d
add_all-IsDistinct cs ((k, c) ∷ more) d =
    add_all-IsDistinct (add_counters cs k c) more (add_counters-IsDistinct cs k c d)

add_rows-IsDistinct :
    (pick : Pick) (cs : Counters) (rows : List MetricsSeriesRow)
    → IsDistinct cs
    → IsDistinct (add_rows pick cs rows)
unfolding add_rows
add_rows-IsDistinct pick cs [] d = d
add_rows-IsDistinct pick cs (row ∷ rows) d =
    add_rows-IsDistinct pick (add_all cs (picked pick row)) rows
      (add_all-IsDistinct cs (picked pick row) d)

-- What holds of the first and of the others holds of all, wherever the first is put.
insert_sorted-All :
    (P : JsString × UpstreamCounters → Type 0) (x : JsString × UpstreamCounters) (ys : Counters)
    → P x
    → All P ys
    → All P (insert_sorted x ys)
unfolding insert_sorted
insert_sorted-All P x [] p ps = (p, ps)
insert_sorted-All P x (y ∷ ys) p (q, qs) = elim (Bool-cases (leb y.1.requests x.1.requests)) [
  | inl below ↦ rw below ((p, (q, qs)))
  | inr above ↦ rw above ((q, insert_sorted-All P x ys p qs))
]

insert_sorted-IsDistinct :
    (x : JsString × UpstreamCounters) (ys : Counters)
    → Apart x.0 ys
    → IsDistinct ys
    → IsDistinct (insert_sorted x ys)
unfolding insert_sorted
insert_sorted-IsDistinct x [] a d = (tt, tt)
insert_sorted-IsDistinct x (y ∷ ys) (b, a) (c, d) =
    elim (Bool-cases (leb y.1.requests x.1.requests)) [
      | inl below ↦ rw below (((b, a), (c, d)))
      | inr above ↦ rw above (
          (
            insert_sorted-All (λ e. same_string e.0 y.0 ≡ false) x ys (same_string_sym x.0 y.0 ∙ b)
                c,
            insert_sorted-IsDistinct x ys a d,
          ))
    ]

sort_counters-All :
    (P : JsString × UpstreamCounters → Type 0) (cs : Counters) → All P cs → All P (sort_counters cs)
unfolding sort_counters
sort_counters-All P [] ps = tt
sort_counters-All P (x ∷ xs) (p, ps) =
    insert_sorted-All P x (sort_counters xs) p (sort_counters-All P xs ps)

sort_counters-IsDistinct : (cs : Counters) → IsDistinct cs → IsDistinct (sort_counters cs)
unfolding sort_counters
sort_counters-IsDistinct [] d = tt
sort_counters-IsDistinct (x ∷ xs) (a, d) =
    insert_sorted-IsDistinct x (sort_counters xs)
      (sort_counters-All (λ e. same_string e.0 x.0 ≡ false) xs a) (sort_counters-IsDistinct xs d)

All-le :
    (m n : ℕ) (ys : Counters)
    → m ≤ n
    → All (λ y. y.1.requests ≤ m) ys
    → All (λ y. y.1.requests ≤ n) ys
All-le m n [] h a = tt
All-le m n (y ∷ ys) h (b, a) = (omega arith, All-le m n ys h a)

insert_sorted-IsDescending :
    (x : JsString × UpstreamCounters) (ys : Counters)
    → IsDescending ys
    → IsDescending (insert_sorted x ys)
unfolding insert_sorted
insert_sorted-IsDescending x [] d = (tt, tt)
insert_sorted-IsDescending x (y ∷ ys) (a, d) = elim (Bool-cases (leb y.1.requests x.1.requests)) [
  | inl below ↦
      let small : y.1.requests ≤ x.1.requests = ground arith in
      rw below (((small, All-le y.1.requests x.1.requests ys small a), (a, d)))
  | inr above ↦
      let large : x.1.requests ≤ y.1.requests = ground arith in
      rw above (
        (
          insert_sorted-All (λ e. e.1.requests ≤ y.1.requests) x ys large a,
          insert_sorted-IsDescending x ys d,
        ))
]

sort_counters-IsDescending : (cs : Counters) → IsDescending (sort_counters cs)
unfolding sort_counters
sort_counters-IsDescending [] = tt
sort_counters-IsDescending (x ∷ xs) =
    insert_sorted-IsDescending x (sort_counters xs) (sort_counters-IsDescending xs)

-- The table has no name twice, and goes from the most requests to the least.
pub aggregate_dimension-ordered :
    (pick : Pick) (rows : List MetricsSeriesRow)
    → IsDistinct (aggregate_dimension pick rows) × IsDescending (aggregate_dimension pick rows)
unfolding aggregate_dimension
aggregate_dimension-ordered pick rows =
    let merged = add_rows pick [] rows in
    (
      sort_counters-IsDistinct merged (add_rows-IsDistinct pick [] rows tt),
      sort_counters-IsDescending merged,
    )
