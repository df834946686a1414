-- ===== src/Web/History/Pages.antt =====
-- The pages of HistoryPage.vue.
use ai_api_proxy.Common.{true, ℕ, ◌+◌, ◌-◌, ◌*◌, ◌/◌, ◌≤◌, ◌<◌, List, some, ◌≡◌, refl, arith}
use ai_api_proxy.Common.Numerals.{decimal_inj}
use ai_api_proxy.Common.Strings.{JsString, js, same_string}
use ai_api_proxy.Web.Api.{history_query}
use ai_api_proxy.Web.History.{State, query_fields, query, total_pages}
use ai_api_proxy.Web.Objects.{property}
use ai_api_proxy.Web.Process.{api, awaited, advance}
use ai_api_proxy.Web.Values.{decimal}

-- `query` for page `p` asks at once for these many entries from this one on, counted from 0.
abbrev pub AsksFor : ℕ → State → ℕ → ℕ → ℕ → Type 0
AsksFor now s p offset limit =
    (fields : List (JsString × JsString)) × (awaited (advance (query now p) s).1
      ≡ some (api (history_query fields)))
    × (property fields (js "offset") ≡ some (decimal offset))
    × (property fields (js "limit") ≡ some (decimal limit))

-- The entry, counted from 0, is one of those that a query for page `p` asks for.
abbrev pub IsOnPage : ℕ → State → ℕ → ℕ → Type 0
IsOnPage now s p i =
    (offset : ℕ) × (limit : ℕ) × (1 ≤ p)
    × AsksFor now s p offset limit
    × (offset ≤ i)
    × (i < offset + limit)

query-AsksFor : (now : ℕ) (s : State) (p : ℕ) → AsksFor now s p ((p - 1) * 50) 50
unfolding query advance query_fields property same_string
query-AsksFor now s p = (query_fields now (record s { loading = true }) p, refl, refl, refl)

AsksFor-determined :
    (now : ℕ) (s : State) (p offset limit : ℕ)
    → AsksFor now s p offset limit
    → (offset ≡ (p - 1) * 50) × (limit ≡ 50)
AsksFor-determined now s p offset limit (fields, asked, from, many) =
    let (fields', asked', from', many') = query-AsksFor now s p in
    let same : fields ≡ fields' = cc (asked, asked') in
    let offsets : decimal offset ≡ decimal ((p - 1) * 50) = cc (from, from', same) in
    let limits : decimal limit ≡ decimal 50 = cc (many, many', same) in
    (decimal_inj offset ((p - 1) * 50) offsets, decimal_inj limit 50 limits)

-- An entry stands on a page, and on no other.
page_of : (now : ℕ) (s : State) (i : ℕ) → IsOnPage now s (i / 50 + 1) i
page_of now s i =
    let page : ℕ = i / 50 + 1 in
    ((page - 1) * 50, 50, omega arith, query-AsksFor now s page, omega arith, omega arith)

page_of_unique : (now : ℕ) (s : State) (p i : ℕ) → IsOnPage now s p i → p ≡ i / 50 + 1
page_of_unique now s p i (offset, limit, low, asks, from, below) =
    let (start, many) = AsksFor-determined now s p offset limit asks in
    omega (arith, low, start, many, from, below)

total_pages-filled :
    (now : ℕ) (s : State) (total p : ℕ)
    → 0 < total
    → 1 ≤ p
    → p ≤ total_pages total
    → (i : ℕ) × (i < total) × IsOnPage now s p i
unfolding total_pages
total_pages-filled now s total p some_entry low high = (
  (p - 1) * 50,
  ground arith,
  ((p - 1) * 50, 50, low, query-AsksFor now s p, omega arith, omega arith),
)

total_pages-reach : (total i : ℕ) → i < total → i / 50 + 1 ≤ total_pages total
unfolding total_pages
total_pages-reach total i h = ground arith

total_pages-none : total_pages 0 ≡ 1
unfolding total_pages
total_pages-none = refl

-- The pages are those that a query asks for by its offset and its limit. Each entry is on exactly one
-- page, which is one of those that can be chosen; each page that can be chosen, if there are entries,
-- has one, so no page at the end is empty; and one page can be chosen if there are none.
pub total_pages-cover :
    (now : ℕ) (s : State) (total i p : ℕ)
    → i < total
    → 1 ≤ p
    → p ≤ total_pages total
    → ((q : ℕ) × IsOnPage now s q i
        × (q ≤ total_pages total)
        × ((r : ℕ) → IsOnPage now s r i → r ≡ q))
      × ((j : ℕ) × (j < total) × IsOnPage now s p j)
      × (total_pages 0 ≡ 1)
total_pages-cover now s total i p h low high = (
  (i / 50 + 1, page_of now s i, total_pages-reach total i h, λ r on. page_of_unique now s r i on),
  total_pages-filled now s total p (omega (arith, h)) low high,
  total_pages-none,
)
