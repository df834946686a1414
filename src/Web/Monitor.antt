-- ===== src/Web/Monitor.antt =====
-- web/src/pages/MonitorPage.vue: the figures of the monitor.
pub mod Sums
pub mod Columns
use ai_api_proxy.Common.{
  ℕ, zero, suc, ◌+◌, ◌*◌, ◌/◌, List, [], ◌∷◌, ◌++◌, map, Bool, true, false, ltb, leb, ◌==◌, length,
  if◌then◌else◌, Option, none, some, ok, throws,
}
use ai_api_proxy.Common.Strings.{JsString, js, same_string}
use ai_api_proxy.Web.Api.{transports_test}
use ai_api_proxy.Web.Http.{message_of}
use ai_api_proxy.Web.Process.{
  Process, Handler, api, refetch_all, state, update, perform, done, read, write, return, await,
  ◌>>◌, ◌>>=◌,
}
use ai_api_proxy.Web.Toasts.{Toast, success, failure}
use ai_api_proxy.Web.Types
use ai_api_proxy.Web.Values.{decimal}

pub record State : Type 0 where
  pub toasts : List Toast
  pub refreshing : Bool
  pub live_data : Option Types.MetricsLive
  pub series_data : Option (List Types.MetricsSeriesRow)
  pub transports_data : Option (List Types.Transport)

unfoldable pub refresh_all : Handler State
refresh_all = do
  update (λ s. record s { refreshing = true })
  perform (refetch_all (js "metrics-live" ∷ js "metrics-series" ∷ js "transports" ∷ []))
  update (λ s. record s { refreshing = false })

unfoldable pub series_of : State → List Types.MetricsSeriesRow
series_of s = elim s.series_data [ none ↦ [] | some rows ↦ rows ]

unfoldable pub current_rpm : State → ℕ
current_rpm s = elim s.live_data [ none ↦ 0 | some live ↦ live.total_requests ]

unfoldable pub sum_requests : List Types.MetricsSeriesRow → ℕ
sum_requests [] = 0
sum_requests (row ∷ rows) = row.requests + sum_requests rows

-- `Math.round(a / b)`, for `b` above 0: half of one is rounded up.
unfoldable pub rounded : ℕ → ℕ → ℕ
rounded a b = (2 * a + b) / (2 * b)

unfoldable pub avg_rpm : State → ℕ
unfolding sum_requests rounded series_of
avg_rpm s =
    let rows = series_of s in
    if length rows == 0 then 0 else rounded (sum_requests rows) (length rows)

abbrev pub larger : ℕ → ℕ → ℕ
larger a b = if ltb a b then b else a

unfoldable pub peak_from : ℕ → List Types.MetricsSeriesRow → ℕ
peak_from peak [] = peak
peak_from peak (row ∷ rows) = peak_from (larger peak row.max_concurrent) rows

unfoldable pub peak_concurrent : State → ℕ
unfolding peak_from series_of
peak_concurrent s = peak_from 0 (series_of s)

-- A map of names to counters in the order of their first insertion.
abbrev pub Counters : Type 0
Counters = List (JsString × Types.UpstreamCounters)

abbrev pub no_counts : Types.UpstreamCounters
no_counts = record { requests = 0; errors = 0; max_concurrent = 0 }

abbrev pub merge : Types.UpstreamCounters → Types.UpstreamCounters → Types.UpstreamCounters
merge a b = record {
  requests = a.requests + b.requests;
  errors = a.errors + b.errors;
  max_concurrent = larger a.max_concurrent b.max_concurrent;
}

-- `merged.set(name, …)` with what `merged.get(name) ?? …` and `c` make
unfoldable pub add_counters : Counters → JsString → Types.UpstreamCounters → Counters
unfolding same_string
add_counters [] name c = (name, merge no_counts c) ∷ []
add_counters ((k, cur) ∷ merged) name c =
    let rest = add_counters merged name c in
    if same_string k name then (k, merge cur c) ∷ merged else (k, cur) ∷ rest

-- The inner and the outer loop of `aggregateDimension`
unfoldable pub add_all : Counters → Counters → Counters
unfolding add_counters
add_all merged [] = merged
add_all merged ((name, c) ∷ more) = add_all (add_counters merged name c) more

abbrev pub Pick : Type 0
Pick = Types.MetricsSeriesRow → Option Counters

abbrev pub picked : Pick → Types.MetricsSeriesRow → Counters
picked pick row = elim (pick row) [ none ↦ [] | some counters ↦ counters ]

unfoldable pub add_rows : Pick → Counters → List Types.MetricsSeriesRow → Counters
unfolding add_all
add_rows pick merged [] = merged
add_rows pick merged (row ∷ rows) = add_rows pick (add_all merged (picked pick row)) rows

-- `sort((a, b) => b.requests - a.requests)`, which is stable
unfoldable pub insert_sorted : (JsString × Types.UpstreamCounters) → Counters → Counters
insert_sorted x [] = x ∷ []
insert_sorted x (y ∷ ys) =
    let rest = insert_sorted x ys in
    if leb y.1.requests x.1.requests then x ∷ (y ∷ ys) else y ∷ rest

unfoldable pub sort_counters : Counters → Counters
unfolding insert_sorted
sort_counters [] = []
sort_counters (x ∷ xs) = insert_sorted x (sort_counters xs)

unfoldable pub aggregate_dimension : Pick → List Types.MetricsSeriesRow → Counters
unfolding add_rows sort_counters
aggregate_dimension pick rows = sort_counters (add_rows pick [] rows)

unfoldable pub test_transport : JsString → Handler State
unfolding decimal
test_transport name = do
  reply ← perform (api (transports_test name))
  let shown : Toast = elim reply [
    | throws e ↦ failure (message_of e (js "测试失败"))
    | ok result ↦
        if result.ok
        then success (name ++ (js " 连通 " ++ (decimal result.latency_ms ++ js "ms")))
        else failure (name ++ (js " 断: " ++ elim result.error [ none ↦ js "未知错误" | some e ↦ e ]))
  ]
  update (λ s. record s { toasts = s.toasts ++ shown ∷ [] })
