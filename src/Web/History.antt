-- ===== src/Web/History.antt =====
-- web/src/pages/HistoryPage.vue: the recorded requests, filtered and in pages.
pub mod Pages
pub mod Columns
use ai_api_proxy.Common.{
  ℕ, zero, suc, ◌+◌, ◌-◌, ◌*◌, ◌/◌, ◌%◌, List, [], ◌∷◌, ◌++◌, Bool, true, false, ltb, leb, ◌==◌,
  length, if◌then◌else◌, Option, none, some, ok, throws,
}
use ai_api_proxy.Common.Strings.{JsString, js}
use ai_api_proxy.Web.Api.{history_query, history_detail}
use ai_api_proxy.Web.Http.{message_of}
use ai_api_proxy.Web.Process.{
  Process, Handler, api, state, update, perform, done, read, write, return, await, ◌>>◌, ◌>>=◌,
}
use ai_api_proxy.Web.Toasts.{Toast, failure}
use ai_api_proxy.Web.Types
use ai_api_proxy.Web.Values.{Engine, decimal}

abbrev pub page_size : ℕ
page_size = 50

-- `PresetKey`
pub data Preset : Type 0 where
  all last_30m last_1h last_6h last_1d last_7d last_30d custom : Preset

-- `minutes` of the entry of PRESETS
unfoldable pub minutes_of : Preset → Option ℕ
minutes_of all = none
minutes_of last_30m = some 30
minutes_of last_1h = some 60
minutes_of last_6h = some (6 * 60)
minutes_of last_1d = some (24 * 60)
minutes_of last_7d = some (7 * 24 * 60)
minutes_of last_30d = some (30 * 24 * 60)
minutes_of custom = none

pub record State : Type 0 where
  pub toasts : List Toast
  pub preset : Preset
  pub range : Option (ℕ × ℕ)
  pub model_filter : JsString
  pub upstream_filter : JsString
  pub errors_only : Bool
  pub page : ℕ
  pub items : List Types.HistoryEntry
  pub total : ℕ
  pub loading : Bool
  pub detail : Option Types.HistoryEntry
  pub detail_loading : Bool

-- `epochFilter` at the time `now`: `start` and `end`, which are there both or not at all.
unfoldable pub period : ℕ → Preset → Option (ℕ × ℕ) → Option (ℕ × ℕ)
unfolding minutes_of
period now custom range = range
period now preset range = elim (minutes_of preset) [
  | none ↦ none
  | some minutes ↦ some (now - minutes * 60 * 1000, now)
]

unfoldable pub epoch_filter : ℕ → State → Option (ℕ × ℕ)
unfolding period
epoch_filter now s = period now s.preset s.range

-- `if (value) params.set(key, value)`
unfoldable pub filled : JsString → JsString → List (JsString × JsString)
filled key value = if length value == 0 then [] else (key, value) ∷ []

unfoldable pub time_fields : Option (ℕ × ℕ) → List (JsString × JsString)
unfolding decimal
time_fields none = []
time_fields (some (start, stop)) = (js "start", decimal start) ∷ (js "end", decimal stop) ∷ []

-- The parameters of a query for a page, which is 1 at least.
unfoldable pub query_fields : ℕ → State → ℕ → List (JsString × JsString)
unfolding epoch_filter filled time_fields decimal
query_fields now s target =
    ((js "limit", decimal page_size) ∷ (js "offset", decimal ((target - 1) * page_size)) ∷ [])
    ++ (filled (js "model") s.model_filter
        ++ (filled (js "upstream") s.upstream_filter
            ++ ((if s.errors_only then (js "error", js "1") ∷ [] else [])
                ++ time_fields (epoch_filter now s))))

-- `query` at the time `now`
unfoldable pub query : ℕ → ℕ → Handler State
unfolding query_fields
query now target = do
  update (λ s. record s { loading = true })
  s ← state
  reply ← perform (api (history_query (query_fields now s target)))
  (elim reply [
    | ok result ↦
        update (λ s. record s { items = result.items; total = result.total; page = target })
    | throws e ↦
        update (λ s. record s { toasts = s.toasts ++ failure (message_of e (js "查询失败")) ∷ [] })
  ])
  update (λ s. record s { loading = false })

unfoldable pub open_detail : Types.HistoryEntry → Handler State
open_detail row = do
  update (λ s. record s { detail = some row; detail_loading = true })
  reply ← perform (api (history_detail row.id))
  (elim reply [ ok entry ↦ update (λ s. record s { detail = some entry }) | throws e ↦ done ])
  update (λ s. record s { detail_loading = false })

unfoldable pub pretty_body : Engine → Option JsString → JsString
pretty_body engine none = js "(未记录)"
pretty_body engine (some text) =
    if length text == 0
    then js "(未记录)"
    else elim (engine.parse text) [ none ↦ text | some v ↦ engine.stringify_indented v ]

unfoldable pub status_type : ℕ → JsString
status_type status =
    if leb 500 status then js "error" else if leb 400 status then js "warning" else js "success"

-- `Math.max(1, Math.ceil(total.value / PAGE_SIZE))`
unfoldable pub total_pages : ℕ → ℕ
total_pages total = let pages = (total + 49) / 50 in if ltb pages 1 then 1 else pages
