-- ===== src/Web/Tests/Forms.antt =====
-- The theorems on requests, the session, forms and tables at concrete values.
use ai_api_proxy.Common.{
  ℕ, ◌+◌, ◌≤◌, List, [], ◌∷◌, true, false, All, none, some, Outcome, ok, throws, ◌≡◌, ◌≢◌, ◌↔◌, ◌⊎◌,
  length, refl, arith,
}
use ai_api_proxy.Common.Strings.{JsString, js}
use ai_api_proxy.Json.{string, number}
use ai_api_proxy.Web.Auth.{fresh}
use ai_api_proxy.Web.Auth.Probes.{
  Event, loads, settles, expires, after_all, resets, after_all-probes,
}
use ai_api_proxy.Common.{◌<◌}
use ai_api_proxy.Web.History.{State, last_1h, total_pages}
use ai_api_proxy.Web.History.Pages.{IsOnPage, total_pages-cover}
use ai_api_proxy.Web.Http.{Failure, Response, Browser, receive}
use ai_api_proxy.Web.Http.Laws.{Carries, receive-ok_iff, receive-session}
use ai_api_proxy.Web.Keys.{next_key_name, key_name}
use ai_api_proxy.Web.Keys.Names.{IsFirstFree, next_key_name_lem}
use ai_api_proxy.Web.Monitor.{Pick, aggregate_dimension}
use ai_api_proxy.Web.Monitor.Sums.{
  requests, total_for, total_in_rows, IsDistinct, IsDescending, aggregate_dimension-totals,
  aggregate_dimension-ordered,
}
use ai_api_proxy.Web.Settings.{Draft, coerce_slots}
use ai_api_proxy.Web.Settings.Slots.{IsSaved, Some, IsFromForm, coerce_slots-typed}
use ai_api_proxy.Web.Objects.{Properties, property}
use ai_api_proxy.Web.Tests.Engine.{sample_engine}
use ai_api_proxy.Web.Types
use ai_api_proxy.Web.Values.{Value, double}

abbrev ok_response : Response
ok_response = record {
  status = 200;
  is_ok = true;
  text_body = ok [];
  json_body = ok (string (js "done"));
}

abbrev expired_response : Response
expired_response = record ok_response { status = 401; is_ok = false }

abbrev browser : Browser ℕ
browser = record { session = 7; hash = js "#/models" }

receive-ok_iff_example :
    (receive sample_engine (λ n. 0) (ok ok_response) browser
      ≡ (ok (some (string (js "done"))), browser))
    ↔ (Carries (ok ok_response) (some (string (js "done"))) × (browser ≡ browser))
receive-ok_iff_example =
    receive-ok_iff sample_engine (λ n. 0) (ok ok_response) browser browser
      (some (string (js "done")))

receive-session_example :
    let after_receive = receive sample_engine (λ n. 0) (ok expired_response) browser in
    ((after_receive.1 ≡ browser)
      × ((res : Response)
          → ◌≡◌ {A = Outcome Failure Response} (ok expired_response) (ok res)
          → res.status ≢ 401))
    ⊎ (((res : Response) × (◌≡◌ {A = Outcome Failure Response} (ok expired_response) (ok res))
          × (res.status ≡ 401))
        × (after_receive.1.session ≡ 0)
        × ((e : Failure) × (after_receive.0 ≡ throws e)))
receive-session_example = receive-session sample_engine (λ n. 0) (ok expired_response) browser

abbrev events : List Event
events = loads ∷ loads ∷ settles 0 (ok expired_response) ∷ loads ∷ expires ∷ loads ∷ []

after_all-probes_example : length (after_all events fresh).probes ≤ 1 + resets events
after_all-probes_example = after_all-probes events

test_probes : length (after_all events fresh).probes ≡ 2
unfolding after_all
test_probes = refl

abbrev key_row : JsString → Types.KeyRow
key_row id = record { id = id; «data» = number (double 1); updated_at = 3 }

abbrev key_rows : List Types.KeyRow
key_rows = key_row (js "key-3") ∷ key_row (js "key-7") ∷ []

next_key_name_lem_example :
    (k : ℕ) × (next_key_name key_rows ≡ some (key_name (length key_rows + 1 + k)))
    × IsFirstFree key_rows (length key_rows + 1) k
next_key_name_lem_example = next_key_name_lem key_rows

test_total_pages : total_pages 51 ≡ 2
unfolding total_pages
test_total_pages = refl

abbrev history : State
history = record {
  toasts = [];
  preset = last_1h;
  range = none;
  model_filter = js "gpt";
  upstream_filter = [];
  errors_only = true;
  page = 1;
  items = [];
  total = 51;
  loading = false;
  detail = none;
  detail_loading = false;
}

total_pages-cover_example :
    ((q : ℕ) × IsOnPage 7 history q 50
      × (q ≤ total_pages 51)
      × ((r : ℕ) → IsOnPage 7 history r 50 → r ≡ q))
    × ((j : ℕ) × (j < 51) × IsOnPage 7 history 2 j)
    × (total_pages 0 ≡ 1)
total_pages-cover_example =
    total_pages-cover 7 history 51 50 2 (omega arith) (omega arith)
      (omega (arith, test_total_pages))

abbrev slot : JsString → JsString → Types.SettingsSlot
slot name type = record {
  name = name;
  schema = record {
    type = some type;
    description = none;
    default = none;
    values = none;
    required = none;
  };
  value = string [];
  overridden = false;
}

abbrev draft : Draft
draft = record {
  loaded = true;
  config = (js "retries", string (js "3")) ∷ (js "host", string (js "example.org")) ∷ [];
  tasks = [];
  version = 1;
  slots =
      slot (js "retries") (js "int")
      ∷ slot (js "host") (js "string")
      ∷ slot (js "limit") (js "int")
      ∷ [];
  task_rows = [];
}

abbrev saved : Properties Value
saved = (js "retries", number (double 3)) ∷ (js "host", string (js "example.org")) ∷ []

test_coerce_slots : coerce_slots sample_engine draft ≡ ok saved
unfolding coerce_slots
test_coerce_slots = refl

coerce_slots-typed_example :
    All (λ p. Some (IsFromForm sample_engine draft p) draft.slots) saved
    × All
        (λ s. (v : Value) → IsSaved sample_engine draft.config s v → property saved s.name ≢ none)
        draft.slots
coerce_slots-typed_example = coerce_slots-typed sample_engine draft saved test_coerce_slots

abbrev counts : ℕ → ℕ → Types.UpstreamCounters
counts r e = record { requests = r; errors = e; max_concurrent = 1 }

abbrev series_row : List (JsString × Types.UpstreamCounters) → Types.MetricsSeriesRow
series_row by = record {
  minute = js "2026-01-01 10:00";
  requests = 3;
  errors = 1;
  max_concurrent = 1;
  by_upstream = some by;
  by_target = none;
  by_package = none;
}

abbrev series_rows : List Types.MetricsSeriesRow
series_rows =
    series_row ((js "a", counts 2 1) ∷ (js "b", counts 5 0) ∷ [])
    ∷ series_row ((js "a", counts 9 2) ∷ [])
    ∷ []

abbrev by_upstream : Pick
by_upstream row = row.by_upstream

aggregate_dimension-totals_example :
    total_for requests (js "a") (aggregate_dimension by_upstream series_rows)
    ≡ total_in_rows requests (js "a") by_upstream series_rows
aggregate_dimension-totals_example =
    aggregate_dimension-totals requests (js "a") by_upstream series_rows

aggregate_dimension-ordered_example :
    IsDistinct (aggregate_dimension by_upstream series_rows)
    × IsDescending (aggregate_dimension by_upstream series_rows)
aggregate_dimension-ordered_example = aggregate_dimension-ordered by_upstream series_rows
