-- ===== src/Web/Types/Metrics.antt =====
-- web/src/services/types.ts: the counters of the monitor.
use ai_api_proxy.Common.{ℕ, List, Option}
use ai_api_proxy.Common.Strings.{JsString}

pub record UpstreamCounters : Type 0 where
  pub requests : ℕ
  pub errors : ℕ
  pub max_concurrent : ℕ

pub record MetricsLive : Type 0 where
  pub active_concurrent : ℕ
  pub total_requests : ℕ
  pub total_errors : ℕ
  pub by_upstream : List (JsString × UpstreamCounters)
  pub by_target : List (JsString × UpstreamCounters)
  pub by_package : List (JsString × UpstreamCounters)

pub record MetricsSeriesRow : Type 0 where
  pub minute : JsString
  pub requests : ℕ
  pub errors : ℕ
  pub max_concurrent : ℕ
  pub by_upstream : Option (List (JsString × UpstreamCounters))
  pub by_target : Option (List (JsString × UpstreamCounters))
  pub by_package : Option (List (JsString × UpstreamCounters))
