-- ===== src/Web/Monitor/Columns.antt =====
-- The error rates, the columns and the chart of MonitorPage.vue.
use ai_api_proxy.Common.{
  ℕ, List, [], ◌∷◌, ◌++◌, map, drop, Bool, true, false, ◌==◌, if◌then◌else◌, none, some,
}
use ai_api_proxy.Common.Strings.{JsString, js}
use ai_api_proxy.Web.Cells.{
  element, Column, plain, with_tooltip, with_sorter, rendered, one, shown, default_text, on_click,
  small,
}
use ai_api_proxy.Web.Types
use ai_api_proxy.Web.Values.{Engine, Value, double}
use ai_api_proxy.Json.{boolean, number, string, array, to_object, to_items}
use ai_api_proxy.Web.Monitor.{State, series_of, test_transport}

module _ (engine : Engine) where
  -- `rate.toFixed(1)%`, and 0% of nothing
  unfoldable pub percent : ℕ → ℕ → JsString
  percent errors requests =
      if requests == 0 then js "0%" else engine.fixed_percent errors requests ++ js "%"

  unfoldable pub error_rate : State → JsString
  unfolding percent
  error_rate s = elim s.live_data [
    | none ↦ js "0%"
    | some live ↦ percent live.total_errors live.total_requests
  ]

  abbrev Row : Type 0
  Row = JsString × Types.UpstreamCounters

  unfoldable pub dimension_columns : Bool → List (Column State Row)
  unfolding percent
  dimension_columns with_concurrent =
      (with_tooltip (plain (js "名称") (js "name") none)
        ∷ with_sorter (js "default") (plain (js "请求数") (js "requests") (some 100))
        ∷ plain (js "错误数") (js "errors") (some 100)
        ∷ rendered (js "错误率") (js "errorRate") (some 90)
            (λ row. shown (percent row.1.errors row.1.requests))
        ∷ [])
      ++ (if with_concurrent then plain (js "并发峰值") (js "max_concurrent") (some 100) ∷ [] else [])

module _ (engine : Engine) where
  abbrev count_json : ℕ → Value
  count_json n = number (engine.from_count n)

  abbrev points : (Types.MetricsSeriesRow → ℕ) → State → Value
  points field s = array (to_items (map (λ row. count_json (field row)) (series_of s)))

  abbrev line : JsString → List (JsString × Value) → Value → Value
  line name more values = to_object (
      ((js "name", string name)
        ∷ (js "type", string (js "line"))
        ∷ (js "smooth", boolean true)
        ∷ (js "showSymbol", boolean false)
        ∷ more)
      ++ ((js "data", values) ∷ []))

  -- The double 0.15
  abbrev opacity : Value
  opacity = number (double 0x3fc3333333333333)

  unfoldable pub chart_series : State → Value
  unfolding series_of
  chart_series s = array (
      to_items (
        line (js "请求数") ((js "areaStyle", to_object ((js "opacity", opacity) ∷ [])) ∷ [])
          (points (λ row. row.requests) s)
        ∷ line (js "错误数")
            ((js "itemStyle", to_object ((js "color", string (js "#ef4444")) ∷ [])) ∷ [])
            (points (λ row. row.errors) s)
        ∷ []))

  unfoldable pub chart_axes : State → List (JsString × Value)
  unfolding series_of
  chart_axes s =
      (
        js "xAxis",
        to_object (
            (js "type", string (js "category"))
            ∷ (js "data", array (to_items (map (λ row. string (drop 11 row.minute)) (series_of s))))
            ∷ []),
      )
      ∷ (
        js "yAxis",
        array (
            to_items (
              to_object ((js "type", string (js "value")) ∷ (js "minInterval", count_json 1) ∷ [])
              ∷ [])),
      )
      ∷ []

  unfoldable pub chart_option : State → Value
  unfolding chart_series chart_axes
  chart_option s = to_object (
      ((js "backgroundColor", string (js "transparent"))
        ∷ (js "tooltip", to_object ((js "trigger", string (js "axis")) ∷ []))
        ∷ (
          js "legend",
          to_object
              ((js "data", array (to_items (string (js "请求数") ∷ string (js "错误数") ∷ []))) ∷ []),
        )
        ∷ (
          js "grid",
          to_object (
              (js "left", count_json 48)
              ∷ (js "right", count_json 24)
              ∷ (js "top", count_json 40)
              ∷ (js "bottom", count_json 32)
              ∷ []),
        )
        ∷ chart_axes s)
      ++ ((js "series", chart_series s) ∷ []))

unfoldable pub transport_columns : List (Column State Types.Transport)
unfolding test_transport
transport_columns =
    plain (js "名称") (js "name") (some 160)
    ∷ with_tooltip (plain (js "地址") (js "url") none)
    ∷ rendered (js "操作") (js "actions") (some 110) (λ row. one (
        element (js "NButton") (small ∷ on_click (test_transport row.name) ∷ [])
          (default_text (js "测试连通"))))
    ∷ []
