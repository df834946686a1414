-- ===== src/Web/History/Columns.antt =====
-- The columns of HistoryPage.vue.
use ai_api_proxy.Common.{List, [], ◌∷◌, ◌++◌, if◌then◌else◌, none, some}
use ai_api_proxy.Common.Strings.{js}
use ai_api_proxy.Web.Cells.{
  text, Node, characters, element, nothing, node, no_slots, slot, Column, plain, with_tooltip,
  rendered, one, shown, default_text, tag, apart,
}
use ai_api_proxy.Web.Types
use ai_api_proxy.Web.Values.{Engine, decimal}
use ai_api_proxy.Web.History.{State, status_type}

unfoldable pub path_cell : Types.HistoryEntry → Node State
path_cell row = element (js "span") [] (
    slot (js "default")
      (node (characters row.path) (
        if row.stream
        then one (
            element (js "NTag") (text (js "size") (js "tiny") ∷ apart ∷ [])
              (default_text (js "流式")))
        else nothing))
      no_slots)

unfoldable pub columns : Engine → List (Column State Types.HistoryEntry)
unfolding path_cell status_type decimal
columns engine =
    rendered (js "时间") (js "ts") (some 165) (λ row. shown (engine.locale_time row.ts))
    ∷ with_tooltip (plain (js "模型") (js "model") (some 150))
    ∷ with_tooltip (plain (js "上游") (js "upstream") (some 140))
    ∷ with_tooltip (plain (js "目标") (js "target") (some 140))
    ∷ rendered (js "状态") (js "status") (some 80)
        (λ row. one (tag (js "small") (status_type row.status) (decimal row.status)))
    ∷ rendered (js "耗时") (js "duration_ms") (some 85)
        (λ row. shown (decimal row.duration_ms ++ js "ms"))
    ∷ with_tooltip (rendered (js "路径") (js "path") none (λ row. one (path_cell row)))
    ∷ []
