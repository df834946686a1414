-- ===== src/Web/Transports/Columns.antt =====
-- The columns of TransportsPage.vue.
use ai_api_proxy.Common.{List, [], ◌∷◌, true, none, some}
use ai_api_proxy.Common.Strings.{js}
use ai_api_proxy.Web.Cells.{
  text, flag, element, node, Column, plain, with_tooltip, rendered, one, default_text, icon_slot,
  on_click, small, apart,
}
use ai_api_proxy.Web.Types
use ai_api_proxy.Web.Transports.{State, test_transport, open_evict}

unfoldable pub columns : List (Column State Types.Transport)
unfolding test_transport open_evict
columns =
    plain (js "名称") (js "name") (some 160)
    ∷ with_tooltip (plain (js "地址") (js "url") none)
    ∷ rendered (js "操作") (js "actions") (some 210) (λ row.
      node
        (element (js "NButton") (small ∷ on_click (test_transport row.name) ∷ [])
          (icon_slot (js "PulseOutline") (default_text (js "测试连通"))))
        (one (
          element (js "NButton")
            (small
              ∷ flag (js "quaternary") true
              ∷ text (js "type") (js "warning")
              ∷ apart
              ∷ on_click (open_evict row)
              ∷ [])
            (default_text (js "失效命令")))))
    ∷ []
