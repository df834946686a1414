-- ===== src/Web/Models/Columns.antt =====
-- The columns of the tables of ModelsPage.vue.
use ai_api_proxy.Common.{
  ℕ, List, [], ◌∷◌, ◌++◌, Bool, true, ◌&&◌, ◌==◌, ltb, if◌then◌else◌, Option, none, some,
}
use ai_api_proxy.Common.Strings.{JsString, js, same_string}
use ai_api_proxy.Web.Cells.{
  text, flag, Node, element, Nodes, nothing, node, Slots, no_slots, slot, Column, plain,
  with_tooltip, rendered, one, shown, default_text, icon_slot, tag, on_click, small, apart,
}
use ai_api_proxy.Web.Models.Discovery.{open_discover}
use ai_api_proxy.Web.Models.Groups.{open_edit, run_test, ask_delete, params_without_transport}
use ai_api_proxy.Web.Models.Members.{open_members, toggle_member, ask_delete_member}
use ai_api_proxy.Web.Models.State.{State}
use ai_api_proxy.Web.Models.Tests.{open_chat_test, open_keys_check, verdict_of}
use ai_api_proxy.Web.Process.{Handler}
use ai_api_proxy.Web.Types
use ai_api_proxy.Web.Values.{Engine, decimal}

-- `row.status ? String(row.status) : '-'`
unfoldable pub status_cell : Option ℕ → JsString
unfolding decimal
status_cell none = js "-"
status_cell (some n) = if n == 0 then js "-" else decimal n

unfoldable pub check_columns : List (Column State Types.KeysCheckRow)
unfolding status_cell verdict_of decimal
check_columns =
    with_tooltip (plain (js "键") (js "key") none)
    ∷ rendered (js "判定") (js "verdict") (some 90)
        (λ row. one (tag (js "small") (verdict_of row.verdict).1 (verdict_of row.verdict).0))
    ∷ rendered (js "状态码") (js "status") (some 90) (λ row. shown (status_cell row.status))
    ∷ rendered (js "延迟") (js "latency_ms") (some 100)
        (λ row. shown (decimal row.latency_ms ++ js "ms"))
    ∷ with_tooltip (
        rendered (js "错误") (js "error") none
          (λ row. shown (elim row.error [ none ↦ js "-" | some e ↦ e ])))
    ∷ []

-- The tag of what is enabled or not.
abbrev enabled_tag : Bool → Node State
enabled_tag enabled =
    tag (js "small") (if enabled then js "success" else js "default")
      (if enabled then js "启用" else js "停用")

abbrev small_button : Handler State → Slots State → Node State
small_button h slots = element (js "NButton") (small ∷ on_click h ∷ []) slots

abbrev next_button : Handler State → Slots State → Node State
next_button h slots = element (js "NButton") (small ∷ apart ∷ on_click h ∷ []) slots

abbrev remove_button : Handler State → Node State
remove_button h =
    element (js "NButton")
      (small
        ∷ text (js "type") (js "error")
        ∷ flag (js "quaternary") true
        ∷ apart
        ∷ on_click h
        ∷ [])
      (icon_slot (js "TrashOutline") no_slots)

unfoldable pub member_columns : List (Column State Types.GroupMember)
unfolding toggle_member ask_delete_member
member_columns =
    plain (js "ID") (js "id") (some 70)
    ∷ with_tooltip (plain (js "短名") (js "name") none)
    ∷ rendered (js "状态") (js "enabled") (some 80) (λ row. one (enabled_tag row.enabled))
    ∷ rendered (js "操作") (js "actions") (some 140) (λ row.
      node
        (small_button (toggle_member row) (default_text (if row.enabled then js "停用" else js "启用")))
        (one (remove_button (ask_delete_member row))))
    ∷ []

-- `row.action === 'create'`
abbrev creates : Types.DiscoveryHit → Bool
creates row = same_string row.action (js "create")

unfoldable pub poll_mark : Types.DiscoveryHit → Nodes State
unfolding decimal same_string
poll_mark row =
    if creates row && ltb 1 row.poll_groups
    then one (
        element (js "span")
          (text (js "style") (js "margin-left:6px;color:var(--n-warning-color, #f0a020)") ∷ [])
          (default_text (js "轮询×" ++ decimal row.poll_groups)))
    else nothing

unfoldable pub discover_columns : List (Column State Types.DiscoveryHit)
unfolding poll_mark same_string
discover_columns =
    with_tooltip (plain (js "上游模型名") (js "upstream_name") none)
    ∷ with_tooltip (plain (js "路由模型名") (js "member_name") none)
    ∷ rendered (js "动作") (js "action") (some 200) (λ row. one (
        element (js "span") [] (
          slot (js "default")
            (node
              (tag (js "small") (if creates row then js "success" else js "default")
                (if creates row then js "新建" else js "已存在跳过"))
              (poll_mark row))
            no_slots)))
    ∷ []

unfoldable pub group_buttons : Engine → Types.ModelGroup → Nodes State
unfolding open_members open_discover open_edit run_test open_chat_test open_keys_check ask_delete
group_buttons engine row = node (small_button (open_members row) (default_text (js "模型"))) (
    node (next_button (open_discover row) (icon_slot (js "GitNetworkOutline") no_slots)) (
      node (next_button (open_edit engine row) (default_text (js "编辑"))) (
        node (next_button (run_test row) (icon_slot (js "PlayOutline") no_slots)) (
          node
            (next_button (open_chat_test row) (icon_slot (js "ChatbubbleEllipsesOutline") no_slots))
            (node
              (element (js "NButton")
                (small
                  ∷ apart
                  ∷ text (js "title") (js "key 池逐键检测")
                  ∷ on_click (open_keys_check row)
                  ∷ [])
                (icon_slot (js "ShieldCheckmarkOutline") no_slots))
              (one (remove_button (ask_delete row))))))))

unfoldable pub columns : Engine → List (Column State Types.ModelGroup)
unfolding group_buttons params_without_transport
columns engine =
    plain (js "ID") (js "id") (some 70)
    ∷ with_tooltip (plain (js "渠道标识") (js "prefix") (some 160))
    ∷ plain (js "协议插件") (js "plugin") (some 180)
    ∷ rendered (js "渠道参数") (js "params") none (λ row. one (
        element (js "code") (text (js "class") (js "mono") ∷ [])
          (default_text (params_without_transport engine row.params))))
    ∷ rendered (js "状态") (js "enabled") (some 80) (λ row. one (enabled_tag row.enabled))
    ∷ rendered (js "操作") (js "actions") (some 400) (group_buttons engine)
    ∷ []
