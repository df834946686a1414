-- ===== src/Web/Subscriptions/Columns.antt =====
-- The columns of SubscriptionsPage.vue.
use ai_api_proxy.Common.{List, [], ◌∷◌, ◌++◌, true, ◌==◌, ltb, length, if◌then◌else◌, none, some}
use ai_api_proxy.Common.Strings.{JsString, js}
use ai_api_proxy.Web.Cells.{
  text, flag, Node, element, Nodes, node, slot, Column, plain, with_tooltip, rendered, one,
  default_text, tag, on_click, small, apart,
}
use ai_api_proxy.Web.Types
use ai_api_proxy.Web.Values.{decimal}
use ai_api_proxy.Web.Subscriptions.{State, has, sync_sub, remove_sub, commit_text, status_text}
use ai_api_proxy.Web.Cells.{listener}

unfoldable pub commit_cell : Types.Subscription → Node State
unfolding commit_text
commit_cell row =
    element (js "span")
      (if length row.last_synced_commit == 0
        then text (js "style") (js "opacity:0.4") ∷ []
        else text (js "class") (js "mono") ∷ [])
      (default_text (commit_text row))

unfoldable pub status_cell : Types.Subscription → Node State
unfolding status_text
status_cell row =
    if length row.last_error == 0
    then element (js "span") (text (js "style") (js "opacity:0.6") ∷ [])
        (default_text (status_text row))
    else tag (js "small") (js "error") (status_text row)

unfoldable pub removal_text : Types.Subscription → JsString
unfolding decimal
removal_text row =
    js "删除订阅 " ++ (row.name ++ (js " 并卸载其导入的 " ++ (decimal row.package_count ++ js " 个包?")))

-- With what `syncing` is when the table is drawn.
unfoldable pub actions_cell : State → Types.Subscription → Nodes State
unfolding has sync_sub remove_sub removal_text
actions_cell s row =
    node
      (element (js "NButton")
        (small ∷ flag (js "loading") (has row.id s.syncing) ∷ on_click (sync_sub row) ∷ [])
        (default_text (js "立即同步")))
      (one (
        element (js "NPopconfirm") (listener (js "onPositiveClick") (remove_sub row) ∷ []) (
          slot (js "trigger")
            (one (
              element (js "NButton")
                (small ∷ flag (js "quaternary") true ∷ text (js "type") (js "error") ∷ apart ∷ [])
                (default_text (js "删除"))))
            (default_text (removal_text row)))))

unfoldable pub columns : State → List (Column State Types.Subscription)
unfolding commit_cell status_cell actions_cell decimal
columns s =
    plain (js "名称") (js "name") (some 140)
    ∷ with_tooltip (plain (js "仓库") (js "repo_url") none)
    ∷ with_tooltip (plain (js "路径") (js "path") (some 130))
    ∷ plain (js "分支") (js "branch") (some 100)
    ∷ rendered (js "commit") (js "last_synced_commit") (some 110) (λ row. one (commit_cell row))
    ∷ rendered (js "包数") (js "package_count") (some 70) (λ row. one (
        tag (js "small") (if ltb 0 row.package_count then js "success" else js "default")
          (decimal row.package_count)))
    ∷ with_tooltip (rendered (js "状态") (js "last_error") (some 160) (λ row. one (status_cell row)))
    ∷ rendered (js "操作") (js "actions") (some 190) (actions_cell s)
    ∷ []
