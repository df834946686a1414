-- ===== src/Web/Models/Members.antt =====
-- The models of a channel: the dialog that lists, adds, switches and removes them.
use ai_api_proxy.Common.{[], true, false, not, ◌==◌, length, if◌then◌else◌, none, some, ok, throws}
use ai_api_proxy.Common.Strings.{js}
use ai_api_proxy.Web.Api.{groups_create_member, groups_update_member, groups_remove_member}
use ai_api_proxy.Web.Models.State.{State, toast, toast_failure, refetch_groups, refetch_members}
use ai_api_proxy.Web.Process.{Handler, api, state, update, perform, done, ◌>>◌, ◌>>=◌}
use ai_api_proxy.Web.Toasts.{failure}
use ai_api_proxy.Web.Types
use ai_api_proxy.Web.Values.{trim}

-- The refetch is not awaited; the handler ends with its start.
unfoldable pub open_members : Types.ModelGroup → Handler State
open_members row = do
  update (λ s. record s {
    members_group = some row;
    new_member_name = [];
    new_member_enabled = false;
    members_open = true;
  })
  refetch_members

unfoldable pub add_member : Handler State
unfolding trim
add_member = do
  s ← state
  let name = trim s.new_member_name
  (elim s.members_group [
    | none ↦ toast (failure (js "模型名不能为空"))
    | some group ↦ if length name == 0 then toast (failure (js "模型名不能为空")) else do
      reply ← perform (api (groups_create_member group.id name s.new_member_enabled))
      (elim reply [
        | throws e ↦ toast_failure e (js "添加失败")
        | ok answer ↦ do update (λ s. record s { new_member_name = [] }); refetch_members
      ])
  ])

unfoldable pub toggle_member : Types.GroupMember → Handler State
toggle_member member = do
  s ← state
  (elim s.members_group [
    | none ↦ done
    | some group ↦ if s.member_busy then done else do
      update (λ s. record s { member_busy = true })
      reply ←
          perform
            (api (groups_update_member member.id member.group_id member.name (not member.enabled)))
      (elim reply [ throws e ↦ toast_failure e (js "更新失败") | ok answer ↦ refetch_members ])
      update (λ s. record s { member_busy = false })
  ])

unfoldable pub ask_delete_member : Types.GroupMember → Handler State
ask_delete_member row = update (λ s. record s { deleting_member = some row })

unfoldable pub confirm_delete_member : Handler State
confirm_delete_member = do
  s ← state
  (elim s.deleting_member [
    | none ↦ done
    | some member ↦ do
      reply ← perform (api (groups_remove_member member.id))
      (elim reply [
        | throws e ↦ toast_failure e (js "删除失败")
        | ok answer ↦ do
          update (λ s. record s { deleting_member = none })
          refetch_members
          refetch_groups
      ])
  ])
