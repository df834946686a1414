-- ===== src/Web/Models/Locks.antt =====
-- The busy flags of the page.
use ai_api_proxy.Common.{Bool, true, false, ◌≡◌, [], arith, ◌≤◌}
use ai_api_proxy.Web.Api.{
  groups_chat_test, groups_keys_check, groups_update_member, groups_discover,
}
use ai_api_proxy.Web.Models.Groups.{
  open_create, open_edit, save_edit, run_test, ask_delete, confirm_delete,
}
use ai_api_proxy.Web.Models.Tests.{open_chat_test, run_chat_test, open_keys_check, run_keys_check}
use ai_api_proxy.Web.Models.Members.{
  open_members, add_member, toggle_member, ask_delete_member, confirm_delete_member,
}
use ai_api_proxy.Web.Models.Discovery.{open_discover, run_discover}
use ai_api_proxy.Web.Models.Markup.{Event, on_event}
use ai_api_proxy.Web.Models.State.{State}
use ai_api_proxy.Web.Process.{Page, Reach, Effect, api, Handler, update}
use ai_api_proxy.Web.Process.Locks.Reach.{
  count_guarded, Reach-IsLocked, count-IsLocked, clear_at_rest,
}
use ai_api_proxy.Web.Process.Locks.{
  holders, IsLocked, empty, after_read, after_await, Keeps, Obeys, outside,
}
use ai_api_proxy.Web.Types
use ai_api_proxy.Web.Values.{Engine}

pub data Flag : Type 0 where
  chat_flag check_flag member_flag discover_flag : Flag

abbrev pub flag_of : Flag → State → Bool
flag_of chat_flag s = s.chat_busy
flag_of check_flag s = s.check_busy
flag_of member_flag s = s.member_busy
flag_of discover_flag s = s.discover_busy

abbrev pub guarded_by : Flag → Effect → Bool
guarded_by chat_flag (api (groups_chat_test _ _)) = true
guarded_by check_flag (api (groups_keys_check _ _ _)) = true
guarded_by member_flag (api (groups_update_member _ _ _ _)) = true
guarded_by discover_flag (api (groups_discover _ _ _ _)) = true
guarded_by _ _ = false

abbrev pub KeepsFlag : Flag → Handler State → Type 0
KeepsFlag i p = Keeps (flag_of i) (guarded_by i) p

-- The handlers that the buttons of the page call.
pub data Click : Type 0 where
  create : Click
  edit : Types.ModelGroup → Click
  save : Click
  test : Types.ModelGroup → Click
  delete : Types.ModelGroup → Click
  confirms : Click
  chat_opens : Types.ModelGroup → Click
  chat_runs : Click
  check_opens : Types.ModelGroup → Click
  check_runs : Click
  members_opens : Types.ModelGroup → Click
  member_adds : Click
  member_toggles : Types.GroupMember → Click
  member_deletes : Types.GroupMember → Click
  member_confirms : Click
  discover_opens : Types.ModelGroup → Click
  discover_runs : Bool → Click

-- What happens to the page: clicks in the tables, events of the template, and other inputs, which
-- set no flag, as the arrival of the data of a query.
pub data Action : Type 0 where
  clicks : Click → Action
  events : Event → Action
  inputs : (g : State → State) → ((i : Flag) (s : State) → flag_of i (g s) ≡ flag_of i s) → Action

unfoldable pub handler_of : Engine → Click → Handler State
unfolding open_create open_edit save_edit run_test ask_delete confirm_delete open_chat_test
    run_chat_test open_keys_check run_keys_check open_members add_member toggle_member
    ask_delete_member confirm_delete_member open_discover run_discover
handler_of engine create = open_create
handler_of engine (edit row) = open_edit engine row
handler_of engine save = save_edit engine
handler_of engine (test row) = run_test row
handler_of engine (delete row) = ask_delete row
handler_of engine confirms = confirm_delete
handler_of engine (chat_opens row) = open_chat_test row
handler_of engine chat_runs = run_chat_test engine
handler_of engine (check_opens row) = open_keys_check row
handler_of engine check_runs = run_keys_check
handler_of engine (members_opens row) = open_members row
handler_of engine member_adds = add_member
handler_of engine (member_toggles member) = toggle_member member
handler_of engine (member_deletes member) = ask_delete_member member
handler_of engine member_confirms = confirm_delete_member
handler_of engine (discover_opens row) = open_discover row
handler_of engine (discover_runs apply) = run_discover apply

unfoldable pub start : Engine → Action → Handler State
unfolding handler_of on_event
start engine (clicks c) = handler_of engine c
start engine (events e) = on_event engine e
start engine (inputs g keeps) = update g

-- Every handler obeys the discipline of every flag.
handler_of-Obeys :
    (engine : Engine) (i : Flag) (c : Click)
    → Obeys (flag_of i) (guarded_by i) outside (handler_of engine c)
unfolding handler_of after_read after_await
handler_of-Obeys engine chat_flag c = ground arith
handler_of-Obeys engine check_flag c = ground arith
handler_of-Obeys engine member_flag c = ground arith
handler_of-Obeys engine discover_flag c = ground arith

on_event-Obeys :
    (engine : Engine) (i : Flag) (e : Event)
    → Obeys (flag_of i) (guarded_by i) outside (on_event engine e)
unfolding on_event after_read after_await
on_event-Obeys engine chat_flag e = ground arith
on_event-Obeys engine check_flag e = ground arith
on_event-Obeys engine member_flag e = ground arith
on_event-Obeys engine discover_flag e = ground arith

pub start-Obeys :
    (engine : Engine) (i : Flag) (a : Action)
    → Obeys (flag_of i) (guarded_by i) outside (start engine a)
unfolding start
start-Obeys engine i (clicks c) = handler_of-Obeys engine i c
start-Obeys engine i (events e) = on_event-Obeys engine i e
start-Obeys engine i (inputs g keeps) = (keeps i, tt)

-- A page on which nothing is waited for.
abbrev pub at_rest : State → Page State
at_rest s = record { state = s; waiting = [] }

rest-IsLocked :
    (i : Flag) (s : State) → flag_of i s ≡ false → IsLocked (flag_of i) (guarded_by i) (at_rest s)
rest-IsLocked i s clear = rw clear empty

module _ (engine : Engine) (i : Flag) (s : State) (clear : flag_of i s ≡ false) (p : Page State)
    (r : Reach (start engine) (at_rest s) p) where
  page-IsLocked : IsLocked (flag_of i) (guarded_by i) p
  page-IsLocked =
      Reach-IsLocked (flag_of i) (guarded_by i) (start engine) (start-Obeys engine i) r
        (rest-IsLocked i s clear)

  -- In every order of clicks, inputs and answers that begins on a page at rest with a clear flag,
  -- one chat test is in flight at most, one check of keys, one switch of a model and one
  -- discovery, and the flag of each is set while it is.
  pub one_request : count_guarded (guarded_by i) p.waiting ≤ holders (flag_of i p.state)
  one_request = count-IsLocked (flag_of i) (guarded_by i) p page-IsLocked

  -- Whatever the answers were, errors included, no flag of such a page is left set when no handler
  -- waits any more.
  pub flags_clear : p.waiting ≡ [] → flag_of i p.state ≡ false
  flags_clear = clear_at_rest (flag_of i) (guarded_by i) p page-IsLocked
