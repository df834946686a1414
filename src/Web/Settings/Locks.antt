-- ===== src/Web/Settings/Locks.antt =====
-- The busy flags of the page of settings: `saving`, and `taskTesting` when it is not null.
use ai_api_proxy.Common.{◌≤◌, Bool, true, false, [], Option, none, some, ◌≡◌, arith}
use ai_api_proxy.Common.Strings.{JsString}
use ai_api_proxy.Web.Api.{packages_save_settings, packages_run_task}
use ai_api_proxy.Web.Process.{Effect, api, Handler, update, Page, Reach}
use ai_api_proxy.Web.Process.Locks.{holders, empty, outside, Obeys, after_read, after_await}
use ai_api_proxy.Web.Process.Locks.Reach.{
  count_guarded, Reach-IsLocked, count-IsLocked, clear_at_rest,
}
use ai_api_proxy.Web.Settings.{
  State, select_package, settings_arrive, save, save_failed, reset_defaults, run_task,
}
use ai_api_proxy.Web.Settings.Markup.{Event, on_event}
use ai_api_proxy.Web.Types
use ai_api_proxy.Web.Values.{Engine}

pub data Flag : Type 0 where
  save_flag task_flag : Flag

abbrev is_some : Option JsString → Bool
is_some none = false
is_some (some s) = true

abbrev pub flag_of : Flag → State → Bool
flag_of save_flag s = s.saving
flag_of task_flag s = is_some s.task_testing

abbrev pub guarded_by : Flag → Effect → Bool
guarded_by save_flag (api (packages_save_settings _ _ _ _)) = true
guarded_by task_flag (api (packages_run_task _ _ _)) = true
guarded_by _ _ = false

-- The handlers of the page; the arrival of settings is one.
pub data Click : Type 0 where
  selects : Option JsString → Click
  arrives : Types.PackageSettings → Click
  saves : Click
  resets : Click
  runs : Types.SettingsTask → Click

-- Calls of the handlers, events of the template, and other inputs, which set no flag.
pub data Action : Type 0 where
  clicks : Click → Action
  events : Event → Action
  inputs : (g : State → State) → ((i : Flag) (s : State) → flag_of i (g s) ≡ flag_of i s) → Action

unfoldable pub handler_of : Engine → Click → Handler State
unfolding select_package settings_arrive save reset_defaults run_task
handler_of engine (selects name) = select_package name
handler_of engine (arrives settings) = settings_arrive settings
handler_of engine saves = save engine
handler_of engine resets = reset_defaults engine
handler_of engine (runs task) = run_task task

unfoldable pub start : Engine → Action → Handler State
unfolding handler_of on_event
start engine (clicks c) = handler_of engine c
start engine (events e) = on_event engine e
start engine (inputs g keeps) = update g

handler_of-Obeys :
    (engine : Engine) (i : Flag) (c : Click)
    → Obeys (flag_of i) (guarded_by i) outside (handler_of engine c)
unfolding handler_of save_failed after_read after_await
handler_of-Obeys engine save_flag c = ground arith
handler_of-Obeys engine task_flag c = ground arith

on_event-Obeys :
    (engine : Engine) (i : Flag) (e : Event)
    → Obeys (flag_of i) (guarded_by i) outside (on_event engine e)
unfolding on_event save_failed after_read after_await
on_event-Obeys engine save_flag e = ground arith
on_event-Obeys engine task_flag e = ground arith

start-Obeys :
    (engine : Engine) (i : Flag) (a : Action)
    → Obeys (flag_of i) (guarded_by i) outside (start engine a)
unfolding start
start-Obeys engine i (clicks c) = handler_of-Obeys engine i c
start-Obeys engine i (events e) = on_event-Obeys engine i e
start-Obeys engine i (inputs g keeps) = (keeps i, tt)

abbrev pub at_rest : State → Page State
at_rest s = record { state = s; waiting = [] }

-- In every order of clicks, inputs and answers that begins on a page at rest with a clear flag, one
-- save of the settings is in flight at most and one run of a task, each with its flag set, and the
-- flag is clear when no handler waits any more.
pub one_save :
    (engine : Engine) (i : Flag) (s : State) (p : Page State)
    → flag_of i s ≡ false
    → Reach (start engine) (at_rest s) p
    → (count_guarded (guarded_by i) p.waiting ≤ holders (flag_of i p.state))
      × (p.waiting ≡ [] → flag_of i p.state ≡ false)
one_save engine i s p clear r =
    let locked =
      Reach-IsLocked (flag_of i) (guarded_by i) (start engine) (start-Obeys engine i) r
        (rw clear empty) in
    (
      count-IsLocked (flag_of i) (guarded_by i) p locked,
      clear_at_rest (flag_of i) (guarded_by i) p locked,
    )
