-- ===== src/Web/Login/Locks.antt =====
-- The busy flag of the login page.
use ai_api_proxy.Common.{◌≤◌, Bool, true, false, [], ◌≡◌, arith}
use ai_api_proxy.Web.Login.{State, submit}
use ai_api_proxy.Web.Process.{Effect, fetch, navigate, Handler, update, Page, Reach}
use ai_api_proxy.Web.Process.Locks.{holders, empty, outside, Obeys, after_read, after_await}
use ai_api_proxy.Web.Process.Locks.Reach.{
  count_guarded, Reach-IsLocked, count-IsLocked, clear_at_rest,
}
use ai_api_proxy.Web.Values.{Engine}

abbrev pub flag : State → Bool
flag s = s.submitting

abbrev pub guarded : Effect → Bool
guarded (fetch _) = true
guarded (navigate _) = true
guarded _ = false

-- The button and the key that submit, and inputs, which do not set the flag.
pub data Action : Type 0 where
  submits : Action
  inputs : (g : State → State) → ((s : State) → flag (g s) ≡ flag s) → Action

unfoldable pub start : Engine → Action → Handler State
unfolding submit
start engine submits = submit engine
start engine (inputs g keeps) = update g

start-Obeys : (engine : Engine) (a : Action) → Obeys flag guarded outside (start engine a)
unfolding start after_read after_await
start-Obeys engine submits = ground arith
start-Obeys engine (inputs g keeps) = (keeps, tt)

abbrev pub at_rest : State → Page State
at_rest s = record { state = s; waiting = [] }

-- In every order of submissions, inputs and answers that begins on a page at rest with a clear
-- flag, one login or the navigation behind it is in flight at most, with the flag set, and the flag
-- is clear when no handler waits any more.
one_login :
    (engine : Engine) (s : State) (p : Page State)
    → flag s ≡ false
    → Reach (start engine) (at_rest s) p
    → (count_guarded guarded p.waiting ≤ holders (flag p.state))
      × (p.waiting ≡ [] → flag p.state ≡ false)
one_login engine s p clear r =
    let locked =
      Reach-IsLocked flag guarded (start engine) (start-Obeys engine) r (rw clear empty) in
    (count-IsLocked flag guarded p locked, clear_at_rest flag guarded p locked)
