-- ===== src/Web/Packages/Locks.antt =====
-- The busy flags of the page of packages.
use ai_api_proxy.Common.{ℕ, ◌≤◌, Bool, true, false, [], Option, ◌≡◌, arith}
use ai_api_proxy.Common.Strings.{JsString}
use ai_api_proxy.Web.Api.{
  packages_inspect_bytes, packages_inspect_url, packages_install, packages_import_url,
}
use ai_api_proxy.Web.Packages.{
  State, on_file_chosen, inspect_url, installed, confirm_install, toggle_enabled, confirm_remove,
}
use ai_api_proxy.Web.Process.{Effect, api, array_buffer, Handler, update, Page, Reach}
use ai_api_proxy.Web.Process.Locks.{holders, empty, outside, Obeys, after_read, after_await}
use ai_api_proxy.Web.Process.Locks.Reach.{
  count_guarded, Reach-IsLocked, count-IsLocked, clear_at_rest,
}

pub data Flag : Type 0 where
  file_flag url_flag install_flag : Flag

abbrev pub flag_of : Flag → State → Bool
flag_of file_flag s = s.inspecting
flag_of url_flag s = s.url_inspecting
flag_of install_flag s = s.installing

abbrev pub guarded_by : Flag → Effect → Bool
guarded_by file_flag (api (packages_inspect_bytes _)) = true
guarded_by file_flag (array_buffer _) = true
guarded_by url_flag (api (packages_inspect_url _)) = true
guarded_by install_flag (api (packages_install _)) = true
guarded_by install_flag (api (packages_import_url _)) = true
guarded_by _ _ = false

-- The handlers of the page.
pub data Click : Type 0 where
  chooses : Option ℕ → Click
  inspects_url : Click
  confirms_install : Click
  toggles : JsString → Bool → Click
  confirms_remove : Click

-- Clicks, and inputs, which set no flag; the arrival of data is an input too.
pub data Action : Type 0 where
  clicks : Click → Action
  inputs : (g : State → State) → ((i : Flag) (s : State) → flag_of i (g s) ≡ flag_of i s) → Action

unfoldable pub handler_of : Click → Handler State
unfolding on_file_chosen inspect_url confirm_install toggle_enabled confirm_remove
handler_of (chooses file) = on_file_chosen file
handler_of inspects_url = inspect_url
handler_of confirms_install = confirm_install
handler_of (toggles name enabled) = toggle_enabled name enabled
handler_of confirms_remove = confirm_remove

unfoldable pub start : Action → Handler State
unfolding handler_of
start (clicks c) = handler_of c
start (inputs g keeps) = update g

handler_of-Obeys : (i : Flag) (c : Click) → Obeys (flag_of i) (guarded_by i) outside (handler_of c)
unfolding handler_of installed after_read after_await
handler_of-Obeys file_flag c = ground arith
handler_of-Obeys url_flag c = ground arith
handler_of-Obeys install_flag c = ground arith

start-Obeys : (i : Flag) (a : Action) → Obeys (flag_of i) (guarded_by i) outside (start a)
unfolding start
start-Obeys i (clicks c) = handler_of-Obeys i c
start-Obeys i (inputs g keeps) = (keeps i, tt)

abbrev pub at_rest : State → Page State
at_rest s = record { state = s; waiting = [] }

-- In every order of clicks, inputs and answers that begins on a page at rest with a clear flag, one
-- installation is in flight at most, one inspection of a file and one of an address, each with its
-- flag set, and the flag is clear when no handler waits any more.
pub one_installation :
    (i : Flag) (s : State) (p : Page State)
    → flag_of i s ≡ false
    → Reach start (at_rest s) p
    → (count_guarded (guarded_by i) p.waiting ≤ holders (flag_of i p.state))
      × (p.waiting ≡ [] → flag_of i p.state ≡ false)
one_installation i s p clear r =
    let locked =
      Reach-IsLocked (flag_of i) (guarded_by i) start (start-Obeys i) r (rw clear empty) in
    (
      count-IsLocked (flag_of i) (guarded_by i) p locked,
      clear_at_rest (flag_of i) (guarded_by i) p locked,
    )
