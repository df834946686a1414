-- ===== src/Web/Tests/Installation.antt =====
-- The packages page: two clicks on the button that installs.
use ai_api_proxy.Common.{◌≤◌, [], false, none, ◌≡◌, refl}
use ai_api_proxy.Common.Strings.{js}
use ai_api_proxy.Web.Process.{Page, enqueue, advance, here}
use ai_api_proxy.Web.Process.Locks.{holders}
use ai_api_proxy.Web.Process.Locks.Reach.{count_guarded}
use ai_api_proxy.Web.Tests.Steps.{called, call}
use ai_api_proxy.Web.Packages.{State}
use ai_api_proxy.Web.Packages.Locks.{
  clicks, confirms_install, install_flag, flag_of, guarded_by, start, at_rest, one_installation,
}

abbrev sample : State
sample = record {
  toasts = [];
  inspecting = false;
  pending_inspect = none;
  pending_bytes = none;
  pending_url = js "https://example.org/p.aap";
  url_open = false;
  import_url = [];
  url_inspecting = false;
  installing = false;
  removing = none;
}

abbrev clicked_twice : Page State
clicked_twice =
    called start (clicks confirms_install) (called start (clicks confirms_install) (at_rest sample))

one_installation_example :
    (count_guarded (guarded_by install_flag) clicked_twice.waiting
      ≤ holders (flag_of install_flag clicked_twice.state))
    × (clicked_twice.waiting ≡ [] → flag_of install_flag clicked_twice.state ≡ false)
one_installation_example =
    one_installation install_flag sample clicked_twice refl
      (call start (clicks confirms_install) (call start (clicks confirms_install) here))

test_clicked_twice : count_guarded (guarded_by install_flag) clicked_twice.waiting ≡ 1
unfolding start advance enqueue count_guarded
test_clicked_twice = refl
