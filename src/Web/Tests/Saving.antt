-- ===== src/Web/Tests/Saving.antt =====
-- The settings page: two clicks on the button that saves.
use ai_api_proxy.Common.{◌≤◌, [], true, false, none, some, ◌≡◌, refl}
use ai_api_proxy.Common.Strings.{js}
use ai_api_proxy.Web.Process.{Page, enqueue, advance, here}
use ai_api_proxy.Web.Process.Locks.{holders}
use ai_api_proxy.Web.Process.Locks.Reach.{count_guarded}
use ai_api_proxy.Web.Tests.Steps.{called, call}
use ai_api_proxy.Common.{◌∷◌}
use ai_api_proxy.Common.Strings.{same_string}
use ai_api_proxy.Json.{string, boolean}
use ai_api_proxy.Web.Objects.{property}
use ai_api_proxy.Web.Types
use ai_api_proxy.Web.Settings.Markup.{
  on_event, chooses, types_slot, checks, types_cron, enables, edit_slot, edit_enabled, is_checked,
  shown_cron, shown_enabled,
}
use ai_api_proxy.Web.Settings.Markup.Shown.{shown, behind, edits_shown}
use ai_api_proxy.Web.Settings.{State, slot_input_value, string_or_empty}
use ai_api_proxy.Web.Settings.Locks.{
  clicks, saves, save_flag, flag_of, guarded_by, start, at_rest, one_save,
}
use ai_api_proxy.Web.Tests.Engine.{sample_engine}

abbrev sample : State
sample = record {
  toasts = [];
  packages_data = none;
  selected = some (js "gemini");
  draft = record {
    loaded = true;
    config = [];
    tasks = [];
    version = 4;
    slots = [];
    task_rows = [];
  };
  saving = false;
  task_testing = none;
}

abbrev clicked_twice : Page State
clicked_twice =
    called (start sample_engine) (clicks saves)
      (called (start sample_engine) (clicks saves) (at_rest sample))

one_save_example :
    (count_guarded (guarded_by save_flag) clicked_twice.waiting
      ≤ holders (flag_of save_flag clicked_twice.state))
    × (clicked_twice.waiting ≡ [] → flag_of save_flag clicked_twice.state ≡ false)
one_save_example =
    one_save sample_engine save_flag sample clicked_twice refl
      (call (start sample_engine) (clicks saves) (call (start sample_engine) (clicks saves) here))

test_clicked_twice : count_guarded (guarded_by save_flag) clicked_twice.waiting ≡ 1
unfolding start advance enqueue count_guarded
test_clicked_twice = refl

-- A slot of texts and a task, and a draft of both.
abbrev slot : Types.SettingsSlot
slot = record {
  name = js "region";
  schema = record {
    type = some (js "string");
    description = none;
    values = none;
    default = none;
    required = none;
  };
  value = string (js "eu");
  overridden = false;
}

abbrev task : Types.SettingsTask
task = record {
  name = js "refresh";
  cron = js "@daily";
  next = [];
  timeout_ms = 0;
  overridden = false;
  enabled = true;
}

-- Another slot, of checks, and another task.
abbrev debug : Types.SettingsSlot
debug = record slot { name = js "debug"; value = boolean true }

abbrev cleaning : Types.SettingsTask
cleaning = record task { name = js "clean"; cron = js "@hourly" }

abbrev filled : State
filled = record sample {
  draft = record {
    loaded = true;
    config = (js "region", string (js "eu")) ∷ (js "debug", boolean true) ∷ [];
    tasks =
        (js "refresh", record { cron = js "@daily"; disabled = false })
        ∷ (js "clean", record { cron = js "@hourly"; disabled = true })
        ∷ [];
    version = 4;
    slots = slot ∷ debug ∷ [];
    task_rows = task ∷ cleaning ∷ [];
  };
}

-- What is shown of the other slot and the other task stays.
edits_shown_example :
    let old = shown sample_engine filled.draft debug cleaning in
    (shown sample_engine (behind sample_engine (chooses slot (js "us")) filled) debug cleaning
      ≡ old)
    × (shown sample_engine (behind sample_engine (types_slot slot (js "us")) filled) debug cleaning
        ≡ old)
    × (shown sample_engine (behind sample_engine (checks slot true) filled) debug cleaning ≡ old)
    × (shown sample_engine (behind sample_engine (types_cron task (js "us")) filled) debug cleaning
        ≡ old)
    × (shown sample_engine (behind sample_engine (enables task true) filled) debug cleaning ≡ old)
unfolding same_string property
edits_shown_example =
    edits_shown sample_engine filled slot debug task cleaning (js "us") true
      (record { cron = js "@hourly"; disabled = true }) refl

-- What is shown of the slot and the task that were edited.
test_edited :
    shown sample_engine
      (behind sample_engine
        (enables cleaning true)
        (record filled { draft = behind sample_engine (types_slot slot (js "us")) filled }))
      slot
      cleaning
    ≡ (js "us", false, js "@hourly", true)
unfolding on_event advance edit_slot edit_enabled slot_input_value is_checked shown_cron
    shown_enabled same_string property string_or_empty
test_edited = refl
