-- ===== src/Web/Settings/Markup.antt =====
-- The template of PackageSettingsPage.vue: the controls of the slots and of the tasks.
pub mod Shown
use ai_api_proxy.Common.{
  List, [], ◌∷◌, Bool, true, false, not, ◌||◌, ◌&&◌, ◌==◌, length, if◌then◌else◌, Option, none,
  some, ◌≡◌, refl, ap, ◌∙◌, arith, inl, inr, Bool-cases,
}
use ai_api_proxy.Common.Strings.{JsString, js, same_string, same_string_trans, same_string_apart}
use ai_api_proxy.Json.{boolean, string}
use ai_api_proxy.Web.Api.{TaskOverride}
use ai_api_proxy.Web.Objects.{Properties, property, with_property}
use ai_api_proxy.Web.Objects.Laws.{property-with_property}
use ai_api_proxy.Web.Process.{Handler, update}
use ai_api_proxy.Web.Settings.{
  Draft, State, select_package, save, reset_defaults, run_task, slot_input_value, string_or_empty,
}
use ai_api_proxy.Web.Types
use ai_api_proxy.Web.Values.{Engine, Value}

-- The control of a slot, by `slot.schema.type`.
pub data Control : Type 0 where
  selection box text_box : Control

unfoldable pub control_of : Types.SettingsSchema → Control
unfolding same_string
control_of schema = elim schema.type [
  | none ↦ text_box
  | some type ↦
      if same_string type (js "enum")
      then selection
      else if same_string type (js "bool")
      then box
      else text_box
]

-- `draft.config[slot.name] === true`
unfoldable pub is_checked : Draft → Types.SettingsSlot → Bool
unfolding property
is_checked draft slot = elim (property draft.config slot.name) [ some (boolean b) ↦ b | _ ↦ false ]

-- `draft.config[slot.name] = v`
unfoldable pub edit_slot : JsString → Value → Draft → Draft
unfolding with_property
edit_slot name v draft = record draft { config = with_property name v draft.config }

-- `const t = tasks[name]; if (t) …`
unfoldable pub edit_at :
    (TaskOverride → TaskOverride) → JsString → Properties TaskOverride → Properties TaskOverride
unfolding same_string
edit_at f name [] = []
edit_at f name ((k, t) ∷ tasks) =
    let rest = edit_at f name tasks in
    if same_string k name then (k, f t) ∷ tasks else (k, t) ∷ rest

unfoldable pub edit_cron : JsString → JsString → Draft → Draft
unfolding edit_at
edit_cron name v draft = record draft {
  tasks = edit_at (λ t. record t { cron = v }) name draft.tasks;
}

unfoldable pub edit_enabled : JsString → Bool → Draft → Draft
unfolding edit_at
edit_enabled name v draft = record draft {
  tasks = edit_at (λ t. record t { disabled = not v }) name draft.tasks;
}

-- `draft.tasks[task.name]?.cron ?? task.cron` and `!(draft.tasks[task.name]?.disabled)`
unfoldable pub shown_cron : Draft → Types.SettingsTask → JsString
unfolding property
shown_cron draft task = elim (property draft.tasks task.name) [ none ↦ task.cron | some t ↦ t.cron ]

unfoldable pub shown_enabled : Draft → Types.SettingsTask → Bool
unfolding property
shown_enabled draft task = elim (property draft.tasks task.name) [
  | none ↦ true
  | some t ↦ not t.disabled
]

-- The events to which the template listens.
pub data Event : Type 0 where
  selects : Option JsString → Event
  chooses types_slot : Types.SettingsSlot → JsString → Event
  checks : Types.SettingsSlot → Bool → Event
  types_cron : Types.SettingsTask → JsString → Event
  enables : Types.SettingsTask → Bool → Event
  saves resets : Event
  tests : Types.SettingsTask → Event

unfoldable pub on_event : Engine → Event → Handler State
unfolding edit_slot edit_cron edit_enabled select_package save reset_defaults run_task
on_event engine (selects name) = select_package name
on_event engine (chooses slot v) =
    update (λ s. record s { draft = edit_slot slot.name (string v) s.draft })
on_event engine (types_slot slot v) =
    update (λ s. record s { draft = edit_slot slot.name (string v) s.draft })
on_event engine (checks slot v) =
    update (λ s. record s { draft = edit_slot slot.name (boolean v) s.draft })
on_event engine (types_cron task v) =
    update (λ s. record s { draft = edit_cron task.name v s.draft })
on_event engine (enables task v) =
    update (λ s. record s { draft = edit_enabled task.name v s.draft })
on_event engine saves = save engine
on_event engine resets = reset_defaults engine
on_event engine (tests task) = run_task task
