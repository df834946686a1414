-- ===== src/Web/Settings/Markup/Shown.antt =====
-- What the form of the settings shows behind an edit.
use ai_api_proxy.Common.{
  false, [], ◌∷◌, Bool, not, if◌then◌else◌, Option, none, some, ◌≡◌, arith, inl, inr, Bool-cases,
}
use ai_api_proxy.Common.Strings.{JsString, same_string, same_string_trans, same_string_apart}
use ai_api_proxy.Json.{string, boolean}
use ai_api_proxy.Web.Api.{TaskOverride}
use ai_api_proxy.Web.Objects.{Properties, property}
use ai_api_proxy.Web.Objects.Laws.{property-with_property}
use ai_api_proxy.Web.Process.{advance}
use ai_api_proxy.Web.Settings.{Draft, State, slot_input_value, string_or_empty}
use ai_api_proxy.Web.Settings.Markup.{
  Event, on_event, chooses, types_slot, checks, types_cron, enables, edit_slot, edit_at, edit_cron,
  edit_enabled, is_checked, shown_cron, shown_enabled,
}
use ai_api_proxy.Web.Types
use ai_api_proxy.Web.Values.{Engine}

property-edit_at :
    (f : TaskOverride → TaskOverride) (tasks : Properties TaskOverride) (key name : JsString)
    → property (edit_at f key tasks) name ≡ (
        if same_string key name
        then elim (property tasks name) as (λ _. Option TaskOverride) [
          | none ↦ none
          | some t ↦ some (f t)
        ]
        else property tasks name)
unfolding property edit_at
property-edit_at f [] key name = ground arith
property-edit_at f ((k, t) ∷ tasks) key name = elim (Bool-cases (same_string k key)) [
  | inl same ↦ ground (arith, same_string_trans k key name same)
  | inr other ↦
      ground (arith, property-edit_at f tasks key name, same_string_apart k key name other)
]

-- What the form shows of a slot, as a text and as a check, and of a task, its schedule and its check.
abbrev pub Shown : Type 0
Shown = JsString × Bool × JsString × Bool

module _ (engine : Engine) where
  abbrev pub shown : Draft → Types.SettingsSlot → Types.SettingsTask → Shown
  shown draft slot task = (
    slot_input_value engine draft slot,
    is_checked draft slot,
    shown_cron draft task,
    shown_enabled draft task,
  )

  -- The draft behind an event.
  abbrev pub behind : Event → State → Draft
  behind e s = (advance (on_event engine e) s).0.draft

  shown-types :
      (s : State) (slot other_slot : Types.SettingsSlot) (other : Types.SettingsTask) (t : JsString)
      → shown (edit_slot slot.name (string t) s.draft) other_slot other ≡ (
          let old = shown s.draft other_slot other in
          if same_string slot.name other_slot.name
          then (engine.to_string (string t), false, old.2, old.3)
          else old)
  unfolding slot_input_value edit_slot string_or_empty is_checked shown_cron shown_enabled
  shown-types s slot other_slot other t =
      ground (arith, property-with_property s.draft.config slot.name other_slot.name (string t))

  shown-checks :
      (s : State) (slot other_slot : Types.SettingsSlot) (other : Types.SettingsTask) (b : Bool)
      → shown (edit_slot slot.name (boolean b) s.draft) other_slot other ≡ (
          let old = shown s.draft other_slot other in
          if same_string slot.name other_slot.name
          then (engine.to_string (boolean b), b, old.2, old.3)
          else old)
  unfolding slot_input_value edit_slot string_or_empty is_checked shown_cron shown_enabled
  shown-checks s slot other_slot other b =
      ground (arith, property-with_property s.draft.config slot.name other_slot.name (boolean b))

  shown-cron :
      (s : State) (other_slot : Types.SettingsSlot) (task other : Types.SettingsTask) (t : JsString)
      (entry : TaskOverride)
      → property s.draft.tasks other.name ≡ some entry
      → shown (edit_cron task.name t s.draft) other_slot other ≡ (
          let old = shown s.draft other_slot other in
          if same_string task.name other.name then (old.0, old.1, t, old.3) else old)
  unfolding slot_input_value is_checked shown_cron shown_enabled edit_cron
  shown-cron s other_slot task other t entry there = ground (
    arith,
    there,
    property-edit_at (λ o. record o { cron = t }) s.draft.tasks task.name other.name,
  )

  shown-enabled :
      (s : State) (other_slot : Types.SettingsSlot) (task other : Types.SettingsTask) (b : Bool)
      (entry : TaskOverride)
      → property s.draft.tasks other.name ≡ some entry
      → shown (edit_enabled task.name b s.draft) other_slot other ≡ (
          let old = shown s.draft other_slot other in
          if same_string task.name other.name then (old.0, old.1, old.2, b) else old)
  unfolding slot_input_value is_checked shown_cron shown_enabled edit_enabled
  shown-enabled s other_slot task other b entry there = ground (
    arith,
    there,
    property-edit_at (λ o. record o { disabled = not b }) s.draft.tasks task.name other.name,
  )

  -- Behind each input of the settings form, the form shows what was put in: of a slot, the text and no
  -- check, or the check and its text; of a task, the schedule or the check. All else that it shows, of
  -- this slot or task and of every other one, is what it showed before. The draft has an entry for the
  -- task that is looked at.
  pub edits_shown :
      (s : State) (slot other_slot : Types.SettingsSlot) (task other : Types.SettingsTask)
      (t : JsString) (b : Bool) (entry : TaskOverride)
      → property s.draft.tasks other.name ≡ some entry
      → let old = shown s.draft other_slot other in
        let same_slot = same_string slot.name other_slot.name in
        let same_task = same_string task.name other.name in
        let typed = if same_slot then (engine.to_string (string t), false, old.2, old.3) else old in
        (shown (behind (chooses slot t) s) other_slot other ≡ typed)
        × (shown (behind (types_slot slot t) s) other_slot other ≡ typed)
        × (shown (behind (checks slot b) s) other_slot other
            ≡ (if same_slot then (engine.to_string (boolean b), b, old.2, old.3) else old))
        × (shown (behind (types_cron task t) s) other_slot other
            ≡ (if same_task then (old.0, old.1, t, old.3) else old))
        × (shown (behind (enables task b) s) other_slot other
            ≡ (if same_task then (old.0, old.1, old.2, b) else old))
  unfolding on_event advance
  edits_shown s slot other_slot task other t b entry there = (
    shown-types s slot other_slot other t,
    shown-types s slot other_slot other t,
    shown-checks s slot other_slot other b,
    shown-cron s other_slot task other t entry there,
    shown-enabled s other_slot task other b entry there,
  )
