-- ===== src/Web/Settings.antt =====
-- web/src/pages/PackageSettingsPage.vue: the settings and tasks of a package.
pub mod Locks
pub mod Slots
pub mod Markup
use ai_api_proxy.Common.{
  ℕ, zero, suc, ◌+◌, ◌-◌, ◌*◌, List, [], ◌∷◌, ◌++◌, map, Bool, true, false, not, ◌||◌, ◌&&◌, ltb,
  leb, ◌==◌, length, take, drop, if◌then◌else◌, Option, none, some, Outcome, ok, throws, Bytes,
}
use ai_api_proxy.Common.Strings.{JsString, js, same_string}
use ai_api_proxy.Json.{Json, null, boolean, number, string, array, object}
use ai_api_proxy.Web.Api.{packages_save_settings, packages_run_task, TaskOverride}
use ai_api_proxy.Web.Http.{Failure, message_of}
use ai_api_proxy.Web.Objects.{Properties, property, without, with_property, from_entries, includes}
use ai_api_proxy.Web.Process.{
  Process, Handler, api, refetch, navigate, array_buffer, fetch, state, update, perform, done, read,
  write, return, await, ◌>>◌, ◌>>=◌,
}
use ai_api_proxy.Web.Toasts.{Toast, success, failure, info}
use ai_api_proxy.Web.Types
use ai_api_proxy.Web.Values.{Engine, Value, decimal}

-- `draft`
pub record Draft : Type 0 where
  pub loaded : Bool
  pub config : Properties Value
  pub tasks : Properties TaskOverride
  pub version : ℕ
  pub slots : List Types.SettingsSlot
  pub task_rows : List Types.SettingsTask

-- `selected` is the name in the address. The names of packages and of tasks are not empty.
pub record State : Type 0 where
  pub toasts : List Toast
  pub packages_data : Option (List Types.PackageInfo)
  pub selected : Option JsString
  pub draft : Draft
  pub saving : Bool
  pub task_testing : Option JsString

abbrev toast : Toast → Handler State
toast t = update (λ s. record s { toasts = s.toasts ++ t ∷ [] })

abbrev toast_failure : Failure → JsString → Handler State
toast_failure e text = toast (failure (message_of e text))

abbrev refetch_settings : Handler State
refetch_settings = perform (refetch (js "package-settings"))

abbrev set_draft : Draft → State → State
set_draft d s = record s { draft = d }

unfoldable pub package_options : List Types.PackageInfo → List (JsString × JsString)
package_options ps =
    map (λ p. ((if length p.title == 0 then p.name else p.title) ++ (js " · " ++ p.name), p.name))
      ps

-- The handler does not wait for the navigation.
unfoldable pub select_package : Option JsString → Handler State
select_package none = done
select_package (some name) =
    if length name == 0 then done else perform (navigate name) >>= λ x. done

-- `task => [task.name, { cron, disabled: !enabled }]`
unfoldable pub task_entry : Types.SettingsTask → JsString × TaskOverride
task_entry t = (t.name, record { cron = t.cron; disabled = not t.enabled })

-- The callback of `watch`, when settings arrive
unfoldable pub draft_of : Types.PackageSettings → Draft
unfolding task_entry from_entries
draft_of settings =
    let rows : List Types.SettingsTask = elim settings.tasks [ none ↦ [] | some tasks ↦ tasks ] in
    record {
      loaded = true;
      config = from_entries [] (map (λ slot. (slot.name, slot.value)) settings.config);
      tasks = from_entries [] (map task_entry rows);
      version = settings.version;
      slots = settings.config;
      task_rows = rows;
    }

unfoldable pub settings_arrive : Types.PackageSettings → Handler State
unfolding draft_of
settings_arrive settings = update (λ s. record s { draft = draft_of settings })

unfoldable pub find_package : JsString → List Types.PackageInfo → Option Types.PackageInfo
unfolding same_string
find_package name [] = none
find_package name (p ∷ ps) =
    let rest = find_package name ps in if same_string p.name name then some p else rest

-- `type === 'int' || type === 'number'`
unfoldable pub is_numeric : Types.SettingsSchema → Bool
unfolding same_string
is_numeric schema = elim schema.type [
  | none ↦ false
  | some type ↦ same_string type (js "int") || same_string type (js "number")
]

unfoldable pub is_empty_string : Value → Bool
is_empty_string (string s) = length s == 0
is_empty_string _ = false

-- `{ ...config, default }` of a slot in `resetDefaults`
unfoldable pub reset_slot : Types.SettingsSlot → Properties Value → Properties Value
unfolding with_property without
reset_slot slot config = elim slot.schema.default [
  | some v ↦ with_property slot.name v config
  | none ↦ without slot.name config
]

unfoldable pub reset_slots : List Types.SettingsSlot → Properties Value → Properties Value
unfolding reset_slot
reset_slots [] config = config
reset_slots (slot ∷ slots) config = reset_slots slots (reset_slot slot config)

unfoldable pub count_defaults : List Types.SettingsSlot → ℕ
count_defaults [] = 0
count_defaults (slot ∷ slots) = elim slot.schema.default [
  | none ↦ count_defaults slots
  | some v ↦ suc (count_defaults slots)
]

unfoldable pub count_ok : List Types.TaskResultRow → ℕ
count_ok [] = 0
count_ok (r ∷ rs) = let rest = count_ok rs in if r.ok then suc rest else rest

unfoldable pub failures_of : List Types.TaskResultRow → List Types.TaskResultRow
failures_of [] = []
failures_of (r ∷ rs) = let rest = failures_of rs in if r.ok then rest else r ∷ rest

unfoldable pub total_ms : List Types.TaskResultRow → ℕ
total_ms [] = 0
total_ms (r ∷ rs) = r.duration_ms + total_ms rs

-- The message on the results of a task
unfoldable pub task_toast : JsString → List Types.TaskResultRow → Toast
unfolding count_ok failures_of total_ms decimal
task_toast name results = elim (failures_of results) [
  | [] ↦ success (
      js "任务 "
      ++ (name
          ++ (js ": "
              ++ (decimal (count_ok results)
                  ++ (js " 账号 · 总耗时 " ++ (decimal (total_ms results) ++ js "ms"))))))
  | first ∷ more ↦ failure (
      js "任务 "
      ++ (name
          ++ (js ": "
              ++ (decimal (count_ok results)
                  ++ (js " 成功, "
                      ++ (decimal (length (failures_of results))
                          ++ (js " 失败: " ++ elim first.error [ none ↦ [] | some e ↦ e ])))))))
]

unfoldable pub run_task : Types.SettingsTask → Handler State
unfolding task_toast
run_task task = do
  s ← state
  (elim s.selected [
    | none ↦ done
    | some name ↦ elim s.task_testing [
      | some other ↦ done
      | none ↦ do
        update (λ s. record s { task_testing = some task.name })
        reply ← perform (api (packages_run_task name task.name []))
        (elim reply [
          | ok results ↦ toast (task_toast task.name results)
          | throws e ↦ toast_failure e (js "任务执行失败")
        ])
        update (λ s. record s { task_testing = none })
    ]
  ])

module _ (engine : Engine) where
  unfoldable pub bad_slot : JsString → Value → JsString
  bad_slot name raw =
      js "槽 " ++ (name ++ (js " 需要数值, 当前值 \"" ++ (engine.to_string raw ++ js "\" 非法")))

  -- `coerceSlots`: what is to be saved, or the text of the message
  unfoldable pub coerce_from :
      Properties Value
      → List Types.SettingsSlot
      → Properties Value
      → Outcome JsString (Properties Value)
  unfolding property with_property is_numeric is_empty_string bad_slot
  coerce_from config [] out = ok out
  coerce_from config (slot ∷ slots) out = elim (property config slot.name) [
    | none ↦ coerce_from config slots out
    | some raw ↦
        let num = engine.to_number raw in
        let skipped = coerce_from config slots out in
        let with_number = coerce_from config slots (with_property slot.name (number num) out) in
        let with_raw = coerce_from config slots (with_property slot.name raw out) in
        if is_empty_string raw
        then skipped
        else if is_numeric slot.schema
        then if engine.is_nan num then throws (bad_slot slot.name raw) else with_number
        else with_raw
  ]

  unfoldable pub coerce_slots : Draft → Outcome JsString (Properties Value)
  unfolding coerce_from
  coerce_slots draft = coerce_from draft.config draft.slots []

  -- The `catch` of `save`
  unfoldable pub save_failed : Failure → Handler State
  unfolding includes
  save_failed e =
      let text = message_of e (js "保存失败") in
      if includes text (js "version mismatch")
      then toast (failure (js "设置已被他人修改, 已刷新, 请重试")) >> refetch_settings
      else toast (failure text)

  unfoldable pub save : Handler State
  unfolding coerce_slots save_failed
  save = do
    s ← state
    (elim s.selected [
      | none ↦ done
      | some name ↦ if s.saving then done else elim (coerce_slots s.draft) [
        | throws text ↦ toast (failure text)
        | ok config ↦ do
          update (λ s. record s { saving = true })
          reply ← perform (api (packages_save_settings name config s.draft.tasks s.draft.version))
          (elim reply [
            | ok version ↦ do
              update (λ s. record s { draft = record s.draft { version = version } })
              toast (success (js "已保存"))
              refetch_settings
            | throws e ↦ save_failed e
          ])
          update (λ s. record s { saving = false })
      ]
    ])

  unfoldable pub reset_defaults : Handler State
  unfolding save reset_slots count_defaults decimal
  reset_defaults = do
    s ← state
    update (λ s. record s {
      draft = record s.draft { config = reset_slots s.draft.slots s.draft.config };
    })
    toast
        (info (js "已回填 " ++ (decimal (count_defaults s.draft.slots) ++ js " 个默认槽, 其余覆盖将清除, 保存后生效")))
    save

  -- `String(v ?? '')`
  unfoldable pub string_or_empty : Value → JsString
  string_or_empty null = []
  string_or_empty v = engine.to_string v

  unfoldable pub slot_input_value : Draft → Types.SettingsSlot → JsString
  unfolding property string_or_empty
  slot_input_value draft slot = elim (property draft.config slot.name) [
    | none ↦ []
    | some v ↦ string_or_empty v
  ]
