-- ===== src/Web/Theme.antt =====
-- web/src/App.vue: the theme that the user prefers.
use ai_api_proxy.Common.{Bool, if◌then◌else◌, Option, none, some}
use ai_api_proxy.Common.Strings.{JsString, js, same_string}

-- `ThemePreference`; what the storage holds may be another text.
pub data Preference : Type 0 where
  light dark system : Preference
  other : JsString → Preference

pub record State : Type 0 where
  pub stored : Option JsString
  pub preference : Preference
  pub system_dark : Bool

unfoldable pub preference_of : JsString → Preference
unfolding same_string
preference_of text =
    if same_string text (js "light")
    then light
    else if same_string text (js "dark")
    then dark
    else if same_string text (js "system")
    then system
    else other text

unfoldable pub preference_text : Preference → JsString
preference_text light = js "light"
preference_text dark = js "dark"
preference_text system = js "system"
preference_text (other text) = text

-- `stored ?? 'system'`
unfoldable pub initial : Option JsString → Bool → State
unfolding preference_of
initial stored system_dark = record {
  stored = stored;
  preference = elim stored [ none ↦ system | some text ↦ preference_of text ];
  system_dark = system_dark;
}

-- `theme`, as it is written to the document
unfoldable pub theme_of : State → JsString
unfolding preference_text
theme_of s = elim s.preference [
  | system ↦ if s.system_dark then js "dark" else js "light"
  | light ↦ js "light"
  | dark ↦ js "dark"
  | other text ↦ text
]

-- The callback of `watchEffect`, which runs at the start and after each change.
unfoldable pub store_preference : State → State
unfolding preference_text
store_preference s = record s { stored = some (preference_text s.preference) }

-- `onThemeSelect` of AdminLayout.vue, and the change of the system's scheme
unfoldable pub select_theme : JsString → State → State
unfolding preference_of store_preference
select_theme key s = store_preference (record s { preference = preference_of key })

unfoldable pub scheme_changes : Bool → State → State
unfolding store_preference
scheme_changes matches s = store_preference (record s { system_dark = matches })
