-- ===== src/Web/Models/Markup.antt =====
-- The template of ModelsPage.vue: the events of its controls, and the controls that it shows.
use ai_api_proxy.Common.{
  ℕ, zero, suc, List, [], ◌∷◌, ◌++◌, Bool, true, false, not, ◌&&◌, ltb, length, if◌then◌else◌,
  Option, none, some, ◌≡◌, arith,
}
use ai_api_proxy.Common.Strings.{JsString, same_string}
use ai_api_proxy.Web.Models.Discovery.{empty_rule, run_discover}
use ai_api_proxy.Web.Models.Groups.{open_create, save_edit, confirm_delete}
use ai_api_proxy.Web.Models.Members.{add_member, confirm_delete_member}
use ai_api_proxy.Web.Models.State.{State, RuleRow, default_limit}
use ai_api_proxy.Web.Models.Tests.{run_chat_test, run_keys_check}
use ai_api_proxy.Web.Process.{Handler, advance, update, ◌>>◌}
use ai_api_proxy.Web.Types
use ai_api_proxy.Web.Types.{only, exclude, rename, limit, probe, chat}
use ai_api_proxy.Web.Values.{Double, Engine}

-- An input in a row of the rules.
pub data RuleInput : Type 0 where
  selects_op : Types.RuleOp → RuleInput
  types_regex types_from types_to : JsString → RuleInput
  -- `NInputNumber`, which is empty or holds a number
  types_limit : Option Double → RuleInput

-- An assignment to one variable: by `v-model`, or by an expression in the template.
pub data Edit : Type 0 where
  edit_shows members_shows discover_shows chat_shows check_shows : Bool → Edit
  types_prefix selects_plugin selects_transport types_params : JsString → Edit
  types_member_name types_chat_message types_check_message : JsString → Edit
  checks_enabled checks_member_enabled checks_discover_enabled : Bool → Edit
  selects_mode : Types.KeysCheckMode → Edit
  cancels_delete cancels_member : Edit

-- The events to which the template listens.
pub data Event : Type 0 where
  edits : Edit → Event
  in_rule : ℕ → RuleInput → Event
  removes_rule : ℕ → Event
  adds_rule : Event
  creates saves adds_member previews imports sends checks_keys : Event
  confirms_delete confirms_member : Event

unfoldable pub assign : Edit → State → State
assign (edit_shows b) s = record s { edit_open = b }
assign (members_shows b) s = record s { members_open = b }
assign (discover_shows b) s = record s { discover_open = b }
assign (chat_shows b) s = record s { chat_open = b }
assign (check_shows b) s = record s { check_open = b }
assign (types_prefix t) s = record s { edit_prefix = t }
assign (selects_plugin t) s = record s { edit_plugin = t }
assign (selects_transport t) s = record s { edit_transport = t }
assign (types_params t) s = record s { edit_params_json = t }
assign (types_member_name t) s = record s { new_member_name = t }
assign (types_chat_message t) s = record s { chat_message = t }
assign (types_check_message t) s = record s { check_message = t }
assign (checks_enabled b) s = record s { edit_enabled = b }
assign (checks_member_enabled b) s = record s { new_member_enabled = b }
assign (checks_discover_enabled b) s = record s { discover_enabled = b }
assign (selects_mode m) s = record s { check_mode = m }
assign cancels_delete s = record s { deleting = none }
assign cancels_member s = record s { deleting_member = none }

-- `@update:value` of the selection sets a limit of 50 where there is none.
unfoldable pub edit_rule : RuleInput → RuleRow → RuleRow
edit_rule (selects_op limit) r = elim r.limit [
  | none ↦ record r { op = limit; limit = some default_limit }
  | some n ↦ record r { op = limit }
]
edit_rule (selects_op op) r = record r { op = op }
edit_rule (types_regex s) r = record r { regex = s }
edit_rule (types_from s) r = record r { from = s }
edit_rule (types_to s) r = record r { to = s }
edit_rule (types_limit n) r = record r { limit = n }

unfoldable pub edit_rules : ℕ → RuleInput → List RuleRow → List RuleRow
unfolding edit_rule
edit_rules i input [] = []
edit_rules zero input (r ∷ rs) = edit_rule input r ∷ rs
edit_rules (suc i) input (r ∷ rs) = r ∷ edit_rules i input rs

-- `discoverRules.splice(i, 1)`
unfoldable pub without_rule : ℕ → List RuleRow → List RuleRow
without_rule i [] = []
without_rule zero (r ∷ rs) = rs
without_rule (suc i) (r ∷ rs) = r ∷ without_rule i rs

-- What an event calls.
unfoldable pub on_event : Engine → Event → Handler State
unfolding open_create save_edit add_member run_discover run_chat_test run_keys_check confirm_delete
    confirm_delete_member edit_rules without_rule assign
on_event engine (edits e) = update (assign e)
on_event engine (in_rule i input) =
    update (λ s. record s { discover_rules = edit_rules i input s.discover_rules })
on_event engine (removes_rule i) =
    update (λ s. record s { discover_rules = without_rule i s.discover_rules })
on_event engine adds_rule =
    update (λ s. record s { discover_rules = s.discover_rules ++ empty_rule ∷ [] })
on_event engine creates = open_create
on_event engine saves = save_edit engine
on_event engine adds_member = add_member
on_event engine previews = do update (λ s. record s { discover_preview = none }); run_discover false
on_event engine imports = run_discover true
on_event engine sends = run_chat_test engine
on_event engine checks_keys = run_keys_check
on_event engine confirms_delete = confirm_delete
on_event engine confirms_member = confirm_delete_member

-- The number of rows with a verdict, of the summary of a check.
unfoldable pub verdict_count : JsString → List Types.KeysCheckRow → ℕ
unfolding same_string
verdict_count v [] = 0
verdict_count v (r ∷ rs) =
    let rest = verdict_count v rs in if same_string r.verdict v then suc rest else rest

-- Is a control there? Those of a dialog are there while it is shown, and some for one choice only.
unfoldable pub op_shows : RuleInput → Types.RuleOp → Bool
op_shows (selects_op op) shown = true
op_shows (types_regex s) only = true
op_shows (types_regex s) exclude = true
op_shows (types_from s) rename = true
op_shows (types_to s) rename = true
op_shows (types_limit n) limit = true
op_shows _ _ = false

unfoldable pub rule_shows : ℕ → RuleInput → List RuleRow → Bool
unfolding op_shows
rule_shows i input [] = false
rule_shows zero input (r ∷ rs) = op_shows input r.op
rule_shows (suc i) input (r ∷ rs) = rule_shows i input rs

unfoldable pub is_some : {A : Type 0} → Option A → Bool
is_some none = false
is_some (some x) = true

unfoldable pub edit_shown : Edit → State → Bool
unfolding is_some
edit_shown (types_prefix t) s = s.edit_open
edit_shown (selects_plugin t) s = s.edit_open && not (is_some s.edit_id)
edit_shown (selects_transport t) s = s.edit_open
edit_shown (types_params t) s = s.edit_open
edit_shown (checks_enabled b) s = s.edit_open
edit_shown (types_member_name t) s = s.members_open
edit_shown (checks_member_enabled b) s = s.members_open
edit_shown (checks_discover_enabled b) s = s.discover_open
edit_shown (types_chat_message t) s = s.chat_open
edit_shown (selects_mode m) s = s.check_open
edit_shown (types_check_message t) s =
    s.check_open && (elim s.check_mode [ chat ↦ true | probe ↦ false ])
edit_shown cancels_delete s = is_some s.deleting
edit_shown cancels_member s = is_some s.deleting_member
edit_shown (edit_shows b) s = s.edit_open
edit_shown (members_shows b) s = s.members_open
edit_shown (discover_shows b) s = s.discover_open
edit_shown (chat_shows b) s = s.chat_open
edit_shown (check_shows b) s = s.check_open

unfoldable pub is_shown : Event → State → Bool
unfolding rule_shows edit_shown
is_shown (edits e) s = edit_shown e s
is_shown (in_rule i input) s = s.discover_open && rule_shows i input s.discover_rules
is_shown (removes_rule i) s = s.discover_open && ltb i (length s.discover_rules)
is_shown adds_rule s = s.discover_open
is_shown creates s = true
is_shown saves s = s.edit_open
is_shown adds_member s = s.members_open
is_shown previews s = s.discover_open
is_shown imports s = s.discover_open
is_shown sends s = s.chat_open
is_shown checks_keys s = s.check_open
is_shown confirms_delete s = is_some s.deleting
is_shown confirms_member s = is_some s.deleting_member

-- A dialog that is not there confirms nothing.
confirms_hidden :
    (engine : Engine) (s : State)
    → (is_shown confirms_delete s ≡ false → advance (on_event engine confirms_delete) s ≡ (s, none))
      × (is_shown confirms_member s ≡ false
          → advance (on_event engine confirms_member) s ≡ (s, none))
unfolding is_shown on_event confirm_delete confirm_delete_member is_some advance
confirms_hidden engine s = ground arith
