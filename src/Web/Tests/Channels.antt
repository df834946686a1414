-- ===== src/Web/Tests/Channels.antt =====
-- The channels page: two clicks on the button of the chat test, and an answer that is an error.
use ai_api_proxy.Json.{string, to_object}
use ai_api_proxy.Web.Models.Editing.{HasTransport, rest_of, open_edit-final_params}
use ai_api_proxy.Web.Models.Groups.{open_edit, final_params}
use ai_api_proxy.Web.Objects.{Properties, property, without}
use ai_api_proxy.Web.Values.{Engine, Value, double}
use ai_api_proxy.Common.{inr, arith, ◌∷◌}
use ai_api_proxy.Common.{◌≤◌, [], true, false, none, some, throws, ◌≡◌, refl}
use ai_api_proxy.Common.Strings.{JsString, js}
use ai_api_proxy.Web.Http.{error}
use ai_api_proxy.Web.Process.{Page, Waiting, enqueue, advance, here, Reach}
use ai_api_proxy.Web.Process.Locks.{holders}
use ai_api_proxy.Web.Process.Locks.Reach.{count_guarded}
use ai_api_proxy.Web.Tests.Steps.{called, call, answer, first_of}
use ai_api_proxy.Web.Types
use ai_api_proxy.Web.Models.State.{State, default_limit}
use ai_api_proxy.Web.Models.Locks.{
  clicks, chat_runs, chat_flag, flag_of, guarded_by, start, at_rest, one_request, flags_clear,
}
use ai_api_proxy.Common.{map}
use ai_api_proxy.Web.Api.{groups_discover}
use ai_api_proxy.Web.Process.{api}
use ai_api_proxy.Web.Models.Locks.{discover_opens, handler_of}
use ai_api_proxy.Web.Models.Markup.{imports, in_rule, selects_op, types_limit, on_event}
use ai_api_proxy.Web.Models.Requests.{
  used, in_table, in_template, AllAsked, is_filled, keeps_min, limits_positive, requests_filled,
}
use ai_api_proxy.Web.Tests.Engine.{sample_engine}

abbrev sample : State
sample = record {
  toasts = [];
  groups_data = none;
  packages_data = none;
  transports_data = none;
  members_data = none;
  edit_open = false;
  edit_id = none;
  edit_prefix = [];
  edit_plugin = [];
  edit_enabled = true;
  edit_transport = [];
  edit_params_json = [];
  chat_open = true;
  chat_group_id = some 7;
  chat_group_label = js "gemini";
  chat_message = js "hello";
  chat_busy = false;
  chat_result = [];
  deleting = none;
  check_open = false;
  check_group = none;
  check_mode = Types.probe;
  check_message = [];
  check_busy = false;
  check_report = none;
  members_open = false;
  members_group = none;
  new_member_name = [];
  new_member_enabled = false;
  member_busy = false;
  deleting_member = none;
  discover_open = false;
  discover_group = none;
  discover_rules = [];
  discover_enabled = false;
  discover_busy = false;
  discover_preview = none;
  discover_fetched = 0;
}

abbrev clicked : Page State
clicked = called (start sample_engine) (clicks chat_runs) (at_rest sample)

abbrev clicked_twice : Page State
clicked_twice = called (start sample_engine) (clicks chat_runs) clicked

one_request_example :
    count_guarded (guarded_by chat_flag) clicked_twice.waiting
    ≤ holders (flag_of chat_flag clicked_twice.state)
one_request_example = one_request sample_engine chat_flag sample refl clicked_twice (
    call (start sample_engine) (clicks chat_runs)
      (call (start sample_engine) (clicks chat_runs) here))

test_clicked_twice : count_guarded (guarded_by chat_flag) clicked_twice.waiting ≡ 1
unfolding start advance enqueue count_guarded
test_clicked_twice = refl

-- The chat test alone, and what it waits for.
waiting_test : Waiting State
unfolding start advance enqueue
waiting_test = first_of clicked

abbrev busy : State
busy = record sample { chat_busy = true }

-- The page after the answer to it.
answered : Page State
unfolding start advance enqueue waiting_test
answered = enqueue (advance (waiting_test.next (throws (error (js "offline")))) busy) []

answered-Reach : Reach (start sample_engine) (at_rest sample) answered
unfolding start advance enqueue waiting_test answered
answered-Reach =
    answer (start sample_engine) busy waiting_test (throws (error (js "offline")))
      (call (start sample_engine) (clicks chat_runs) here)

answered_at_rest : answered.waiting ≡ []
unfolding start advance enqueue waiting_test answered
answered_at_rest = refl

flags_clear_example : flag_of chat_flag answered.state ≡ false
flags_clear_example =
    flags_clear sample_engine chat_flag sample refl answered answered-Reach answered_at_rest

abbrev group : Types.ModelGroup
group = record { id = 7; prefix = js "g/"; plugin = js "gemini"; params = []; enabled = true }

abbrev member : Types.GroupMember
member = record { id = 3; group_id = 7; name = js "flash"; enabled = false }

abbrev transports : Properties Value
transports = (js "transport", string (js "proxy")) ∷ []

abbrev proxied : Types.ModelGroup
proxied = record group { params = transports }

-- It reads "?", which is what it writes of an object, as an empty object.
abbrev reading_engine : Engine
reading_engine = record sample_engine { parse = λ s. some (to_object []) }

test_reads :
    reading_engine.parse (reading_engine.stringify_indented (to_object (rest_of transports)))
    ≡ some (to_object (rest_of transports))
unfolding without
test_reads = refl

test_transport : HasTransport transports
unfolding property
test_transport = inr (js "proxy", refl, omega arith)

open_edit-final_params_example :
    let opened = (advance (open_edit reading_engine proxied) sample).0 in
    (v : Value) × (ps : Properties Value) × (reading_engine.parse opened.edit_params_json ≡ some v)
    × (final_params reading_engine v opened.edit_transport ≡ some (to_object ps))
    × ((name : JsString) → property ps name ≡ property transports name)
open_edit-final_params_example =
    open_edit-final_params reading_engine proxied sample test_reads test_transport

test_imports : keeps_min imports ≡ true
unfolding keeps_min
test_imports = refl

test_selects : keeps_min (in_rule 0 (selects_op Types.limit)) ≡ true
unfolding keeps_min
test_selects = refl

-- The input of a limit takes 2.5, and 0.5 it does not.
test_fraction : keeps_min (in_rule 0 (types_limit (some (double 0x4004000000000000)))) ≡ true
unfolding keeps_min
test_fraction = refl

test_half : keeps_min (in_rule 0 (types_limit (some (double 0x3fe0000000000000)))) ≡ false
unfolding keeps_min
test_half = refl

-- The discovery of the channel is opened, its rule becomes a limit, and the import is started.
abbrev discovering : Page State
discovering = called (used sample_engine) (in_template imports test_imports) (
    called (used sample_engine) (in_template (in_rule 0 (selects_op Types.limit)) test_selects)
      (called (used sample_engine) (in_table (discover_opens group)) (at_rest sample)))

requests_filled_example : AllAsked is_filled discovering.waiting
unfolding limits_positive
requests_filled_example = requests_filled sample_engine sample refl discovering (
    call (used sample_engine) (in_template imports test_imports) (
      call (used sample_engine) (in_template (in_rule 0 (selects_op Types.limit)) test_selects)
        (call (used sample_engine) (in_table (discover_opens group)) here)))

-- The request is waited for, with a limit of 50.
test_discovering :
    map (λ w. w.effect) discovering.waiting
    ≡ api (
        groups_discover group.id
          (record {
            op = Types.limit;
            regex = none;
            from = none;
            to = none;
            limit = some default_limit;
          }
            ∷ [])
          false
          true)
      ∷ []
unfolding used on_event handler_of advance enqueue
test_discovering = refl
