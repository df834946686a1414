-- ===== src/Web/Models/Requests.antt =====
-- What the page of the channels asks of the server.
use ai_api_proxy.Common.{
  ℕ, zero, suc, List, [], ◌∷◌, ◌++◌, Bool, true, false, not, ◌&&◌, ◌==◌, leb, length, Option, none,
  some, All, ◌≡◌, refl, ap, ◌∙◌, arith,
}
use ai_api_proxy.Common.Strings.{JsString}
use ai_api_proxy.Web.Api.{
  groups_create, groups_update, groups_chat_test, groups_create_member, groups_discover,
}
use ai_api_proxy.Web.Models.Discovery.{
  open_discover, run_discover, empty_rule, request_rule, to_request_rules,
}
use ai_api_proxy.Web.Models.Groups.{open_create, save_edit, confirm_delete}
use ai_api_proxy.Web.Models.Members.{add_member, confirm_delete_member}
use ai_api_proxy.Web.Models.Tests.{run_chat_test, run_keys_check}
use ai_api_proxy.Web.Models.Locks.{
  Click, handler_of, at_rest, create, edit, save, test, delete, confirms, chat_opens, chat_runs,
  check_opens, check_runs, members_opens, member_adds, member_toggles, member_deletes,
  member_confirms, discover_opens, discover_runs,
}
use ai_api_proxy.Web.Models.Markup.{
  Event, Edit, edits, assign, in_rule, types_limit, on_event, RuleInput, edit_rule, edit_rules,
  without_rule, creates, saves, adds_member, removes_rule, adds_rule, previews, imports, sends,
  checks_keys, confirms_delete, confirms_member,
}
use ai_api_proxy.Web.Models.State.{State, RuleRow}
use ai_api_proxy.Web.Process.{Effect, api, Handler, Page, Reach, update, Waiting}
use ai_api_proxy.Web.Process.Requests.{Asks, IsAsking, Reach-IsSound}
use ai_api_proxy.Web.Types
use ai_api_proxy.Web.Types.{only, exclude, rename, limit}
use ai_api_proxy.Web.Values.{Double, double, Engine, trim}

-- The bits of 1 and of infinity. The positive numbers are ordered as their bits.
abbrev one_bits : ℕ
one_bits = 0x3ff0000000000000

abbrev infinity_bits : ℕ
infinity_bits = 0x7ff0000000000000

unfoldable pub at_least_one : Double → Bool
at_least_one (double bits) = leb one_bits bits && leb bits infinity_bits

unfoldable pub is_positive : Option Double → Bool
unfolding at_least_one
is_positive none = true
is_positive (some n) = at_least_one n

unfoldable pub limits_positive : List RuleRow → Bool
unfolding is_positive
limits_positive [] = true
limits_positive (r ∷ rs) = is_positive r.limit && limits_positive rs

unfoldable pub is_given : Option JsString → Bool
is_given none = false
is_given (some s) = true

-- A rule has the fields of its operation, and a limit of one at least.
unfoldable pub is_complete : Types.DiscoveryRule → Bool
unfolding is_given at_least_one
is_complete r = elim r.op [
  | only ↦ is_given r.regex
  | exclude ↦ is_given r.regex
  | rename ↦ is_given r.from && is_given r.to
  | limit ↦ elim r.limit [ none ↦ false | some n ↦ at_least_one n ]
]

unfoldable pub all_complete : List Types.DiscoveryRule → Bool
unfolding is_complete
all_complete [] = true
all_complete (r ∷ rs) = is_complete r && all_complete rs

-- A request names what it is about: a channel its prefix, a model its name, a test its message, a
-- discovery complete rules.
unfoldable pub is_filled : Effect → Bool
unfolding all_complete
is_filled (api (groups_create fields)) = not (length fields.prefix == 0)
is_filled (api (groups_update id fields)) = not (length fields.prefix == 0)
is_filled (api (groups_chat_test id message)) = not (length (trim message) == 0)
is_filled (api (groups_create_member id name enabled)) = not (length name == 0)
is_filled (api (groups_discover id rules enabled apply)) = all_complete rules
is_filled _ = true

-- `:min="1"` of the input of a limit: it gives no number below one.
unfoldable pub keeps_min : Event → Bool
unfolding is_positive
keeps_min (in_rule i (types_limit n)) = is_positive n
keeps_min _ = true

-- The data of a query arrive.
pub data Arrival : Type 0 where
  groups_arrive : List Types.ModelGroup → Arrival
  packages_arrive : List Types.PackageInfo → Arrival
  transports_arrive : List Types.Transport → Arrival
  members_arrive : List Types.GroupMember → Arrival

-- What happens to the page: clicks in the tables, events of the template, and arrivals.
pub data Use : Type 0 where
  in_table : Click → Use
  in_template : (e : Event) → keeps_min e ≡ true → Use
  arrives : Arrival → Use

unfoldable pub arrive : Arrival → Handler State
arrive (groups_arrive xs) = update (λ s. record s { groups_data = some xs })
arrive (packages_arrive xs) = update (λ s. record s { packages_data = some xs })
arrive (transports_arrive xs) = update (λ s. record s { transports_data = some xs })
arrive (members_arrive xs) = update (λ s. record s { members_data = some xs })

unfoldable pub used : Engine → Use → Handler State
unfolding handler_of on_event arrive
used engine (in_table c) = handler_of engine c
used engine (in_template e h) = on_event engine e
used engine (arrives a) = arrive a

abbrev pub invariant : State → Bool
invariant s = limits_positive s.discover_rules

is_complete-request_rule :
    (r : RuleRow) → is_positive r.limit ≡ true → is_complete (request_rule r) ≡ true
unfolding is_complete is_given request_rule is_positive at_least_one
is_complete-request_rule r h = ground arith

all_complete-to_request_rules :
    (rs : List RuleRow) → limits_positive rs ≡ true → all_complete (to_request_rules rs) ≡ true
unfolding all_complete to_request_rules limits_positive
all_complete-to_request_rules [] h = refl
all_complete-to_request_rules (r ∷ rs) h =
    ground (arith, is_complete-request_rule r, all_complete-to_request_rules rs)

limits_positive-append :
    (rs : List RuleRow) → limits_positive rs ≡ true → limits_positive (rs ++ empty_rule ∷ []) ≡ true
unfolding limits_positive is_positive
limits_positive-append [] h = refl
limits_positive-append (r ∷ rs) h = ground (arith, limits_positive-append rs)

limits_positive-without_rule :
    (i : ℕ) (rs : List RuleRow)
    → limits_positive rs ≡ true
    → limits_positive (without_rule i rs) ≡ true
unfolding limits_positive without_rule
limits_positive-without_rule i [] h = refl
limits_positive-without_rule zero (r ∷ rs) h = ground arith
limits_positive-without_rule (suc i) (r ∷ rs) h = ground (arith, limits_positive-without_rule i rs)

limits_positive-edit_rules :
    (i : ℕ) (input : RuleInput) (rs : List RuleRow)
    → keeps_min (in_rule i input) ≡ true
    → limits_positive rs ≡ true
    → limits_positive (edit_rules i input rs) ≡ true
unfolding limits_positive edit_rules edit_rule keeps_min is_positive at_least_one
limits_positive-edit_rules i input [] m h = refl
limits_positive-edit_rules zero input (r ∷ rs) m h = ground arith
limits_positive-edit_rules (suc i) input (r ∷ rs) m h =
    ground (arith, limits_positive-edit_rules i input rs)

run_discover-Asks : (apply : Bool) → Asks invariant is_filled (run_discover apply)
unfolding run_discover is_filled
run_discover-Asks apply s h = ground (arith, all_complete-to_request_rules s.discover_rules h)

save_edit-Asks : (engine : Engine) → Asks invariant is_filled (save_edit engine)
unfolding save_edit is_filled
save_edit-Asks engine = ground arith

run_chat_test-Asks : (engine : Engine) → Asks invariant is_filled (run_chat_test engine)
unfolding run_chat_test is_filled
run_chat_test-Asks engine = ground arith

add_member-Asks : Asks invariant is_filled add_member
unfolding add_member is_filled
add_member-Asks = ground arith

confirm_delete-Asks : Asks invariant is_filled confirm_delete
unfolding confirm_delete is_filled
confirm_delete-Asks = ground arith

confirm_delete_member-Asks : Asks invariant is_filled confirm_delete_member
unfolding confirm_delete_member is_filled
confirm_delete_member-Asks = ground arith

run_keys_check-Asks : Asks invariant is_filled run_keys_check
unfolding run_keys_check is_filled
run_keys_check-Asks = ground arith

open_discover-Asks : (row : Types.ModelGroup) → Asks invariant is_filled (open_discover row)
unfolding open_discover is_filled limits_positive is_positive
open_discover-Asks row = ground arith

handler_of-Asks : (engine : Engine) (c : Click) → Asks invariant is_filled (handler_of engine c)
unfolding handler_of is_filled
handler_of-Asks engine save = save_edit-Asks engine
handler_of-Asks engine confirms = confirm_delete-Asks
handler_of-Asks engine chat_runs = run_chat_test-Asks engine
handler_of-Asks engine check_runs = run_keys_check-Asks
handler_of-Asks engine member_adds = add_member-Asks
handler_of-Asks engine member_confirms = confirm_delete_member-Asks
handler_of-Asks engine (discover_opens row) = open_discover-Asks row
handler_of-Asks engine (discover_runs apply) = run_discover-Asks apply
handler_of-Asks engine create = ground arith
handler_of-Asks engine (edit row) = ground arith
handler_of-Asks engine (test row) = ground arith
handler_of-Asks engine (delete row) = ground arith
handler_of-Asks engine (chat_opens row) = ground arith
handler_of-Asks engine (check_opens row) = ground arith
handler_of-Asks engine (members_opens row) = ground arith
handler_of-Asks engine (member_toggles member) = ground arith
handler_of-Asks engine (member_deletes member) = ground arith

assign-discover_rules : (e : Edit) (s : State) → (assign e s).discover_rules ≡ s.discover_rules
unfolding assign
assign-discover_rules e s = ground arith

on_event-Asks :
    (engine : Engine) (e : Event)
    → keeps_min e ≡ true
    → Asks invariant is_filled (on_event engine e)
unfolding on_event open_create
on_event-Asks engine (edits e) m = (λ s h. ap limits_positive (assign-discover_rules e s) ∙ h, tt)
on_event-Asks engine (in_rule i input) m =
    (λ s h. limits_positive-edit_rules i input s.discover_rules m h, tt)
on_event-Asks engine (removes_rule i) m =
    (λ s h. limits_positive-without_rule i s.discover_rules h, tt)
on_event-Asks engine adds_rule m = (λ s h. limits_positive-append s.discover_rules h, tt)
on_event-Asks engine creates m = (λ s h. h, tt)
on_event-Asks engine saves m = save_edit-Asks engine
on_event-Asks engine adds_member m = add_member-Asks
on_event-Asks engine previews m = (λ s h. h, run_discover-Asks false)
on_event-Asks engine imports m = run_discover-Asks true
on_event-Asks engine sends m = run_chat_test-Asks engine
on_event-Asks engine checks_keys m = run_keys_check-Asks
on_event-Asks engine confirms_delete m = confirm_delete-Asks
on_event-Asks engine confirms_member m = confirm_delete_member-Asks

used-Asks : (engine : Engine) (u : Use) → Asks invariant is_filled (used engine u)
unfolding used arrive
used-Asks engine (in_table c) = handler_of-Asks engine c
used-Asks engine (in_template e m) = on_event-Asks engine e m
used-Asks engine (arrives (groups_arrive xs)) = (λ s h. h, tt)
used-Asks engine (arrives (packages_arrive xs)) = (λ s h. h, tt)
used-Asks engine (arrives (transports_arrive xs)) = (λ s h. h, tt)
used-Asks engine (arrives (members_arrive xs)) = (λ s h. h, tt)

-- Something holds of all that a page waits for.
abbrev pub AllAsked : (Effect → Bool) → List (Waiting State) → Type 0
AllAsked good [] = Unit
AllAsked good (w ∷ ws) = (good w.effect ≡ true) × AllAsked good ws

asked : (ws : List (Waiting State)) → All (IsAsking invariant is_filled) ws → AllAsked is_filled ws
asked [] h = tt
asked (w ∷ ws) (a, h) = (a.0, asked ws h)

-- In every order of clicks, events of the template, arrivals of data and answers that begins on a
-- page at rest whose rules have no limit below one: the page asks for no channel with an empty
-- prefix, no model with an empty name, no test of a channel with a blank message, and no discovery
-- with a rule that lacks a field of its operation or has a limit below one. The input of a limit
-- gives no number below its least.
pub requests_filled :
    (engine : Engine) (s : State)
    → invariant s ≡ true
    → (p : Page State) → Reach (used engine) (at_rest s) p
    → AllAsked is_filled p.waiting
requests_filled engine s h p r =
    asked p.waiting (Reach-IsSound invariant is_filled (used engine) (used-Asks engine) r (h, tt)).1
