-- ===== src/Web/Models/Discovery.antt =====
-- The discovery of the models of a channel: rules, preview and import.
use ai_api_proxy.Common.{
  ℕ, List, [], ◌∷◌, ◌++◌, map, Bool, true, false, ◌||◌, ◌==◌, length, if◌then◌else◌, Option, none,
  some, ok, throws,
}
use ai_api_proxy.Common.Strings.{JsString, js}
use ai_api_proxy.Web.Api.{groups_discover}
use ai_api_proxy.Web.Models.State.{
  State, RuleRow, default_limit, toast, toast_failure, refetch_groups, refetch_members,
}
use ai_api_proxy.Web.Process.{Handler, api, state, update, perform, done, ◌>>◌, ◌>>=◌}
use ai_api_proxy.Web.Toasts.{success}
use ai_api_proxy.Web.Types
use ai_api_proxy.Web.Types.{only, exclude, rename, limit}
use ai_api_proxy.Web.Values.{decimal}

abbrev pub empty_rule : RuleRow
empty_rule = record { op = only; regex = []; from = []; to = []; limit = none }

unfoldable pub open_discover : Types.ModelGroup → Handler State
open_discover row = update (λ s. record s {
  discover_group = some row;
  discover_rules = empty_rule ∷ [];
  discover_enabled = false;
  discover_preview = none;
  discover_fetched = 0;
  discover_open = true;
})

-- The fields that are left out are undefined.
abbrev no_fields : Types.RuleOp → Types.DiscoveryRule
no_fields op = record { op = op; regex = none; from = none; to = none; limit = none }

unfoldable pub request_rule : RuleRow → Types.DiscoveryRule
request_rule r = elim r.op [
  | rename ↦ record (no_fields rename) { from = some r.from; to = some r.to }
  | limit ↦ record (no_fields limit) {
    limit = some (elim r.limit [ none ↦ default_limit | some n ↦ n ]);
  }
  | only ↦ record (no_fields only) { regex = some r.regex }
  | exclude ↦ record (no_fields exclude) { regex = some r.regex }
]

unfoldable pub to_request_rules : List RuleRow → List Types.DiscoveryRule
unfolding request_rule
to_request_rules rules = map request_rule rules

-- `membersGroup.value?.id === discoverGroup.value.id`; a group that is null by then is a TypeError.
unfoldable pub is_shown : Option Types.ModelGroup → Option Types.ModelGroup → Bool
is_shown (some a) (some b) = a.id == b.id
is_shown _ _ = false

unfoldable pub applied_counts : Types.DiscoveryResult → ℕ × ℕ
applied_counts r = elim r.applied [ none ↦ (0, 0) | some a ↦ (a.created, a.skipped) ]

unfoldable pub import_text : Types.DiscoveryResult → JsString
unfolding applied_counts decimal
import_text result =
    let (created, skipped) = applied_counts result in
    js "导入完成: 新建 " ++ (decimal created ++ (js ",跳过 " ++ decimal skipped))

unfoldable pub preview_text : Types.DiscoveryResult → JsString
unfolding decimal
preview_text result =
    js "上游共 "
    ++ (decimal result.fetched_total
        ++ (js " 个模型,匹配 " ++ (decimal (length result.models) ++ js " 个")))

-- The branch of an import.
unfoldable pub imported : Types.DiscoveryResult → Handler State
unfolding import_text is_shown
imported result = do
  toast (success (import_text result))
  refetch_groups
  s ← state
  (if is_shown s.members_group s.discover_group then refetch_members else done)
  update (λ s. record s { discover_open = false })

-- What `runDiscover` does with a result.
unfoldable pub discovered : Bool → Types.DiscoveryResult → Handler State
unfolding imported preview_text
discovered apply result = do
  update (λ s. record s {
    discover_preview = some result.models;
    discover_fetched = result.fetched_total;
  })
  (if apply then imported result else toast (success (preview_text result)))

-- `!apply && discoverPreview.value !== null`
unfoldable pub has_preview : Bool → Option (List Types.DiscoveryHit) → Bool
has_preview true preview = false
has_preview false none = false
has_preview false (some hits) = true

unfoldable pub run_discover : Bool → Handler State
unfolding discovered to_request_rules has_preview
run_discover apply = do
  s ← state
  (elim s.discover_group [
    | none ↦ done
    | some group ↦ if s.discover_busy || has_preview apply s.discover_preview then done else do
      update (λ s. record s { discover_busy = true })
      reply ← perform (
          api
            (groups_discover group.id (to_request_rules s.discover_rules) s.discover_enabled apply))
      (elim reply [ ok result ↦ discovered apply result | throws e ↦ toast_failure e (js "发现失败") ])
      update (λ s. record s { discover_busy = false })
  ])
