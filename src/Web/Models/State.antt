-- ===== src/Web/Models/State.antt =====
-- The variables of ModelsPage.vue, and what its handlers share.
use ai_api_proxy.Common.{ℕ, List, [], ◌∷◌, ◌++◌, Bool, Option}
use ai_api_proxy.Common.Strings.{JsString, js}
use ai_api_proxy.Web.Http.{Failure, message_of}
use ai_api_proxy.Web.Process.{Handler, update, perform, refetch}
use ai_api_proxy.Web.Toasts.{Toast, failure}
use ai_api_proxy.Web.Types
use ai_api_proxy.Web.Values.{Double, double}

-- The limit 50, by its bits.
abbrev pub default_limit : Double
default_limit = double 0x4049000000000000

-- A row of the rules of a discovery.
pub record RuleRow : Type 0 where
  pub op : Types.RuleOp
  pub regex : JsString
  pub from : JsString
  pub to : JsString
  pub limit : Option Double

-- One field for each `ref`, and the data of the queries.
pub record State : Type 0 where
  pub toasts : List Toast
  pub groups_data : Option (List Types.ModelGroup)
  pub packages_data : Option (List Types.PackageInfo)
  pub transports_data : Option (List Types.Transport)
  pub members_data : Option (List Types.GroupMember)
  pub edit_open : Bool
  pub edit_id : Option ℕ
  pub edit_prefix : JsString
  pub edit_plugin : JsString
  pub edit_enabled : Bool
  pub edit_transport : JsString
  pub edit_params_json : JsString
  pub chat_open : Bool
  pub chat_group_id : Option ℕ
  pub chat_group_label : JsString
  pub chat_message : JsString
  pub chat_busy : Bool
  pub chat_result : JsString
  pub deleting : Option Types.ModelGroup
  pub check_open : Bool
  pub check_group : Option Types.ModelGroup
  pub check_mode : Types.KeysCheckMode
  pub check_message : JsString
  pub check_busy : Bool
  pub check_report : Option Types.KeysCheckReport
  pub members_open : Bool
  pub members_group : Option Types.ModelGroup
  pub new_member_name : JsString
  pub new_member_enabled : Bool
  pub member_busy : Bool
  pub deleting_member : Option Types.GroupMember
  pub discover_open : Bool
  pub discover_group : Option Types.ModelGroup
  pub discover_rules : List RuleRow
  pub discover_enabled : Bool
  pub discover_busy : Bool
  pub discover_preview : Option (List Types.DiscoveryHit)
  pub discover_fetched : ℕ

abbrev pub toast : Toast → Handler State
toast t = update (λ s. record s { toasts = s.toasts ++ t ∷ [] })

-- `message.error(err instanceof Error ? err.message : text)`
abbrev pub toast_failure : Failure → JsString → Handler State
toast_failure e text = toast (failure (message_of e text))

abbrev pub refetch_groups : Handler State
refetch_groups = perform (refetch (js "groups"))

abbrev pub refetch_members : Handler State
refetch_members = perform (refetch (js "members"))
