-- ===== src/Web/Api.antt =====
-- web/src/services/api.ts: one constructor for each function that sends a request, what it
-- answers, and the request.
pub mod Requests
use ai_api_proxy.Common.{
  ℕ, List, [], ◌∷◌, ◌++◌, map, Bool, true, false, Bytes, ◌==◌, length, if◌then◌else◌, Option, none,
  some, Outcome, ok, throws, ◌>>=◌,
}
use ai_api_proxy.Common.Strings.{JsString, js}
use ai_api_proxy.Json.{null, boolean, number, string, array, to_object, to_items}
use ai_api_proxy.Web.Http.{Failure, error, FetchRequest, get, post, post_raw, put, del}
use ai_api_proxy.Web.Types
use ai_api_proxy.Web.Values.{Value, Engine, decimal}

-- The body of `saveSettings` for a task.
pub record TaskOverride : Type 0 where
  pub cron : JsString
  pub disabled : Bool

-- `Omit<ModelGroup, 'id'>`
pub record GroupFields : Type 0 where
  pub prefix : JsString
  pub plugin : JsString
  pub params : Value
  pub enabled : Bool

pub data Scope : Type 0 where
  lease egress : Scope

pub data Api : Type 0 where
  groups_list : Api
  groups_create : GroupFields → Api
  groups_update : ℕ → GroupFields → Api
  groups_remove : ℕ → Api
  groups_test : ℕ → Api
  groups_chat_test : ℕ → JsString → Api
  groups_keys_check : ℕ → Types.KeysCheckMode → Option JsString → Api
  groups_members : ℕ → Api
  groups_create_member : ℕ → JsString → Bool → Api
  groups_update_member : ℕ → ℕ → JsString → Bool → Api
  groups_remove_member : ℕ → Api
  groups_discover : ℕ → List Types.DiscoveryRule → Bool → Bool → Api
  packages_list : Api
  packages_install : Bytes → Api
  packages_inspect_bytes : Bytes → Api
  packages_inspect_url : JsString → Api
  packages_import_url : JsString → Api
  packages_remove : JsString → Api
  packages_enable : JsString → Bool → Api
  packages_settings : JsString → Api
  packages_save_settings :
      JsString → List (JsString × Value) → List (JsString × TaskOverride) → ℕ → Api
  packages_run_task : JsString → JsString → JsString → Api
  keys_list : JsString → Api
  keys_write : JsString → JsString → Value → ℕ → Api
  keys_remove : JsString → JsString → Api
  creds_login : JsString → Value → Api
  creds_accounts : JsString → Api
  creds_storage_get : JsString → JsString → Api
  creds_storage_set : JsString → JsString → JsString → Api
  creds_meta : JsString → Api
  metrics_live : Api
  metrics_series : ℕ → Api
  history_query : List (JsString × JsString) → Api
  history_detail : ℕ → Api
  transports_list : Api
  transports_test : JsString → Api
  transports_evict : JsString → Scope → JsString → Api
  subscriptions_list : Api
  subscriptions_create : Types.SubscriptionCreate → Api
  subscriptions_remove : ℕ → Api
  subscriptions_sync : ℕ → Api

-- The type argument of the request. What the console does not read of an answer is left out.
abbrev pub Answer : Api → Type 0
Answer groups_list = List Types.ModelGroup
Answer (groups_test _) = Types.TestResult
Answer (groups_chat_test _ _) = Types.ChatTestResult
Answer (groups_keys_check _ _ _) = Types.KeysCheckReport
Answer (groups_members _) = List Types.GroupMember
Answer (groups_discover _ _ _ _) = Types.DiscoveryResult
Answer packages_list = List Types.PackageInfo
Answer (packages_inspect_bytes _) = Types.InspectSummary
Answer (packages_inspect_url _) = Types.InspectSummary
Answer (packages_settings _) = Types.PackageSettings
Answer (packages_save_settings _ _ _ _) = ℕ
Answer (packages_run_task _ _ _) = List Types.TaskResultRow
Answer (keys_list _) = Types.KeysView
Answer (keys_write _ _ _ _) = ℕ
Answer (creds_login _ _) = JsString × Value
Answer (creds_accounts _) = Types.AccountsView
Answer (creds_storage_get _ _) = Value
Answer (creds_meta _) = Types.MetaView
Answer metrics_live = Types.MetricsLive
Answer (metrics_series _) = List Types.MetricsSeriesRow
Answer (history_query _) = Types.HistoryPage
Answer (history_detail _) = Types.HistoryEntry
Answer transports_list = List Types.Transport
Answer (transports_test _) = Types.TestResult
Answer subscriptions_list = List Types.Subscription
Answer _ = Unit
