-- ===== src/Web/Api/Requests.antt =====
-- The request of each function of web/src/services/api.ts.
use ai_api_proxy.Common.{
  ℕ, List, [], ◌∷◌, ◌++◌, map, ◌==◌, length, if◌then◌else◌, Option, none, some, Outcome, ok, throws,
  ◌>>=◌,
}
use ai_api_proxy.Common.Strings.{JsString, js}
use ai_api_proxy.Json.{boolean, number, string, array, to_object, to_items}
use ai_api_proxy.Web.Api
use ai_api_proxy.Web.Api.{Scope, lease, egress, TaskOverride, GroupFields}
use ai_api_proxy.Web.Http.{Failure, error, FetchRequest, get, post, post_raw, put, del}
use ai_api_proxy.Web.Types
use ai_api_proxy.Web.Types.{only, exclude, rename, limit, probe, chat}
use ai_api_proxy.Web.Values.{Value, Engine, decimal}

abbrev Field : Type 0
Field = JsString × Value

-- A field that is left out of the JSON if it is undefined.
unfoldable pub optional : JsString → Option JsString → List Field
optional key none = []
optional key (some s) = (key, string s) ∷ []

unfoldable pub op_name : Types.RuleOp → JsString
op_name only = js "only"
op_name exclude = js "exclude"
op_name rename = js "rename"
op_name limit = js "limit"

unfoldable pub scope_name : Scope → JsString
scope_name lease = js "lease"
scope_name egress = js "egress"

unfoldable pub mode_name : Types.KeysCheckMode → JsString
mode_name probe = js "probe"
mode_name chat = js "chat"

module _ (engine : Engine) where
  unfoldable pub count_json : ℕ → Value
  count_json n = number (engine.from_count n)

  unfoldable pub rule_json : Types.DiscoveryRule → Value
  unfolding optional op_name
  rule_json r = to_object (
      ((js "op", string (op_name r.op)) ∷ [])
      ++ (optional (js "regex") r.regex
          ++ (optional (js "from") r.from
              ++ (optional (js "to") r.to
                  ++ elim r.limit [ none ↦ [] | some n ↦ (js "limit", number n) ∷ [] ]))))

  unfoldable pub group_fields : GroupFields → List Field
  group_fields g =
      (js "prefix", string g.prefix)
      ∷ (js "plugin", string g.plugin)
      ∷ (js "params", g.params)
      ∷ (js "enabled", boolean g.enabled)
      ∷ []

  unfoldable pub subscription_json : Types.SubscriptionCreate → Value
  unfolding optional
  subscription_json s = to_object (
      ((js "name", string s.name) ∷ (js "repo_url", string s.repo_url) ∷ [])
      ++ (optional (js "user") s.user
          ++ (optional (js "path") s.path ++ optional (js "token") s.token)))

  unfoldable pub override_json : TaskOverride → Value
  override_json t =
      to_object ((js "cron", string t.cron) ∷ (js "disabled", boolean t.disabled) ∷ [])

  -- `encodeURIComponent`
  unfoldable pub encode : JsString → Outcome Failure JsString
  encode s = elim (engine.encode_uri_component s) [
    | none ↦ throws (error (js "URI malformed"))
    | some e ↦ ok e
  ]

  unfoldable pub query_text : List (JsString × JsString) → JsString
  query_text fields = engine.search_params fields

  -- `/packages/${encodeURIComponent(name)}…`
  unfoldable pub package_path : JsString → JsString → Outcome Failure JsString
  unfolding encode
  package_path name rest = encode name >>= λ n. ok (js "/packages/" ++ (n ++ rest))

  -- `/packages/…/keys/${encodeURIComponent(key)}`
  unfoldable pub key_path : JsString → JsString → Outcome Failure JsString
  unfolding package_path
  key_path name key = encode key >>= λ k. package_path name (js "/keys/" ++ k)

  -- `${key ? `?key=${encodeURIComponent(key)}` : ''}`
  unfoldable pub key_query : JsString → Outcome Failure JsString
  unfolding encode
  key_query key = if length key == 0 then ok [] else encode key >>= λ k. ok (js "?key=" ++ k)

  unfoldable pub task_path : JsString → JsString → JsString → Outcome Failure JsString
  unfolding package_path key_query
  task_path name task key = do
    t ← encode task
    q ← key_query key
    package_path name (js "/tasks/" ++ (t ++ (js "/run" ++ q)))

  -- `/transports/${encodeURIComponent(name)}…`
  unfoldable pub transport_path : JsString → JsString → Outcome Failure JsString
  unfolding encode
  transport_path name rest = encode name >>= λ n. ok (js "/transports/" ++ (n ++ rest))

  abbrev group_path : ℕ → JsString → JsString
  group_path id rest = js "/groups/" ++ (decimal id ++ rest)

  abbrev storage_json : JsString → JsString → List Field → Value
  storage_json op key more = to_object ((js "op", string op) ∷ (js "key", string key) ∷ more)

  -- `post` and `put` of a path that may fail to be built
  abbrev posts : Outcome Failure JsString → Option Value → Outcome Failure FetchRequest
  posts path body = path >>= λ p. ok (post engine p body)

  abbrev puts : Outcome Failure JsString → Value → Outcome Failure FetchRequest
  puts path body = path >>= λ p. ok (put engine p body)

  abbrev gets : Outcome Failure JsString → Outcome Failure FetchRequest
  gets path = path >>= λ p. ok (get p)

  abbrev dels : Outcome Failure JsString → Outcome Failure FetchRequest
  dels path = path >>= λ p. ok (del p)

  unfoldable pub request_of : Api.Api → Outcome Failure FetchRequest
  unfolding group_fields rule_json count_json package_path key_path task_path transport_path
      scope_name mode_name optional query_text subscription_json override_json get post put del
      post_raw decimal
  request_of Api.groups_list = ok (get (js "/groups"))
  request_of (Api.groups_create g) =
      ok (post engine (js "/groups") (some (to_object (group_fields g))))
  request_of (Api.groups_update id g) =
      ok (put engine (group_path id []) (to_object ((js "id", count_json id) ∷ group_fields g)))
  request_of (Api.groups_remove id) = ok (del (group_path id []))
  request_of (Api.groups_test id) = ok (post engine (group_path id (js "/test")) none)
  request_of (Api.groups_chat_test id message) = ok (
      post engine (group_path id (js "/chat-test"))
        (some (to_object ((js "message", string message) ∷ []))))
  request_of (Api.groups_keys_check id mode message) = ok (
      post engine (group_path id (js "/keys-check"))
        (some (to_object ((js "mode", string (mode_name mode)) ∷ optional (js "message") message))))
  request_of (Api.groups_members id) = ok (get (group_path id (js "/members")))
  request_of (Api.groups_create_member id name enabled) = ok (
      post engine (group_path id (js "/members"))
        (some (to_object ((js "name", string name) ∷ (js "enabled", boolean enabled) ∷ []))))
  request_of (Api.groups_update_member id group_id name enabled) = ok (
      put engine (js "/members/" ++ decimal id) (
        to_object (
          (js "group_id", count_json group_id)
          ∷ (js "name", string name)
          ∷ (js "enabled", boolean enabled)
          ∷ [])))
  request_of (Api.groups_remove_member id) = ok (del (js "/members/" ++ decimal id))
  request_of (Api.groups_discover id rules enabled apply) = ok (
      post engine (group_path id (js "/discover")) (
        some (
          to_object (
            (js "rules", array (to_items (map rule_json rules)))
            ∷ (js "enabled", boolean enabled)
            ∷ (js "apply", boolean apply)
            ∷ []))))
  request_of Api.packages_list = ok (get (js "/packages"))
  request_of (Api.packages_install content) = ok (post_raw (js "/packages") content)
  request_of (Api.packages_inspect_bytes content) = ok (post_raw (js "/packages/inspect") content)
  request_of (Api.packages_inspect_url url) =
      ok (post engine (js "/packages/inspect") (some (to_object ((js "url", string url) ∷ []))))
  request_of (Api.packages_import_url url) =
      ok (post engine (js "/packages/import-url") (some (to_object ((js "url", string url) ∷ []))))
  request_of (Api.packages_remove name) = dels (package_path name [])
  request_of (Api.packages_enable name enabled) =
      posts (package_path name (js "/enable"))
        (some (to_object ((js "enabled", boolean enabled) ∷ [])))
  request_of (Api.packages_settings name) = gets (package_path name (js "/settings"))
  request_of (Api.packages_save_settings name config tasks version) =
      puts (package_path name (js "/settings")) (
        to_object (
          (js "config", to_object config)
          ∷ (js "tasks", to_object (map (λ t. (t.0, override_json t.1)) tasks))
          ∷ (js "version", count_json version)
          ∷ []))
  request_of (Api.packages_run_task name task key) = posts (task_path name task key) none
  request_of (Api.keys_list name) = gets (package_path name (js "/keys"))
  request_of (Api.keys_write name key value base) =
      puts (key_path name key)
        (to_object ((js "value", value) ∷ (js "baseUpdatedAt", count_json base) ∷ []))
  request_of (Api.keys_remove name key) = dels (key_path name key)
  request_of (Api.creds_login name input) =
      posts (package_path name (js "/login")) (some (to_object ((js "input", input) ∷ [])))
  request_of (Api.creds_accounts name) = gets (package_path name (js "/accounts"))
  request_of (Api.creds_storage_get name key) =
      posts (package_path name (js "/accounts/storage")) (some (storage_json (js "get") key []))
  request_of (Api.creds_storage_set name key value) =
      posts (package_path name (js "/accounts/storage"))
        (some (storage_json (js "set") key ((js "value", string value) ∷ [])))
  request_of (Api.creds_meta name) = gets (package_path name (js "/meta"))
  request_of Api.metrics_live = ok (get (js "/metrics/live"))
  request_of (Api.metrics_series minutes) =
      ok (get (js "/metrics/series?minutes=" ++ decimal minutes))
  request_of (Api.history_query fields) = ok (get (js "/history?" ++ query_text fields))
  request_of (Api.history_detail id) = ok (get (js "/history/" ++ decimal id))
  request_of Api.transports_list = ok (get (js "/transports"))
  request_of (Api.transports_test name) = posts (transport_path name (js "/test")) none
  request_of (Api.transports_evict name scope value) =
      posts (transport_path name (js "/evict")) (
        some
          (to_object ((js "scope", string (scope_name scope)) ∷ (js "value", string value) ∷ [])))
  request_of Api.subscriptions_list = ok (get (js "/subscriptions"))
  request_of (Api.subscriptions_create s) =
      ok (post engine (js "/subscriptions") (some (subscription_json s)))
  request_of (Api.subscriptions_remove id) = ok (del (js "/subscriptions/" ++ decimal id))
  request_of (Api.subscriptions_sync id) =
      ok (post engine (js "/subscriptions/" ++ (decimal id ++ js "/sync")) none)

  -- `packageExportUrl` and `loginUIUrl`
  unfoldable pub package_export_url : JsString → Outcome Failure JsString
  unfolding package_path
  package_export_url name = package_path name (js "/export") >>= λ p. ok (js "/admin/api" ++ p)

  unfoldable pub login_ui_url : JsString → Outcome Failure JsString
  unfolding package_path
  login_ui_url name = package_path name (js "/login/ui/") >>= λ p. ok (js "/admin/api" ++ p)
