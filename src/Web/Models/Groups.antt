-- ===== src/Web/Models/Groups.antt =====
-- Channels: the drawer that creates and edits one, the test of one, and its removal.
use ai_api_proxy.Common.{
  List, [], ◌∷◌, ◌++◌, map, true, false, ◌==◌, length, if◌then◌else◌, Option, none, some, ok,
  throws,
}
use ai_api_proxy.Common.Strings.{JsString, js}
use ai_api_proxy.Json.{Members, null, string, array, object, field, end, to_object}
use ai_api_proxy.Web.Api.{groups_create, groups_update, groups_remove, groups_test, GroupFields}
use ai_api_proxy.Web.Models.State.{State, toast, toast_failure, refetch_groups}
use ai_api_proxy.Web.Objects.{property, without, with_property}
use ai_api_proxy.Web.Process.{Handler, api, state, update, perform, done, ◌>>◌, ◌>>=◌}
use ai_api_proxy.Web.Toasts.{success, failure}
use ai_api_proxy.Web.Types
use ai_api_proxy.Web.Values.{Value, Double, Engine, trim, decimal}

abbrev Params : Type 0
Params = List (JsString × Value)

-- `transportOptions` and `pluginOptions`, as labels and values
unfoldable pub transport_options : State → List (JsString × JsString)
transport_options s =
    (js "direct", [])
    ∷ elim s.transports_data [ none ↦ [] | some ts ↦ map (λ t. (t.name, t.name)) ts ]

unfoldable pub plugin_choices : List Types.PackageInfo → List (JsString × JsString)
plugin_choices [] = []
plugin_choices (p ∷ ps) =
    let rest = plugin_choices ps in
    let label = if length p.title == 0 then p.name else p.title in
    if p.has_protocol then (label, p.name) ∷ rest else rest

unfoldable pub plugin_options : State → List (JsString × JsString)
unfolding plugin_choices
plugin_options s = elim s.packages_data [ none ↦ [] | some ps ↦ plugin_choices ps ]

unfoldable pub first_value : List (JsString × JsString) → JsString
first_value [] = []
first_value ((label, value) ∷ options) = value

unfoldable pub open_create : Handler State
unfolding plugin_options first_value
open_create = update (λ s. record s {
  edit_id = none;
  edit_prefix = [];
  edit_plugin = first_value (plugin_options s);
  edit_enabled = true;
  edit_transport = [];
  edit_params_json = js "{}";
  edit_open = true;
})

unfoldable pub string_or : Option Value → JsString → JsString
string_or (some (string s)) other = s
string_or _ other = other

-- The parameters of a parsed object.
unfoldable pub entries : Members Double → Params
entries end = []
entries (field k v ms) = (k, v) ∷ entries ms

module _ (engine : Engine) where
  unfoldable pub params_without_transport : Params → JsString
  unfolding without
  params_without_transport params =
      engine.stringify_indented (to_object (without (js "transport") params))

  unfoldable pub open_edit : Types.ModelGroup → Handler State
  unfolding params_without_transport property string_or
  open_edit row = update (λ s. record s {
    edit_id = some row.id;
    edit_prefix = row.prefix;
    edit_plugin = row.plugin;
    edit_enabled = row.enabled;
    edit_transport = string_or (property row.params (js "transport")) [];
    edit_params_json = params_without_transport row.params;
    edit_open = true;
  })

  -- `if (editTransport.value) params['transport'] = …; else delete params['transport'];` `none` is a
  -- TypeError: null has no properties, and those of the other primitives cannot be set. JSON leaves
  -- out a named property of an array.
  unfoldable pub final_params : Value → JsString → Option Value
  unfolding with_property without entries
  final_params (object ms) transport =
      if length transport == 0
      then some (to_object (without (js "transport") (entries ms)))
      else some (to_object (with_property (js "transport") (string transport) (entries ms)))
  final_params null transport = none
  final_params (array xs) transport = some (array xs)
  final_params v transport = if length transport == 0 then some v else none

  -- The `try` block of `saveEdit` behind its request.
  abbrev saved : JsString → Handler State
  saved text = do toast (success text); update (λ s. record s { edit_open = false }); refetch_groups

  -- `saveEdit` behind the choice of the transport.
  unfoldable pub save_params : Value → Handler State
  unfolding trim
  save_params params = do
    s ← state
    let fields : GroupFields = record {
      prefix = trim s.edit_prefix;
      plugin = s.edit_plugin;
      params = params;
      enabled = s.edit_enabled;
    }
    (if length (trim s.edit_prefix) == 0 then toast (failure (js "前缀不能为空")) else elim s.edit_id [
      | none ↦ do
        reply ← perform (api (groups_create fields))
        (elim reply [ ok answer ↦ saved (js "已创建渠道") | throws e ↦ toast_failure e (js "保存失败") ])
      | some id ↦ do
        reply ← perform (api (groups_update id fields))
        (elim reply [ ok answer ↦ saved (js "已保存") | throws e ↦ toast_failure e (js "保存失败") ])
    ])

  unfoldable pub save_edit : Handler State
  unfolding save_params final_params
  save_edit = do
    s ← state
    (elim (engine.parse s.edit_params_json) [
      | none ↦ toast (failure (js "params 不是合法 JSON"))
      | some v ↦ elim (final_params v s.edit_transport) [
        | none ↦ done
        | some params ↦ save_params params
      ]
    ])

-- `runTest`
unfoldable pub run_test : Types.ModelGroup → Handler State
unfolding decimal
run_test row = do
  reply ← perform (api (groups_test row.id))
  (elim reply [
    | throws e ↦ toast_failure e (js "测试失败")
    | ok result ↦
        if result.ok
        then toast (success (row.prefix ++ (js " 连通 " ++ (decimal result.latency_ms ++ js "ms"))))
        else toast (
            failure
              (row.prefix ++ (js " 失败: " ++ elim result.error [ none ↦ js "未知错误" | some e ↦ e ])))
  ])

-- `deleting.value = row`, and `confirmDelete`
unfoldable pub ask_delete : Types.ModelGroup → Handler State
ask_delete row = update (λ s. record s { deleting = some row })

unfoldable pub confirm_delete : Handler State
confirm_delete = do
  s ← state
  (elim s.deleting [
    | none ↦ done
    | some row ↦ do
      reply ← perform (api (groups_remove row.id))
      (elim reply [
        | throws e ↦ toast_failure e (js "删除失败")
        | ok answer ↦ do
          toast (success (js "已删除"))
          update (λ s. record s { deleting = none })
          refetch_groups
      ])
  ])
