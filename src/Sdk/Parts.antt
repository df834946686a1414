-- ===== src/Sdk/Parts.antt =====
-- `log`, `util.key`, `loadPart` and `loadPackage`: what a part leaves behind in the test host.
pub mod Keys
use ai_api_proxy.Common.{
  List, [], ◌∷◌, ◌++◌, Bool, true, false, ◌==◌, length, if◌then◌else◌, Option, none, some, Outcome,
  ok, throws, ◌>>=◌,
}
use ai_api_proxy.Common.Strings.{JsString, js}
use ai_api_proxy.Json.{Json, Members, object, end, truthy}

pub data Level : Type 0 where
  info warn error : Level

-- The variables of the module, which all parts share; undefined is `none`.
pub record TestHost (N : Type 0) : Type 0 where
  pub key_store : Option (Json N)
  pub records : List (Level × List (Json N))
  pub storage_data : Members N

-- The options of `loadPackage`, missing ones as `none`.
pub record Opts (N : Type 0) : Type 0 where
  pub entry : Option JsString
  pub router : Bool
  pub config : Option (Json N)
  pub keys : Option (Json N)

-- What a part exports: a function of its configuration, or its hooks. Both run on the host.
pub data Exported (N H E : Type 0) : Type 0 where
  factory : (Json N → TestHost N → TestHost N × Outcome E H) → Exported N H E
  plain : H → Exported N H E

module _ {N : Type 0} where
  -- `log.info` and the others
  unfoldable pub log : Level → List (Json N) → TestHost N → TestHost N
  log level args host = record {
    key_store = host.key_store;
    records = host.records ++ ((level, args) ∷ []);
    storage_data = host.storage_data;
  }

  -- `util.key()`
  unfoldable pub key : TestHost N → Option (Json N)
  key host = host.key_store

  -- `keyStore = keys`
  unfoldable pub with_key : Option (Json N) → TestHost N → TestHost N
  with_key keys host = record {
    key_store = keys;
    records = host.records;
    storage_data = host.storage_data;
  }

-- `o.entry || "protocol.js"`
unfoldable pub entry_of : Option JsString → JsString
entry_of none = js "protocol.js"
entry_of (some e) = if length e == 0 then js "protocol.js" else e

-- `config || {}`, where `is_zero` says which numbers are 0 or NaN
unfoldable pub or_empty : {N : Type 0} → (N → Bool) → Option (Json N) → Json N
unfolding truthy
or_empty is_zero none = object end
or_empty is_zero (some v) = if truthy is_zero (some v) then v else object end

-- The end of `loadPart`, when the source has run.
unfoldable pub hooks_of :
    {N H E : Type 0} → Json N → TestHost N × Outcome E (Exported N H E) → TestHost N × Outcome E H
hooks_of config (host, throws e) = (host, throws e)
hooks_of config (host, ok (factory make)) = make config host
hooks_of config (host, ok (plain hooks)) = (host, ok hooks)

-- `read` is `fs.readFileSync`, `join` is `path.join`, and `parse` is `JSON.parse`.
module _ {N E : Type 0} (read : JsString → Outcome E JsString)
    (join : JsString → JsString → JsString) (parse : JsString → Outcome E (Json N)) where
  -- The source that `loadPackage` loads, or why it cannot.
  unfoldable pub source_of : JsString → Opts N → Outcome E JsString
  unfolding entry_of
  source_of dir o = do
    text ← read (join dir (js "manifest.json"))
    manifest ← parse text
    src ← read (join dir (entry_of o.entry))
    if o.router then read (join dir (js "router.js")) else ok src

-- `evaluate` runs the source of a part as a function.
module _ {N H E : Type 0} (is_zero : N → Bool)
    (evaluate : JsString → TestHost N → TestHost N × Outcome E (Exported N H E)) where
  unfoldable pub load_part :
      JsString → Option (Json N) → Option (Json N) → TestHost N → TestHost N × Outcome E H
  unfolding with_key or_empty hooks_of
  load_part src config keys host =
      hooks_of (or_empty is_zero config) (evaluate src (with_key keys host))

  module _ (read : JsString → Outcome E JsString) (join : JsString → JsString → JsString)
      (parse : JsString → Outcome E (Json N)) where
    unfoldable pub load_package : JsString → Opts N → TestHost N → TestHost N × Outcome E H
    unfolding source_of load_part
    load_package dir o host = elim (source_of read join parse dir o) [
      | ok src ↦ load_part src o.config o.keys host
      | throws e ↦ (host, throws e)
    ]
