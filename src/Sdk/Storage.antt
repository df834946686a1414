-- ===== src/Sdk/Storage.antt =====
-- `makeStorage`: the storages of all namespaces, kept in one object.
pub mod Namespaces
use ai_api_proxy.Common.{List, [], ◌∷◌, ◌++◌, Option, none, some}
use ai_api_proxy.Common.Strings.{JsString, js}
use ai_api_proxy.Json.{Json, Members, string, null, find}
use ai_api_proxy.Sdk.Objects.{put, remove}

-- `full`: the name under which a namespace's key is kept
unfoldable pub full : JsString → JsString → JsString
full ns k = js "test/" ++ (ns ++ 0x2f ∷ k)

module _ {N : Type 0} where
  -- `full(k) in storageData ? storageData[full(k)] : null`
  unfoldable pub or_null : Option (Json N) → Json N
  or_null none = null
  or_null (some v) = v

  -- `get`
  unfoldable pub storage_get : JsString → JsString → Members N → Json N
  unfolding full or_null
  storage_get ns k storage_data = or_null (find storage_data (full ns k))

  -- `set`, of `String(v)`
  unfoldable pub storage_set : JsString → JsString → JsString → Members N → Members N
  unfolding full put
  storage_set ns k v storage_data = put (full ns k) (string v) storage_data

  -- `delete`
  unfoldable pub storage_delete : JsString → JsString → Members N → Members N
  unfolding full remove
  storage_delete ns k storage_data = remove (full ns k) storage_data
