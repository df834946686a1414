-- ===== src/Web/Types/Packages.antt =====
-- web/src/services/types.ts: packages, their settings, keys and accounts.
use ai_api_proxy.Common.{ℕ, Bool, List, Option}
use ai_api_proxy.Common.Strings.{JsString}
use ai_api_proxy.Web.Values.{Value}

pub record PackageInfo : Type 0 where
  pub name : JsString
  pub version : JsString
  pub revision : ℕ
  pub has_protocol : Bool
  pub filters : List JsString
  pub protocol : JsString
  pub has_hooks : Bool
  pub has_page : Bool
  pub enabled : Bool
  pub title : JsString
  pub description : JsString
  pub author : JsString
  pub homepage : JsString
  pub license : JsString

-- An element of `hooks.tasks`.
pub record TaskPreview : Type 0 where
  pub name : JsString
  pub cron : JsString
  pub next : JsString

pub record InspectSummary : Type 0 where
  pub name : JsString
  pub title : JsString
  pub description : JsString
  pub version : JsString
  pub filters : List JsString
  pub protocol : Option JsString
  pub features : Option (List JsString)
  pub hooks : Option (List TaskPreview)
  pub exists : Bool
  pub installed_version : Option JsString

pub record TaskResultRow : Type 0 where
  pub key : JsString
  pub ok : Bool
  pub error : Option JsString
  pub duration_ms : ℕ

pub record SettingsSchema : Type 0 where
  pub type : Option JsString
  pub description : Option JsString
  pub default : Option Value
  pub values : Option (List JsString)
  pub required : Option Bool

pub record SettingsSlot : Type 0 where
  pub name : JsString
  pub schema : SettingsSchema
  pub value : Value
  pub overridden : Bool

pub record SettingsTask : Type 0 where
  pub name : JsString
  pub cron : JsString
  pub next : JsString
  pub timeout_ms : ℕ
  pub overridden : Bool
  pub enabled : Bool

pub record PackageSettings : Type 0 where
  pub config : List SettingsSlot
  pub tasks : Option (List SettingsTask)
  pub version : ℕ
  pub revision : ℕ

pub record KeyRow : Type 0 where
  pub id : JsString
  pub «data» : Value
  pub updated_at : ℕ

pub record KeysView : Type 0 where
  pub keys : List KeyRow
  pub rotation : ℕ
  pub login : Bool

pub record AccountRow : Type 0 where
  pub id : JsString
  pub «data» : Value
  pub updated_at : ℕ

pub record AccountsView : Type 0 where
  pub accounts : List AccountRow

pub record MetaView : Type 0 where
  pub name : JsString
  pub version : JsString
  pub revision : ℕ
  pub params : List (JsString × Value)
