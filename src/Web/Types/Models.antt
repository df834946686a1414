-- ===== src/Web/Types/Models.antt =====
-- web/src/services/types.ts: channels, their models, discovery and the results of tests.
use ai_api_proxy.Common.{ℕ, Bool, List, Option}
use ai_api_proxy.Common.Strings.{JsString}
use ai_api_proxy.Web.Values.{Double, Value}

pub record ModelGroup : Type 0 where
  pub id : ℕ
  pub prefix : JsString
  pub plugin : JsString
  pub params : List (JsString × Value)
  pub enabled : Bool

pub record GroupMember : Type 0 where
  pub id : ℕ
  pub group_id : ℕ
  pub name : JsString
  pub enabled : Bool

-- The `op` of a rule.
pub data RuleOp : Type 0 where
  only exclude rename limit : RuleOp

pub record DiscoveryRule : Type 0 where
  pub op : RuleOp
  pub regex : Option JsString
  pub from : Option JsString
  pub to : Option JsString
  pub limit : Option Double

pub record DiscoveryHit : Type 0 where
  pub upstream_name : JsString
  pub member_name : JsString
  pub action : JsString
  pub poll_groups : ℕ

-- What an import did: `applied` of a discovery.
pub record Applied : Type 0 where
  pub created : ℕ
  pub skipped : ℕ

pub record DiscoveryResult : Type 0 where
  pub fetched_total : ℕ
  pub models : List DiscoveryHit
  pub applied : Option Applied

pub record TestResult : Type 0 where
  pub ok : Bool
  pub latency_ms : ℕ
  pub error : Option JsString

pub record ChatTestResult : Type 0 where
  pub ok : Bool
  pub latency_ms : ℕ
  pub error : Option JsString
  pub status : Option ℕ
  pub body : Option Value

pub record KeysCheckRow : Type 0 where
  pub key : JsString
  pub verdict : JsString
  pub status : Option ℕ
  pub latency_ms : ℕ
  pub error : Option JsString

pub data KeysCheckMode : Type 0 where
  probe chat : KeysCheckMode

pub record KeysCheckReport : Type 0 where
  pub ok : Bool
  pub total : ℕ
  pub results : List KeysCheckRow
