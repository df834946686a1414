-- ===== src/Web/Types/Others.antt =====
-- web/src/services/types.ts: history, transports and subscriptions.
use ai_api_proxy.Common.{ℕ, Bool, List, Option}
use ai_api_proxy.Common.Strings.{JsString}

pub record HistoryEntry : Type 0 where
  pub id : ℕ
  pub ts : ℕ
  pub method : JsString
  pub path : JsString
  pub model : JsString
  pub upstream : JsString
  pub target : JsString
  pub status : ℕ
  pub duration_ms : ℕ
  pub stream : Bool
  pub request_body : Option JsString
  pub response_body : Option JsString

pub record HistoryPage : Type 0 where
  pub items : List HistoryEntry
  pub total : ℕ

pub record Transport : Type 0 where
  pub name : JsString
  pub url : JsString

pub record Subscription : Type 0 where
  pub id : ℕ
  pub name : JsString
  pub repo_url : JsString
  pub user : JsString
  pub branch : JsString
  pub path : JsString
  pub token_set : Bool
  pub package_count : ℕ
  pub last_synced_commit : JsString
  pub last_synced_at : JsString
  pub last_error : JsString

pub record SubscriptionCreate : Type 0 where
  pub name : JsString
  pub repo_url : JsString
  pub user : Option JsString
  pub path : Option JsString
  pub token : Option JsString
