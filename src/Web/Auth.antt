-- ===== src/Web/Auth.antt =====
-- web/src/stores/auth.ts and the guard of web/src/router/index.ts. A promise is a number, under
-- which the store keeps what it has resolved to.
pub mod Probes
use ai_api_proxy.Common.{
  ℕ, zero, suc, ◌+◌, List, [], ◌∷◌, ◌++◌, map, Bool, true, false, not, ◌||◌, ◌&&◌, ltb, leb, ◌==◌,
  length, take, drop, if◌then◌else◌, Option, none, some, Outcome, ok, throws,
}
use ai_api_proxy.Common.Strings.{JsString, js, same_string}
use ai_api_proxy.Json.{string, to_object}
use ai_api_proxy.Web.Http.{Failure, error, FetchRequest, Init, Response, text}
use ai_api_proxy.Web.Values.{Engine, Value, decimal}

-- `principal` and `probe`, and the probes that were started. The principal is the body that the
-- server sends, an object.
pub record Store : Type 0 where
  pub principal : Option Value
  pub probe : Option ℕ
  pub probes : List (Option Bool)

abbrev pub fresh : Store
fresh = record { principal = none; probe = none; probes = [] }

unfoldable pub reset : Store → Store
reset s = record s { principal = none; probe = none }

-- What `load` returns: a value, or the promise of the probe.
pub data Loading : Type 0 where
  known : Bool → Loading
  promise : ℕ → Loading

abbrev pub me_request : FetchRequest
me_request = record {
  url = js "/admin/api/me";
  init = record { method = js "GET"; body = none; headers = [] };
}

-- `load`; a new probe is the next number, and its `fetch` is sent.
unfoldable pub load : Store → Store × Loading
load s = elim s.principal [
  | some p ↦ (s, known true)
  | none ↦ elim s.probe [
    | some id ↦ (s, promise id)
    | none ↦ (
      record s { probe = some (length s.probes); probes = s.probes ++ none ∷ [] },
      promise (length s.probes),
    )
  ]
]

-- The callbacks of a probe: its value, and the body that becomes the principal.
unfoldable pub probe_result : Outcome Failure Response → Option Value
probe_result (throws e) = none
probe_result (ok res) =
    if res.is_ok then elim res.json_body [ ok body ↦ some body | throws e ↦ none ] else none

unfoldable pub resolve_at : ℕ → Bool → List (Option Bool) → List (Option Bool)
resolve_at id value [] = []
resolve_at zero value (p ∷ ps) = some value ∷ ps
resolve_at (suc id) value (p ∷ ps) = p ∷ resolve_at id value ps

unfoldable pub settle : ℕ → Outcome Failure Response → Store → Store
unfolding probe_result resolve_at
settle id reply s = elim (probe_result reply) [
  | none ↦ record s { probes = resolve_at id false s.probes }
  | some body ↦ record s { principal = some body; probes = resolve_at id true s.probes }
]

module _ (engine : Engine) where
  unfoldable pub login_request : JsString → JsString → FetchRequest
  login_request user password = record {
    url = js "/admin/api/login";
    init = record {
      method = js "POST";
      body = some (
          text (
            engine.stringify
              (to_object ((js "user", string user) ∷ (js "password", string password) ∷ []))));
      headers = (js "Content-Type", js "application/json") ∷ [];
    };
  }

-- `if (!res.ok) throw …`
unfoldable pub login_result : Outcome Failure Response → Outcome Failure (Unit {0})
unfolding decimal
login_result (throws e) = throws e
login_result (ok res) =
    if res.is_ok then ok tt else throws (error (js "登录失败 (" ++ (decimal res.status ++ js ")")))

-- `principal.value = { user }`
unfoldable pub logged_in : JsString → Store → Store
logged_in user s = record s { principal = some (to_object ((js "user", string user) ∷ [])) }

abbrev pub logout_request : FetchRequest
logout_request = record {
  url = js "/admin/api/logout";
  init = record { method = js "POST"; body = none; headers = [] };
}

-- `logout` behind its `fetch`
unfoldable pub logged_out : Outcome Failure Response → Store → Outcome Failure (Unit {0}) × Store
unfolding reset
logged_out (throws e) s = (throws e, s)
logged_out (ok res) s = (ok tt, reset s)

-- What the guard decides: to go on, or to go to the login page and back from there.
pub data Decision : Type 0 where
  admit : Decision
  to_login : JsString → Decision

-- The guard, with `to.meta.public`, `to.fullPath` and what `load` came to
unfoldable pub guard : Bool → JsString → Bool → Decision
guard is_public full_path loaded =
    if is_public then admit else if loaded then admit else to_login full_path

-- The routes by name, with their paths; only the login page is public.
pub data Route : Type 0 where
  login monitor models packages package_settings history transports subscriptions : Route

unfoldable pub path_of : Route → JsString
path_of login = js "/login"
path_of monitor = js "/monitor"
path_of models = js "/models"
path_of packages = js "/packages"
path_of package_settings = js "/packages/:name/settings"
path_of history = js "/history"
path_of transports = js "/transports"
path_of subscriptions = js "/subscriptions"

unfoldable pub is_public : Route → Bool
is_public login = true
is_public _ = false
