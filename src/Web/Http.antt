-- ===== src/Web/Http.antt =====
-- web/src/services/http.ts: what is sent, and what is made of a response.
pub mod Laws
use ai_api_proxy.Common.{
  ℕ, ◌+◌, List, [], ◌∷◌, ◌++◌, Bool, true, false, Bytes, ◌==◌, length, drop, if◌then◌else◌, Option,
  none, some, Outcome, ok, throws, ◌>>=◌,
}
use ai_api_proxy.Common.Strings.{JsString, js, same_string}
use ai_api_proxy.Web.Values.{Value, Engine, decimal}

-- What can be thrown: an `ApiError` with its status, another `Error`, or no `Error` at all.
pub data Failure : Type 0 where
  api_error : ℕ → JsString → Failure
  error : JsString → Failure
  not_an_error : Failure

pub data Body : Type 0 where
  text : JsString → Body
  bytes : Bytes → Body
  form_data : Body

-- `RequestInit`
pub record Init : Type 0 where
  pub method : JsString
  pub body : Option Body
  pub headers : List (JsString × JsString)

-- The arguments of `fetch`, with `credentials: 'same-origin'`.
pub record FetchRequest : Type 0 where
  pub url : JsString
  pub init : Init

abbrev pub Headers : Type 0
Headers = List (JsString × JsString)

-- A later field of the same name replaces the value of an earlier one.
unfoldable pub set_header : Headers → JsString → JsString → Headers
set_header [] k v = (k, v) ∷ []
set_header ((k', v') ∷ hs) k v =
    let rest = set_header hs k v in if same_string k' k then (k', v) ∷ hs else (k', v') ∷ rest

-- `{ ...a, ...b }`
unfoldable pub spread : Headers → Headers → Headers
unfolding set_header
spread hs [] = hs
spread hs ((k, v) ∷ more) = spread (set_header hs k v) more

unfoldable pub is_form : Option Body → Bool
is_form (some form_data) = true
is_form _ = false

-- The call of `fetch` in `request`.
unfoldable pub fetch_of : JsString → Init → FetchRequest
unfolding is_form spread
fetch_of path init = record {
  url = js "/admin/api" ++ path;
  init = record init {
    headers =
        if is_form init.body
        then init.headers
        else spread ((js "Content-Type", js "application/json") ∷ []) init.headers;
  };
}

-- `get`, `post`, `postRaw`, `put` and `del`; no method is GET.
unfoldable pub get : JsString → FetchRequest
unfolding fetch_of
get path = fetch_of path (record { method = js "GET"; body = none; headers = [] })

unfoldable pub post : Engine → JsString → Option Value → FetchRequest
unfolding fetch_of
post engine path body = fetch_of path (record {
  method = js "POST";
  body = some (text (elim body [ none ↦ js "{}" | some v ↦ engine.stringify v ]));
  headers = [];
})

unfoldable pub post_raw : JsString → Bytes → FetchRequest
unfolding fetch_of
post_raw path content = fetch_of path (record {
  method = js "POST";
  body = some (bytes content);
  headers = (js "Content-Type", js "application/octet-stream") ∷ [];
})

unfoldable pub put : Engine → JsString → Value → FetchRequest
unfolding fetch_of
put engine path body =
    fetch_of path
      (record { method = js "PUT"; body = some (text (engine.stringify body)); headers = [] })

unfoldable pub del : JsString → FetchRequest
unfolding fetch_of
del path = fetch_of path (record { method = js "DELETE"; body = none; headers = [] })

-- What `fetch` gives: a response, whose body may not be readable, or a rejection.
pub record Response : Type 0 where
  pub status : ℕ
  pub is_ok : Bool
  pub text_body : Outcome Failure JsString
  pub json_body : Outcome Failure Value

-- What the handler of a 401 works on, and `location.hash`.
pub record Browser (S : Type 0) : Type 0 where
  pub session : S
  pub hash : JsString

abbrev pub expired : Failure
expired = api_error 401 (js "会话已过期, 请重新登录")

-- `#/login?redirect=${encodeURIComponent(location.hash.slice(1))}`
unfoldable pub login_hash : Engine → JsString → Outcome Failure JsString
login_hash engine hash = elim (engine.encode_uri_component (drop 1 hash)) [
  | none ↦ throws (error (js "URI malformed"))
  | some redirect ↦ ok (js "#/login?redirect=" ++ redirect)
]

-- `detail || …`, where `detail` is empty if the body cannot be read
unfoldable pub detail_of : Response → JsString
detail_of res = elim res.text_body [
  | throws e ↦ js "请求失败 (" ++ (decimal res.status ++ js ")")
  | ok detail ↦ if length detail == 0 then js "请求失败 (" ++ (decimal res.status ++ js ")") else detail
]

module _ {S : Type 0} (engine : Engine) (on_unauthorized : S → S) where
  -- The branch of a 401.
  unfoldable pub unauthorized : Browser S → Outcome Failure (Option Value) × Browser S
  unfolding login_hash
  unauthorized b = elim (login_hash engine b.hash) [
    | throws e ↦ (throws e, record b { session = on_unauthorized b.session })
    | ok hash ↦ (throws expired, record { session = on_unauthorized b.session; hash = hash })
  ]

  -- `request` behind `fetch`; the value `none` is undefined.
  unfoldable pub receive :
      Outcome Failure Response → Browser S → Outcome Failure (Option Value) × Browser S
  unfolding unauthorized detail_of
  receive (throws e) b = (throws e, b)
  receive (ok res) b =
      if res.status == 401
      then unauthorized b
      else if res.is_ok
      then if res.status == 204 then (ok none, b) else (res.json_body >>= λ v. ok (some v), b)
      else (throws (api_error res.status (detail_of res)), b)

-- `err instanceof Error ? err.message : text`
unfoldable pub message_of : Failure → JsString → JsString
message_of (api_error status message) other = message
message_of (error message) other = message
message_of not_an_error other = other
