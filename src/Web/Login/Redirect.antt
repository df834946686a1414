-- ===== src/Web/Login/Redirect.antt =====
-- From a session that has expired, through services/http.ts and the login page, back to the page.
use ai_api_proxy.Common.{
  ◌∷◌, ◌++◌, ◌<◌, ◌==◌, length, true, false, Option, some, Outcome, ok, ◌≡◌, refl, ap, ◌∙◌, arith,
}
use ai_api_proxy.Common.Strings.{JsString, js}
use ai_api_proxy.Web.Auth.{login_request, login_result, logged_in}
use ai_api_proxy.Web.Http.{Failure, Response, Browser, receive, unauthorized, login_hash}
use ai_api_proxy.Web.Login.{State, submit, answered, target_of}
use ai_api_proxy.Web.Process.{awaited, Handler, advance, fetch, navigate}
use ai_api_proxy.Web.Values.{Engine}

receive-hash :
    {S : Type 0} (engine : Engine) (on_unauthorized : S → S) (b : Browser S) (res : Response)
    (path redirect : JsString)
    → res.status ≡ 401
    → b.hash ≡ 0x23 ∷ path
    → engine.encode_uri_component path ≡ some redirect
    → (receive engine on_unauthorized (ok res) b).1.hash ≡ js "#/login?redirect=" ++ redirect
unfolding receive unauthorized login_hash
receive-hash engine on_unauthorized b res path redirect gone at_path encoded =
    rw (gone, at_path, encoded, receive, unauthorized, login_hash) refl

-- The login page, when the form is filled and no login is under way.
abbrev pub IsFilled : State → Type 0
IsFilled s = (0 < length s.user) × (0 < length s.password) × (s.submitting ≡ false)

abbrev pub submitting : State → State
submitting s = record s { submitting = true }

submit-waits :
    (engine : Engine) (s : State)
    → IsFilled s
    → advance (submit engine) s ≡ (
      submitting s,
      some (record {
        effect = fetch (login_request engine s.user s.password);
        next = λ reply. answered s.user reply;
      }),
    )
unfolding submit advance
submit-waits engine s (user, password, rests) =
    let named : (length s.user == 0) ≡ false = ground arith in
    let secret : (length s.password == 0) ≡ false = ground arith in
    rw (named, secret, rests, submit, advance) refl

answered-navigates :
    (s : State) (user path : JsString) (res : Response)
    → res.is_ok ≡ true
    → s.redirect ≡ some path
    → ((advance (answered user (ok res)) s).0 ≡ record s { session = logged_in user s.session })
      × (awaited (advance (answered user (ok res)) s).1 ≡ some (navigate path))
unfolding answered advance login_result target_of
answered-navigates s user path res accepted redirected = (
  rw (accepted, answered, advance, login_result) refl,
  rw (accepted, answered, advance, login_result)
      (ap (λ r. some (navigate (target_of r))) redirected),
)

-- A request behind whose back the session has expired, on any page of the console whose address can
-- be encoded, leads to the login page. If the router reads there what was encoded, and the form is
-- filled and sent, then the login is asked for, with the user and the password of the form; and if
-- it is accepted, the user is the principal and the page is asked for on which the session expired.
pub login_returns :
    {S : Type 0} (engine : Engine) (on_unauthorized : S → S)
    (redirect_of : JsString → Option JsString)
    → ((path redirect : JsString)
        → engine.encode_uri_component path ≡ some redirect
        → redirect_of (js "#/login?redirect=" ++ redirect) ≡ some path)
    → (b : Browser S) (expired accepted : Response) (path redirect : JsString)
    → expired.status ≡ 401
    → b.hash ≡ 0x23 ∷ path
    → engine.encode_uri_component path ≡ some redirect
    → (s : State) → s.redirect ≡ redirect_of (receive engine on_unauthorized (ok expired) b).1.hash
    → IsFilled s
    → accepted.is_ok ≡ true
    → (next : (Outcome Failure Response → Handler State)) × (advance (submit engine) s ≡ (
      submitting s,
      some (record { effect = fetch (login_request engine s.user s.password); next = next }),
    ))
      × ((advance (next (ok accepted)) (submitting s)).0
          ≡ record (submitting s) { session = logged_in s.user s.session })
      × (awaited (advance (next (ok accepted)) (submitting s)).1 ≡ some (navigate path))
login_returns engine on_unauthorized redirect_of reads b expired accepted path redirect gone at_path
      encoded s shown filled is_accepted =
    let at_login : s.redirect ≡ some path =
      shown
      ∙ ap redirect_of
          (receive-hash engine on_unauthorized b expired path redirect gone at_path encoded)
      ∙ reads path redirect encoded in
    let behind = answered-navigates (submitting s) s.user path accepted is_accepted at_login in
    (λ reply. answered s.user reply, submit-waits engine s filled, behind.0, behind.1)
