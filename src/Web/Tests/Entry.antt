-- ===== src/Web/Tests/Entry.antt =====
-- The login page: two submissions.
use ai_api_proxy.Common.{[], false, none, ◌≡◌, refl}
use ai_api_proxy.Common.Strings.{js}
use ai_api_proxy.Web.Process.{Page, enqueue, advance}
use ai_api_proxy.Web.Process.Locks.Reach.{count_guarded}
use ai_api_proxy.Web.Tests.Steps.{called}
use ai_api_proxy.Web.Auth.{fresh}
use ai_api_proxy.Web.Login.{State}
use ai_api_proxy.Web.Login.Locks.{submits, guarded, start, at_rest}
use ai_api_proxy.Common.{ℕ, true, drop, arith, sym, Option, some, Outcome, ok}
use ai_api_proxy.Common.Strings.{JsString}
use ai_api_proxy.Json.{string}
use ai_api_proxy.Web.Auth.{login_request, logged_in}
use ai_api_proxy.Web.Http.{Failure, Response, Browser, receive, unauthorized, login_hash}
use ai_api_proxy.Web.Login.{submit}
use ai_api_proxy.Web.Login.Redirect.{submitting, login_returns}
use ai_api_proxy.Web.Process.{awaited, Handler, fetch, navigate}
use ai_api_proxy.Web.Tests.Engine.{sample_engine}

abbrev sample : State
sample = record {
  toasts = [];
  session = fresh;
  redirect = none;
  user = js "admin";
  password = js "secret";
  submitting = false;
}

abbrev clicked_twice : Page State
clicked_twice =
    called (start sample_engine) submits (called (start sample_engine) submits (at_rest sample))

test_clicked_twice : count_guarded guarded clicked_twice.waiting ≡ 1
unfolding start advance enqueue count_guarded
test_clicked_twice = refl

abbrev good_response : Response
good_response = record { status = 200; is_ok = true; text_body = ok []; json_body = ok (string []) }

abbrev expired_response : Response
expired_response = record good_response { status = 401; is_ok = false }

abbrev on_models : Browser ℕ
on_models = record { session = 7; hash = js "#/models" }

-- Behind `#/login?redirect=`, when nothing is encoded.
abbrev behind_redirect : JsString → Option JsString
behind_redirect hash = some (drop 17 hash)

abbrev redirected : State
redirected = record sample { redirect = some (js "/models") }

login_returns_example :
    (next : (Outcome Failure Response → Handler State)) × (advance (submit sample_engine) redirected
      ≡ (
        submitting redirected,
        some (record {
          effect = fetch (login_request sample_engine (js "admin") (js "secret"));
          next = next;
        }),
      ))
    × ((advance (next (ok good_response)) (submitting redirected)).0
        ≡ record (submitting redirected) { session = logged_in (js "admin") fresh })
    × (awaited (advance (next (ok good_response)) (submitting redirected)).1
        ≡ some (navigate (js "/models")))
unfolding receive unauthorized login_hash
login_returns_example =
    login_returns sample_engine (λ n. 0) behind_redirect (λ path redirect e. sym e) on_models
      expired_response good_response (js "/models") (js "/models") refl refl refl redirected refl
      (omega arith, omega arith, refl) refl
