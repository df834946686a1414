-- ===== src/Web/Auth/Probes.antt =====
-- The probes of the session in stores/auth.ts.
use ai_api_proxy.Common.{
  ℕ, zero, suc, Bool, true, false, ◌+◌, ◌≤◌, List, [], ◌∷◌, length, length-append, Option, none,
  some, Outcome, ok, throws, ◌≡◌, refl, arith,
}
use ai_api_proxy.Common.Strings.{JsString}
use ai_api_proxy.Web.Auth.{Store, fresh, reset, load, settle, resolve_at, logged_in, logged_out}
use ai_api_proxy.Web.Http.{Failure, Response}

-- What happens to the store: a page asks for the session, a probe is answered, a user has logged
-- in, a request to log out is answered, and a request of the API was answered with 401.
pub data Event : Type 0 where
  loads : Event
  settles : ℕ → Outcome Failure Response → Event
  logs_in : JsString → Event
  logs_out : Outcome Failure Response → Event
  expires : Event

unfoldable pub happens : Event → Store → Store
unfolding load settle logged_in logged_out reset
happens loads s = (load s).0
happens (settles id reply) s = settle id reply s
happens (logs_in user) s = logged_in user s
happens (logs_out reply) s = (logged_out reply s).1
happens expires s = reset s

unfoldable pub after_all : List Event → Store → Store
unfolding happens
after_all [] s = s
after_all (e ∷ es) s = after_all es (happens e s)

-- Whether an event ends a session, and how many of a list do.
unfoldable pub ends : Event → ℕ
ends expires = 1
ends (logs_out (ok res)) = 1
ends _ = 0

unfoldable pub resets : List Event → ℕ
unfolding ends
resets [] = 0
resets (e ∷ es) = ends e + resets es

length-resolve_at :
    (id : ℕ) (value : Bool) (ps : List (Option Bool)) → length (resolve_at id value ps) ≡ length ps
unfolding resolve_at
length-resolve_at id value [] = refl
length-resolve_at zero value (p ∷ ps) = refl
length-resolve_at (suc id) value (p ∷ ps) = omega (arith, length-resolve_at id value ps)

-- The probes that may still be started before the next end of a session.
room_of : Option ℕ → ℕ
room_of none = 1
room_of (some id) = 0

room_of-le : (probe : Option ℕ) → room_of probe ≤ 1
unfolding room_of
room_of-le none = omega arith
room_of-le (some id) = omega arith

load-probes :
    (s : Store)
    → length (load s).0.probes + room_of (load s).0.probe ≤ length s.probes + room_of s.probe
unfolding load room_of
load-probes s = ground (arith, length-append {0} s.probes (none ∷ []))

settle-probes :
    (id : ℕ) (reply : Outcome Failure Response) (s : Store)
    → (length (settle id reply s).probes ≡ length s.probes) × ((settle id reply s).probe ≡ s.probe)
unfolding settle
settle-probes id reply s =
    ground (arith, length-resolve_at id false s.probes, length-resolve_at id true s.probes)

happens-probes :
    (e : Event) (s : Store)
    → length (happens e s).probes + room_of (happens e s).probe
      ≤ length s.probes + room_of s.probe + ends e
unfolding happens logged_in logged_out reset ends
happens-probes loads s = omega (arith, load-probes s)
happens-probes (settles id reply) s = ground (arith, settle-probes id reply s)
happens-probes (logs_in user) s = omega arith
happens-probes (logs_out (ok res)) s = (unfold room_of in omega arith)
happens-probes (logs_out (throws e)) s = omega arith
happens-probes expires s = (unfold room_of in omega arith)

after_all-room :
    (es : List Event) (s : Store)
    → length (after_all es s).probes + room_of (after_all es s).probe
      ≤ length s.probes + room_of s.probe + resets es
unfolding after_all resets
after_all-room [] s = omega arith
after_all-room (e ∷ es) s = omega (arith, after_all-room es (happens e s), happens-probes e s)

-- Whatever happens, and in whatever order, no more probes are sent than one and one for each end
-- of a session.
pub after_all-probes : (es : List Event) → length (after_all es fresh).probes ≤ 1 + resets es
after_all-probes es =
    let start : room_of fresh.probe ≡ 1 = unfold room_of in refl in
    omega (arith, after_all-room es fresh, start)
