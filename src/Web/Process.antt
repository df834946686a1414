-- ===== src/Web/Process.antt =====
-- The handlers of the console as processes. JavaScript runs one handler at a time, from one
-- `await` to the next; between two of them other handlers run.
pub mod Locks
pub mod Requests
use ai_api_proxy.Common.{
  ℕ, Bool, true, false, List, [], ◌∷◌, ◌++◌, Bytes, Option, none, some, Outcome,
}
use ai_api_proxy.Common.Strings.{JsString}
use ai_api_proxy.Web.Api
use ai_api_proxy.Web.Http.{Failure, FetchRequest, Response}

-- What a handler can wait for: a request; the refetch of a query of vue-query, or of
-- several (`Promise.allSettled`), which does not throw; a navigation; the bytes of a chosen
-- file; a response of the server.
pub data Effect : Type 0 where
  api : Api.Api → Effect
  refetch : JsString → Effect
  refetch_all : List JsString → Effect
  navigate : JsString → Effect
  array_buffer : ℕ → Effect
  fetch : FetchRequest → Effect

abbrev pub Answer : Effect → Type 0
Answer (api q) = Outcome Failure (Api.Answer q)
Answer (refetch key) = Unit
Answer (refetch_all keys) = Unit
Answer (navigate route) = Outcome Failure (Unit {0})
Answer (array_buffer file) = Outcome Failure Bytes
Answer (fetch request) = Outcome Failure Response

-- A handler on the state `S` of a page.
pub data Process (S : Type 0) (A : Type 0) : Type 0 where
  return : A → Process S A
  read : (S → Process S A) → Process S A
  write : (S → S) → Process S A → Process S A
  await : (e : Effect) → (Answer e → Process S A) → Process S A

infixl 5 ◌>>=◌ ◌>>◌
abbrev pub ◌>>=◌ : {S A B : Type 0} → Process S A → (A → Process S B) → Process S B
return x >>= f = f x
read k >>= f = read (λ s. k s >>= f)
write g p >>= f = write g (p >>= f)
await e k >>= f = await e (λ x. k x >>= f)

abbrev pub ◌>>◌ : {S B : Type 0} → Process S (Unit {0}) → Process S B → Process S B
p >> q = p >>= λ _. q

abbrev pub state : {S : Type 0} → Process S S
state = read (λ s. return s)

abbrev pub update : {S : Type 0} → (S → S) → Process S (Unit {0})
update g = write g (return tt)

abbrev pub perform : {S : Type 0} (e : Effect) → Process S (Answer e)
perform e = await e (λ x. return x)

abbrev pub done : {S : Type 0} → Process S (Unit {0})
done = return tt

abbrev pub Handler : Type 0 → Type 0
Handler S = Process S (Unit {0})

-- A handler that waits, and goes on with the answer.
pub record Waiting (S : Type 0) : Type 0 where
  pub effect : Effect
  pub next : Answer effect → Handler S

-- A handler runs to its next `await`, or to its end.
unfoldable pub advance : {S : Type 0} → Handler S → S → S × Option (Waiting S)
advance (return x) s = (s, none)
advance (read k) s = advance (k s) s
advance (write g p) s = advance p (g s)
advance (await e k) s = (s, some (record { effect = e; next = k }))

-- What a handler that waits, waits for.
abbrev pub awaited : {S : Type 0} → Option (Waiting S) → Option Effect
awaited none = none
awaited (some w) = some w.effect

-- A page: its state, and the handlers that wait.
pub record Page (S : Type 0) : Type 0 where
  pub state : S
  pub waiting : List (Waiting S)

unfoldable pub enqueue : {S : Type 0} → S × Option (Waiting S) → List (Waiting S) → Page S
enqueue (s, none) ws = record { state = s; waiting = ws }
enqueue (s, some w) ws = record { state = s; waiting = w ∷ ws }

-- What can happen to a page whose handlers are `start h`: one is called, or one that waits is
-- answered, in whatever order.
pub data Step {S H : Type 0} (start : H → Handler S) : Page S → Page S → Type 0 where
  calls : (h : H) (p : Page S) → Step start p (enqueue (advance (start h) p.state) p.waiting)
  answers :
      (s : S) (before after : List (Waiting S)) (w : Waiting S) (x : Answer w.effect)
      → Step start
          (record { state = s; waiting = before ++ w ∷ after })
          (enqueue (advance (w.next x) s) (before ++ after))

pub data Reach {S H : Type 0} (start : H → Handler S) (p : Page S) : Page S → Type 0 where
  here : Reach start p p
  further : {q r : Page S} → Reach start p q → Step start q r → Reach start p r
