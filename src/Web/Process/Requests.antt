-- ===== src/Web/Process/Requests.antt =====
-- What every page that can be reached keeps, and what it asks for.
use ai_api_proxy.Common.{Bool, true, List, [], ◌∷◌, ◌++◌, All, ◌≡◌}
use ai_api_proxy.Web.Process.{
  Effect, Answer, return, read, write, await, Handler, Waiting, advance, Page, enqueue, Step, calls,
  answers, Reach, here, further,
}

module _ {S : Type 0} (invariant : S → Bool) (good : Effect → Bool) where
  -- From a state with the invariant, each write keeps it, and all that is waited for is good.
  abbrev pub Asks : Handler S → Type 0
  Asks (return x) = Unit
  Asks (read k) = (s : S) → invariant s ≡ true → Asks (k s)
  Asks (write g p) = ((s : S) → invariant s ≡ true → invariant (g s) ≡ true) × Asks p
  Asks (await e k) = (good e ≡ true) × ((x : Answer e) → Asks (k x))

  -- A waiting handler waits for something good and goes on as such.
  abbrev pub IsAsking : Waiting S → Type 0
  IsAsking w = (good w.effect ≡ true) × ((x : Answer w.effect) → Asks (w.next x))

  abbrev pub IsSound : Page S → Type 0
  IsSound p = (invariant p.state ≡ true) × All IsAsking p.waiting

  advance-IsSound :
      (p : Handler S) (s : S) (ws : List (Waiting S))
      → Asks p
      → invariant s ≡ true
      → All IsAsking ws
      → IsSound (enqueue (advance p s) ws)
  unfolding advance enqueue
  advance-IsSound (return x) s ws a h q = (h, q)
  advance-IsSound (read k) s ws a h q = advance-IsSound (k s) s ws (a s h) h q
  advance-IsSound (write g p) s ws (keeps, a) h q = advance-IsSound p (g s) ws a (keeps s h) q
  advance-IsSound (await e k) s ws a h q = (h, (a, q))

  take_out :
      (before after : List (Waiting S)) (w : Waiting S)
      → All IsAsking (before ++ w ∷ after)
      → IsAsking w × All IsAsking (before ++ after)
  take_out [] after w h = h
  take_out (v ∷ before) after w (here_, rest) =
      let inner = take_out before after w rest in (inner.0, (here_, inner.1))

  module _ {H : Type 0} (start : H → Handler S) (asks : (h : H) → Asks (start h)) where
    Step-IsSound : {p q : Page S} → Step start p q → IsSound p → IsSound q
    Step-IsSound (calls h p) (kept, q) = advance-IsSound (start h) p.state p.waiting (asks h) kept q
    Step-IsSound (answers s before after w x) (kept, q) =
        let out = take_out before after w q in
        advance-IsSound (w.next x) s (before ++ after) (out.0.1 x) kept out.1

    pub Reach-IsSound : {p q : Page S} → Reach start p q → IsSound p → IsSound q
    Reach-IsSound here h = h
    Reach-IsSound (further r st) h = Step-IsSound st (Reach-IsSound r h)
