-- ===== src/Web/Tests/Steps.antt =====
-- Runs of pages.
use ai_api_proxy.Common.{[], ◌∷◌}
use ai_api_proxy.Web.Process.{
  Answer, Handler, Waiting, advance, Page, enqueue, refetch, return, Reach, further, calls, answers,
}

-- A handler that waits, as a default.
abbrev pub nobody : {S : Type 0} → Waiting S
nobody = record { effect = refetch []; next = λ x. return tt }

-- The handler that waits first.
abbrev pub first_of : {S : Type 0} → Page S → Waiting S
first_of p = elim p.waiting [ [] ↦ nobody | w ∷ ws ↦ w ]

module _ {S H : Type 0} (start : H → Handler S) where
  -- The page after a handler was called.
  abbrev pub called : H → Page S → Page S
  called h p = enqueue (advance (start h) p.state) p.waiting

  pub call : {p q : Page S} (h : H) → Reach start p q → Reach start p (called h q)
  call {p} {q} h r = further r (calls h q)

  -- The page on which `w` alone waits, after the answer `x`.
  pub answer :
      {p : Page S} (s : S) (w : Waiting S) (x : Answer w.effect)
      → Reach start p (record { state = s; waiting = w ∷ [] })
      → Reach start p (enqueue (advance (w.next x) s) [])
  answer s w x r = further r (answers s [] [] w x)
