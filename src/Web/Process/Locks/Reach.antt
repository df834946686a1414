-- ===== src/Web/Process/Locks/Reach.antt =====
-- The discipline of a busy flag in every page that can be reached.
use ai_api_proxy.Common.{
  ℕ, zero, suc, ◌≤◌, Bool, true, false, List, [], ◌∷◌, ◌++◌, ◌≡◌, ◌⊎◌, inl, inr, refl, ap, ◌∙◌,
  subst, arith, if◌then◌else◌, Bool-cases,
}
use ai_api_proxy.Web.Process.{
  Effect, Answer, Handler, Waiting, Page, Step, calls, answers, Reach, here, further,
}
use ai_api_proxy.Web.Process.Locks.{
  outside, inside, holders, Obeys, Pending, empty, idle, holds, IsLocked, advance-IsLocked,
}

-- How many handlers wait for a guarded effect.
unfoldable pub count_guarded : {S : Type 0} → (Effect → Bool) → List (Waiting S) → ℕ
count_guarded guarded [] = 0
count_guarded guarded (w ∷ ws) =
    let rest = count_guarded guarded ws in if guarded w.effect then suc rest else rest

module _ {S : Type 0} (flag : S → Bool) (guarded : Effect → Bool) where
  -- A waiting handler is taken out: it does not hold the flag, or one holder is left less.
  abbrev Taken : ℕ → Waiting S → List (Waiting S) → Type 0
  Taken n w ws =
      (((x : Answer w.effect) → Obeys flag guarded outside (w.next x)) × Pending flag guarded n ws)
      ⊎ ((k : ℕ) × (n ≡ suc k)
          × ((x : Answer w.effect) → Obeys flag guarded inside (w.next x))
          × Pending flag guarded k ws)

  Pending-take :
      (before after : List (Waiting S)) (w : Waiting S) (n : ℕ)
      → Pending flag guarded n (before ++ w ∷ after)
      → Taken n w (before ++ after)
  Pending-take [] after w n (idle g o q) = inl (o, q)
  Pending-take [] after w (suc n) (holds o q) = inr (n, refl, o, q)
  Pending-take (v ∷ before) after w n (idle g o q) = elim (Pending-take before after w n q) [
    | inl (o', q') ↦ inl (o', idle g o q')
    | inr (k, e, o', q') ↦ inr (k, e, o', idle g o q')
  ]
  Pending-take (v ∷ before) after w (suc n) (holds o q) = elim (Pending-take before after w n q) [
    | inl (o', q') ↦ inl (o', holds o q')
    | inr (k, e, o', q') ↦ inr (suc k, ap suc e, o', holds o q')
  ]

  sole_holder : (b : Bool) {k : ℕ} → holders b ≡ suc k → (b ≡ true) × (k ≡ 0)
  sole_holder true e = (refl, omega arith)
  sole_holder false e = absurd (omega arith)

  module _ {H : Type 0} (start : H → Handler S)
      (obeys : (h : H) → Obeys flag guarded outside (start h)) where
    Step-IsLocked :
        {p q : Page S} → Step start p q → IsLocked flag guarded p → IsLocked flag guarded q
    Step-IsLocked (calls h p) l =
        advance-IsLocked flag guarded (start h) outside p.state (holders (flag p.state)) p.waiting
          (obeys h) refl l
    Step-IsLocked (answers s before after w x) l =
        elim (Pending-take before after w (holders (flag s)) l) [
          | inl (o, q) ↦
              advance-IsLocked flag guarded (w.next x) outside s (holders (flag s))
                (before ++ after) (o x) refl q
          | inr (k, e, o, q) ↦
              advance-IsLocked flag guarded (w.next x) inside s k (before ++ after) (o x)
                (sole_holder (flag s) e) q
        ]

    pub Reach-IsLocked :
        {p q : Page S} → Reach start p q → IsLocked flag guarded p → IsLocked flag guarded q
    Reach-IsLocked here l = l
    Reach-IsLocked (further r st) l = Step-IsLocked st (Reach-IsLocked r l)

  count-Pending :
      (n : ℕ) (ws : List (Waiting S)) → Pending flag guarded n ws → count_guarded guarded ws ≤ n
  unfolding count_guarded
  count-Pending n [] empty = omega arith
  count-Pending n (w ∷ ws) (idle g o q) = rw g (count-Pending n ws q)
  count-Pending (suc n) (w ∷ ws) (holds o q) = ground (arith, count-Pending n ws q)

  -- At most one guarded effect is waited for, and none while the flag is clear.
  pub count-IsLocked :
      (p : Page S)
      → IsLocked flag guarded p
      → count_guarded guarded p.waiting ≤ holders (flag p.state)
  count-IsLocked p l = count-Pending (holders (flag p.state)) p.waiting l

  nothing_held : (n : ℕ) → Pending flag guarded n [] → n ≡ 0
  nothing_held zero q = refl
  nothing_held (suc n) q = elim q [ ]

  -- When no handler waits the flag is clear.
  pub clear_at_rest : (p : Page S) → IsLocked flag guarded p → p.waiting ≡ [] → flag p.state ≡ false
  clear_at_rest p l e = elim (Bool-cases (flag p.state)) [
    | inl set ↦
        let none_held =
          nothing_held (holders (flag p.state))
            (subst (λ ws. Pending flag guarded (holders (flag p.state)) ws) e l) in
        absurd (omega (arith, ap holders set ∙ refl, none_held))
    | inr clear ↦ clear
  ]
