-- ===== src/Web/Process/Locks.antt =====
-- Busy flags: a handler that finds the flag clear sets it before it waits and clears it behind.
pub mod Reach
use ai_api_proxy.Common.{
  Bool-cases, ℕ, zero, suc, ◌≤◌, Bool, true, false, List, [], ◌∷◌, ◌++◌, Option, none, some, ◌≡◌,
  ◌≢◌, ◌⊎◌, inl, inr, refl, sym, ap, ◌∙◌, subst, arith, if◌then◌else◌,
}
use ai_api_proxy.Web.Process.{
  Effect, Answer, Process, return, read, write, await, Handler, Waiting, advance, Page, enqueue,
}

-- How a handler stands to the flag: it does not hold it, it has seen it clear since it last
-- waited, or it holds it.
pub data Mode : Type 0 where
  outside seen_clear inside : Mode

-- After a read of the flag.
unfoldable pub after_read : Mode → Bool → Mode
after_read inside b = inside
after_read _ true = outside
after_read _ false = seen_clear

unfoldable pub after_await : Mode → Mode
after_await inside = inside
after_await _ = outside

abbrev pub holders : Bool → ℕ
holders b = if b then 1 else 0

module _ {S : Type 0} (flag : S → Bool) (guarded : Effect → Bool) where
  -- The discipline: only a handler that has seen the flag clear sets it, only its holder clears it
  -- and waits for a guarded effect, and a holder does not end.
  abbrev pub Obeys : Mode → Handler S → Type 0
  Obeys inside (return x) = ⊥
  Obeys outside (return x) = Unit
  Obeys seen_clear (return x) = Unit
  Obeys m (read k) = (s : S) → (m ≡ inside → flag s ≡ true) → Obeys (after_read m (flag s)) (k s)
  Obeys outside (write g p) = ((s : S) → flag (g s) ≡ flag s) × Obeys outside p
  Obeys seen_clear (write g p) =
      (((s : S) → flag (g s) ≡ flag s) × Obeys seen_clear p)
      ⊎ (((s : S) → flag (g s) ≡ true) × Obeys inside p)
  Obeys inside (write g p) =
      (((s : S) → flag (g s) ≡ flag s) × Obeys inside p)
      ⊎ (((s : S) → flag (g s) ≡ false) × Obeys seen_clear p)
  Obeys m (await e k) =
      (guarded e ≡ true → m ≡ inside) × ((x : Answer e) → Obeys (after_await m) (k x))

  -- A handler that leaves the flag alone and waits for no guarded effect.
  abbrev pub Keeps : Handler S → Type 0
  Keeps (return x) = Unit
  Keeps (read k) = (s : S) → Keeps (k s)
  Keeps (write g p) = ((s : S) → flag (g s) ≡ flag s) × Keeps p
  Keeps (await e k) = (guarded e ≡ false) × ((x : Answer e) → Keeps (k x))

  -- The handlers that wait, by the number of those that hold the flag.
  pub data Pending : ℕ → List (Waiting S) → Type 0 where
    empty : Pending zero []
    idle :
        {n : ℕ} {w : Waiting S} {ws : List (Waiting S)}
        → guarded w.effect ≡ false
        → ((x : Answer w.effect) → Obeys outside (w.next x))
        → Pending n ws
        → Pending n (w ∷ ws)
    holds :
        {n : ℕ} {w : Waiting S} {ws : List (Waiting S)}
        → ((x : Answer w.effect) → Obeys inside (w.next x))
        → Pending n ws
        → Pending (suc n) (w ∷ ws)

  -- The flag is set just while a waiting handler holds it, and one does at most.
  abbrev pub IsLocked : Page S → Type 0
  IsLocked p = Pending (holders (flag p.state)) p.waiting

  -- A handler in this mode may run when the flag is `b` and `n` others hold it.
  abbrev Fits : Mode → Bool → ℕ → Type 0
  Fits outside b n = n ≡ holders b
  Fits seen_clear b n = (b ≡ false) × (n ≡ 0)
  Fits inside b n = (b ≡ true) × (n ≡ 0)

  Fits-after_read : (m : Mode) (b : Bool) (n : ℕ) → Fits m b n → Fits (after_read m b) b n
  unfolding after_read
  Fits-after_read inside b n h = h
  Fits-after_read outside true n h = h
  Fits-after_read outside false n h = (refl, h)
  Fits-after_read seen_clear true n (h, e) = cc
  Fits-after_read seen_clear false n h = h

  not_inside : (m : Mode) (b : Bool) → m ≢ inside → after_read m b ≢ inside
  unfolding after_read
  not_inside inside b h e = h e
  not_inside outside true h e = cc
  not_inside outside false h e = cc
  not_inside seen_clear true h e = cc
  not_inside seen_clear false h e = cc

  Fits-flag : (m : Mode) {b c : Bool} (n : ℕ) → c ≡ b → Fits m b n → Fits m c n
  Fits-flag m n e h = subst (λ d. Fits m d n) (sym e) h

  unguarded :
      (e : Effect) (m : Mode) → (guarded e ≡ true → m ≡ inside) → m ≢ inside → guarded e ≡ false
  unguarded e m h apart = elim (Bool-cases (guarded e)) [
    | inl yes_guarded ↦ absurd (apart (h yes_guarded))
    | inr free ↦ free
  ]

  inside_flag : (m : Mode) (b : Bool) (n : ℕ) → Fits m b n → m ≡ inside → b ≡ true
  inside_flag inside b n (h, _) e = h
  inside_flag outside b n h e = cc
  inside_flag seen_clear b n h e = cc

  pub Keeps-Obeys : (m : Mode) (p : Handler S) → m ≢ inside → Keeps p → Obeys m p
  unfolding after_read after_await
  Keeps-Obeys outside (return x) a h = tt
  Keeps-Obeys seen_clear (return x) a h = tt
  Keeps-Obeys inside p a h = absurd (a refl)
  Keeps-Obeys outside (read k) a h =
      λ s _. Keeps-Obeys (after_read outside (flag s)) (k s) (not_inside outside (flag s) a) (h s)
  Keeps-Obeys seen_clear (read k) a h = λ s _.
      Keeps-Obeys (after_read seen_clear (flag s)) (k s) (not_inside seen_clear (flag s) a) (h s)
  Keeps-Obeys outside (write g p) a (keeps, h) = (keeps, Keeps-Obeys outside p a h)
  Keeps-Obeys seen_clear (write g p) a (keeps, h) = inl (keeps, Keeps-Obeys seen_clear p a h)
  Keeps-Obeys outside (await e k) a (free, h) =
      (λ set. cc, λ x. Keeps-Obeys outside (k x) (λ e. cc) (h x))
  Keeps-Obeys seen_clear (await e k) a (free, h) =
      (λ set. cc, λ x. Keeps-Obeys outside (k x) (λ e. cc) (h x))

  advance-IsLocked :
      (p : Handler S) (m : Mode) (s : S) (n : ℕ) (ws : List (Waiting S))
      → Obeys m p
      → Fits m (flag s) n
      → Pending n ws
      → IsLocked (enqueue (advance p s) ws)
  unfolding advance enqueue after_await
  advance-IsLocked (return x) outside s n ws o h q = subst (λ k. Pending k ws) h q
  advance-IsLocked (return x) seen_clear s n ws o (clear, e) q =
      rw clear (subst (λ k. Pending k ws) e q)
  advance-IsLocked (return x) inside s n ws o h q = absurd o
  advance-IsLocked (read k) m s n ws o h q =
      advance-IsLocked (k s) (after_read m (flag s)) s n ws (o s (inside_flag m (flag s) n h))
        (Fits-after_read m (flag s) n h) q
  advance-IsLocked (write g p) outside s n ws (keeps, o) h q =
      advance-IsLocked p outside (g s) n ws o (Fits-flag outside n (keeps s) h) q
  advance-IsLocked (write g p) seen_clear s n ws (inl (keeps, o)) h q =
      advance-IsLocked p seen_clear (g s) n ws o (Fits-flag seen_clear n (keeps s) h) q
  advance-IsLocked (write g p) seen_clear s n ws (inr (sets, o)) (_, e) q =
      advance-IsLocked p inside (g s) n ws o (sets s, e) q
  advance-IsLocked (write g p) inside s n ws (inl (keeps, o)) h q =
      advance-IsLocked p inside (g s) n ws o (Fits-flag inside n (keeps s) h) q
  advance-IsLocked (write g p) inside s n ws (inr (clears, o)) (_, e) q =
      advance-IsLocked p seen_clear (g s) n ws o (clears s, e) q
  advance-IsLocked (await e k) outside s n ws (g, o) h q =
      subst (λ j. Pending j (record { effect = e; next = k } ∷ ws)) h
        (idle (unguarded e outside g (λ x. cc)) o q)
  advance-IsLocked (await e k) seen_clear s n ws (g, o) (clear, z) q = rw clear (
      subst (λ j. Pending j (record { effect = e; next = k } ∷ ws)) z
        (idle (unguarded e seen_clear g (λ x. cc)) o q))
  advance-IsLocked (await e k) inside s n ws (g, o) (set, z) q =
      rw set (holds o (subst (λ j. Pending j ws) z q))
