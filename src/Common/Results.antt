-- ===== src/Common/Results.antt =====
-- What a JavaScript function that may throw returns: a value, or the error thrown.
use mathlib.Core.Path.{◌≡◌, refl, subst}
use mathlib.Core.Bool.{Bool, true, false}
use mathlib.Core.Logic.{◌⊎◌, inl, inr}
use ai_api_proxy.Common.Order.{if◌then◌else◌}

pub data Outcome {ℓ} (E : Type 0) (A : Type ℓ) : Type ℓ where
  ok : A → Outcome E A
  throws : E → Outcome E A

infixl 5 ◌>>=◌ ◌>>◌
abbrev pub ◌>>=◌ {ℓ κ} :
    {E : Type 0} {A : Type ℓ} {B : Type κ} → Outcome E A → (A → Outcome E B) → Outcome E B
ok a >>= f = f a
throws e >>= f = throws e

abbrev pub ◌>>◌ {ℓ} : {E : Type 0} {B : Type ℓ} → Outcome E (Unit {0}) → Outcome E B → Outcome E B
m >> k = m >>= λ _. k

-- `if (bad) throw e;`
abbrev pub throw_if : {E : Type 0} → Bool → E → Outcome E (Unit {0})
throw_if true e = throws e
throw_if false e = ok tt

-- A chain that returns has a first step that returns.
module _ {ℓ κ} {E : Type 0} {A : Type ℓ} {B : Type κ} {value : B} where
  pub >>=-eq-ok :
      (first : Outcome E A) (next : A → Outcome E B)
      → (first >>= next) ≡ ok value
      → (a : A) × (first ≡ ok a) × (next a ≡ ok value)
  >>=-eq-ok (throws _) next returned = cc
  >>=-eq-ok (ok a) next returned = (a, refl, returned)

pub Outcome-cases {ℓ} :
    {E : Type 0} {A : Type ℓ} (m : Outcome E A)
    → ((a : A) × (m ≡ ok a)) ⊎ ((e : E) × (m ≡ throws e))
Outcome-cases (ok a) = inl (a, refl)
Outcome-cases (throws e) = inr (e, refl)

-- An error that is thrown, if any, satisfies `P`.
module _ {ℓ} {E : Type 0} {A : Type ℓ} (P : E → Type 0) where
  abbrev pub ThrowsOnly : Outcome E A → Type 0
  ThrowsOnly (ok a) = Unit
  ThrowsOnly (throws e) = P e

  pub ThrowsOnly-elim : (m : Outcome E A) {e : E} → ThrowsOnly m → m ≡ throws e → P e
  ThrowsOnly-elim (ok a) h q = cc
  ThrowsOnly-elim (throws e) h q = subst ThrowsOnly q h

  pub ThrowsOnly-of : (m : Outcome E A) → ((e : E) → m ≡ throws e → P e) → ThrowsOnly m
  ThrowsOnly-of (ok a) h = tt
  ThrowsOnly-of (throws e) h = h e refl

module _ {ℓ κ} {E : Type 0} {A : Type ℓ} {B : Type κ} (P : E → Type 0) where
  pub ThrowsOnly->>= :
      (m : Outcome E A) (f : A → Outcome E B)
      → ThrowsOnly P m
      → ((a : A) → m ≡ ok a → ThrowsOnly P (f a))
      → ThrowsOnly P (m >>= f)
  ThrowsOnly->>= (ok a) f h k = k a refl
  ThrowsOnly->>= (throws e) f h k = h

pub ThrowsOnly-throw_if :
    {E : Type 0} (P : E → Type 0) (b : Bool) (e : E) → P e → ThrowsOnly P (throw_if b e)
ThrowsOnly-throw_if P true e h = h
ThrowsOnly-throw_if P false e h = tt

module _ {ℓ κ μ} {E : Type 0} {A : Type ℓ} {B : Type κ} {C : Type μ} where
  pub >>=_assoc :
      (m : Outcome E A) (f : A → Outcome E B) (g : B → Outcome E C)
      → ((m >>= f) >>= g) ≡ (m >>= λ a. f a >>= g)
  >>=_assoc (ok a) f g = refl
  >>=_assoc (throws e) f g = refl

pub if->>= {ℓ κ} :
    {E : Type 0} {A : Type ℓ} {B : Type κ} (c : Bool) (m n : Outcome E A) (f : A → Outcome E B)
    → ((if c then m else n) >>= f) ≡ (if c then m >>= f else n >>= f)
if->>= true m n f = refl
if->>= false m n f = refl

-- A value that is returned, if any, satisfies `P`.
module _ {ℓ} {E : Type 0} {A : Type ℓ} (P : A → Type 0) where
  abbrev pub Ensures : Outcome E A → Type 0
  Ensures (ok a) = P a
  Ensures (throws e) = Unit

  pub Ensures-elim : (m : Outcome E A) {a : A} → Ensures m → m ≡ ok a → P a
  Ensures-elim (ok a) h q = subst Ensures q h
  Ensures-elim (throws e) h q = cc

  pub Ensures-if :
      (c : Bool) (m n : Outcome E A)
      → (c ≡ true → Ensures m)
      → (c ≡ false → Ensures n)
      → Ensures (if c then m else n)
  Ensures-if true m n h k = h refl
  Ensures-if false m n h k = k refl

module _ {ℓ κ} {E : Type 0} {A : Type ℓ} {B : Type κ} (P : B → Type 0) where
  pub Ensures->>= :
      (m : Outcome E A) (f : A → Outcome E B)
      → ((a : A) → m ≡ ok a → Ensures P (f a))
      → Ensures P (m >>= f)
  Ensures->>= (ok a) f h = h a refl
  Ensures->>= (throws e) f h = tt

pub throw_if-eq-ok :
    {E : Type 0} (b : Bool) (e : E) {u : Unit {0}} → throw_if b e ≡ ok u → b ≡ false
throw_if-eq-ok true e h = cc
throw_if-eq-ok false e h = refl
