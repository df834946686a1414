-- ===== src/Common/Bits.antt =====
-- Laws of the bit operations at variables: the recursion on the lowest digit, masks and fields as
-- arithmetic, and the laws of exclusive or.
use Prim.Native.Nat.{
  ℕ, zero, suc, ◌+◌, ◌-◌, ◌*◌, ◌/◌, ◌%◌, ◌^◌, ◌≤◌, ◌<◌, min, max, bit_and, bit_or, bit_xor, digits,
  bitwise, differ, bit_and-bitwise, bit_or-bitwise, bit_xor-bitwise,
}
use mathlib.Core.Path.{◌≡◌, refl, sym, ap, subst, ◌∙◌}
use mathlib.Core.Bool.{Bool, true, false}
use mathlib.Core.Logic.{ite}
use mathlib.Core.WellFounded
use native.Mathlib.Nat.{pow-suc}
use native.Mathlib.Omega.{arith}
use native.Mathlib.Decide.{ℕ_discrete}
use ai_api_proxy.Common.Order.{lt_wf}

-- `bitwise z f` recurses on the binary digits of its first number, on fuel; it agrees with
-- `f` digit by digit if `z`, taken when that number has run out, does.
module _ (z : ℕ → ℕ) (f : ℕ → ℕ → ℕ) where
  digits_extra : (fuel a b : ℕ) → a ≤ fuel → digits z f (suc fuel) a b ≡ digits z f fuel a b
  digits_extra zero zero b h = refl
  digits_extra (suc fuel) zero b h = refl
  digits_extra zero (suc a) b h = absurd (omega arith)
  digits_extra (suc fuel) (suc a) b h =
      let halves = digits_extra fuel (suc a / 2) (b / 2) (omega arith) in
      ap (λ (t : ℕ). t * 2 + f (suc a % 2) (b % 2)) halves

  digits_enough : (extra fuel a b : ℕ) → fuel ≡ extra + a → digits z f fuel a b ≡ digits z f a a b
  digits_enough zero fuel a b e = ap (λ (n : ℕ). digits z f n a b) (omega arith)
  digits_enough (suc extra) zero a b e = absurd (omega arith)
  digits_enough (suc extra) (suc fuel) a b e =
      digits_extra fuel a b (omega arith) ∙ digits_enough extra fuel a b (omega arith)

  bitwise_digit :
      ((y : ℕ) → z y ≡ z (y / 2) * 2 + f 0 (y % 2))
      → (a b : ℕ) → bitwise z f a b ≡ bitwise z f (a / 2) (b / 2) * 2 + f (a % 2) (b % 2)
  bitwise_digit base zero b = base b
  bitwise_digit base (suc a) b =
      let enough = digits_enough (a - suc a / 2) a (suc a / 2) (b / 2) (omega arith) in
      ap (λ (t : ℕ). t * 2 + f (suc a % 2) (b % 2)) enough

pub bit_or_step : (x y : ℕ) → bit_or x y ≡ bit_or (x / 2) (y / 2) * 2 + max (x % 2) (y % 2)
bit_or_step x y = simp bit_or-bitwise (bitwise_digit (λ v. v) max (λ v. omega arith) x y)

pub bit_and_step : (x y : ℕ) → bit_and x y ≡ bit_and (x / 2) (y / 2) * 2 + min (x % 2) (y % 2)
bit_and_step x y = simp bit_and-bitwise (bitwise_digit (λ v. 0) min (λ v. omega arith) x y)

pub bit_xor_step : (x y : ℕ) → bit_xor x y ≡ bit_xor (x / 2) (y / 2) * 2 + differ (x % 2) (y % 2)
bit_xor_step x y = simp bit_xor-bitwise (bitwise_digit (λ v. v) differ (λ v. omega arith) x y)

zero-bit_xor : (b : ℕ) → bit_xor 0 b ≡ b
zero-bit_xor b = simp bit_xor-bitwise

differ_cases : (x y : ℕ) → x < 2 → y < 2 → (differ x y < 2) × (differ (differ x y) y ≡ x)
differ_cases zero zero p q = (omega arith, refl)
differ_cases zero (suc zero) p q = (omega arith, refl)
differ_cases (suc zero) zero p q = (omega arith, refl)
differ_cases (suc zero) (suc zero) p q = (omega arith, refl)
differ_cases (suc (suc x)) y p q = absurd (omega arith)
differ_cases zero (suc (suc y)) p q = absurd (omega arith)
differ_cases (suc zero) (suc (suc y)) p q = absurd (omega arith)

pub bit_xor_half : (a b : ℕ) → bit_xor a b / 2 ≡ bit_xor (a / 2) (b / 2)
bit_xor_half a b =
    omega (arith, bit_xor_step a b, (differ_cases (a % 2) (b % 2) (omega arith) (omega arith)).0)

pub bit_xor_parity : (a b : ℕ) → bit_xor a b % 2 ≡ differ (a % 2) (b % 2)
bit_xor_parity a b =
    omega (arith, bit_xor_step a b, (differ_cases (a % 2) (b % 2) (omega arith) (omega arith)).0)

-- A mask of exclusive or is taken off by the same mask.
pub bit_xor_cancel : (k a b : ℕ) → a < 2 ^ k → b < 2 ^ k → bit_xor (bit_xor a b) b ≡ a
bit_xor_cancel zero zero zero p q = refl
bit_xor_cancel zero zero (suc b) p q = absurd (omega arith)
bit_xor_cancel zero (suc a) b p q = absurd (omega arith)
bit_xor_cancel (suc k) a b p q = omega (
  arith,
  pow-suc 2 k,
  bit_xor_half (bit_xor a b) b,
  bit_xor_parity (bit_xor a b) b,
  ap (λ (t : ℕ). bit_xor t (b / 2)) (bit_xor_half a b),
  ap (λ (t : ℕ). differ t (b % 2)) (bit_xor_parity a b),
  (differ_cases (a % 2) (b % 2) (omega arith) (omega arith)).1,
  bit_xor_cancel k (a / 2) (b / 2) (omega (arith, pow-suc 2 k)) (omega (arith, pow-suc 2 k)),
)

pub bit_xor-lt : (k a b : ℕ) → a < 2 ^ k → b < 2 ^ k → bit_xor a b < 2 ^ k
bit_xor-lt zero zero zero p q = omega arith
bit_xor-lt zero zero (suc b) p q = absurd (omega arith)
bit_xor-lt zero (suc a) b p q = absurd (omega arith)
bit_xor-lt (suc k) a b p q = omega (
  arith,
  pow-suc 2 k,
  bit_xor_half a b,
  bit_xor-lt k (a / 2) (b / 2) (omega (arith, pow-suc 2 k)) (omega (arith, pow-suc 2 k)),
)

-- What holds of 0, and of each number of whose half it holds, holds of all.
by_halves : (P : ℕ → Type 0) → P 0 → ((n : ℕ) → 0 < n → P (n / 2) → P n) → (n : ℕ) → P n
by_halves P base up k = WellFounded.induction lt_wf {C = P} k λ n smaller. elim (ℕ_discrete n 0) [
  | yes e ↦ subst P (sym e) base
  | no e ↦ up n (omega arith) (smaller (n / 2) (omega arith))
]

bit_or-zero : (a : ℕ) → bit_or a 0 ≡ a
bit_or-zero = by_halves (λ n. bit_or n 0 ≡ n) refl λ n h half. omega (arith, bit_or_step n 0)

bit_and-zero : (a : ℕ) → bit_and a 0 ≡ 0
bit_and-zero = by_halves (λ n. bit_and n 0 ≡ 0) refl λ n h half. omega (arith, bit_and_step n 0)

-- A shifted field has the digit 0 last, and its half is shifted by one less.
shifted_half : (k q : ℕ) → (q * 2 ^ suc k / 2 ≡ q * 2 ^ k) × (q * 2 ^ suc k % 2 ≡ 0)
shifted_half k q =
    let twice : q * 2 ^ suc k ≡ q * (2 ^ k * 2) = ap (λ (w : ℕ). q * w) (pow-suc 2 k) in
    (omega arith, omega arith)

-- `(q << k) | r` is a sum when `r` fits `k` bits.
pub bit_or_field : (k q r : ℕ) → r < 2 ^ k → bit_or (q * 2 ^ k) r ≡ q * 2 ^ k + r
bit_or_field zero q r fits =
    let nothing : r ≡ 0 = omega arith in rw nothing (omega (arith, bit_or-zero (q * 1)))
bit_or_field (suc k) q r fits =
    let (half, last) = shifted_half k q in
    let low = bit_or_field k q (r / 2) (omega (arith, pow-suc 2 k)) in
    let high = ap (λ (t : ℕ). bit_or t (r / 2)) half in
    omega (arith, half, last, low, high, bit_or_step (q * 2 ^ suc k) r)

pub bit_and-one : (a : ℕ) → bit_and a 1 ≡ a % 2
bit_and-one a = omega (arith, bit_and_step a 1, bit_and-zero (a / 2))

differ_comm : (x y : ℕ) → differ x y ≡ differ y x
differ_comm zero zero = refl
differ_comm zero (suc y) = refl
differ_comm (suc x) zero = refl
differ_comm (suc x) (suc y) = differ_comm x y

pub bit_xor_comm : (k a b : ℕ) → a < 2 ^ k → b < 2 ^ k → bit_xor a b ≡ bit_xor b a
bit_xor_comm zero zero zero p q = refl
bit_xor_comm zero zero (suc b) p q = absurd (omega arith)
bit_xor_comm zero (suc a) b p q = absurd (omega arith)
bit_xor_comm (suc k) a b p q = omega (
  arith,
  bit_xor_step a b,
  bit_xor_step b a,
  differ_comm (a % 2) (b % 2),
  bit_xor_comm k (a / 2) (b / 2) (omega (arith, pow-suc 2 k)) (omega (arith, pow-suc 2 k)),
)

differ-zero : (x : ℕ) → differ x 0 ≡ x
differ-zero zero = refl
differ-zero (suc x) = refl

pub bit_xor-zero : (a : ℕ) → bit_xor a 0 ≡ a
bit_xor-zero =
    by_halves (λ n. bit_xor n 0 ≡ n) refl
      λ n h half. omega (arith, bit_xor_step n 0, differ-zero (n % 2))

pub bit_xor_cancel_left :
    (k a b c : ℕ) → a < 2 ^ k → b < 2 ^ k → c < 2 ^ k → bit_xor a b ≡ bit_xor a c → b ≡ c
bit_xor_cancel_left k a b c ha hb hc e =
    sym (bit_xor_cancel k b a hb ha)
    ∙ ap (λ t. bit_xor t a) (bit_xor_comm k b a hb ha ∙ e ∙ bit_xor_comm k a c ha hc)
    ∙ bit_xor_cancel k c a hc ha

-- Two functions that agree on every value of a small range, checked by evaluation.
module _ (f g : ℕ → ℕ) where
  pub agree_below : ℕ → Bool
  unfolding ℕ_discrete
  agree_below zero = true
  agree_below (suc n) = ite (ℕ_discrete (f n) (g n)) (agree_below n) false

  agree_below→eq : (n : ℕ) → agree_below n ≡ true → (i : ℕ) → i < n → f i ≡ g i
  unfolding agree_below
  agree_below→eq zero e i h = absurd (omega arith)
  agree_below→eq (suc n) e i h = ground (arith, agree_below→eq n (ground arith) i)

-- The masks that the UTF-8 decoder lays over a byte.
pub mask_c0 : (b : ℕ) → b < 256 → bit_and b 0xc0 ≡ b / 64 * 64
unfolding agree_below
mask_c0 = agree_below→eq _ _ 256 refl

pub mask_3f : (b : ℕ) → b < 256 → bit_and b 0x3f ≡ b % 64
unfolding agree_below
mask_3f = agree_below→eq _ _ 256 refl

pub mask_1f : (b : ℕ) → b < 256 → bit_and b 0x1f ≡ b % 32
unfolding agree_below
mask_1f = agree_below→eq _ _ 256 refl

pub mask_0f : (b : ℕ) → b < 256 → bit_and b 0x0f ≡ b % 16
unfolding agree_below
mask_0f = agree_below→eq _ _ 256 refl

pub mask_07 : (b : ℕ) → b < 256 → bit_and b 0x07 ≡ b % 8
unfolding agree_below
mask_07 = agree_below→eq _ _ 256 refl

-- A mask of `k` ones keeps the last `k` digits.
bit_and_ones :
    (k m high low : ℕ) → suc m ≡ 2 ^ k → low < 2 ^ k → bit_and (high * 2 ^ k + low) m ≡ low
bit_and_ones zero m high low ones fits =
    let nothing : m ≡ 0 = omega arith in rw nothing (omega (arith, bit_and-zero (high * 1 + low)))
bit_and_ones (suc k) m high low ones fits =
    let (half, last) = shifted_half k high in
    let whole = high * 2 ^ suc k + low in
    let halved : whole / 2 ≡ high * 2 ^ k + low / 2 = omega (arith, half, last) in
    let rest =
      ap (λ (t : ℕ). bit_and t (m / 2)) halved
      ∙ bit_and_ones k (m / 2) high (low / 2) (omega (arith, pow-suc 2 k))
          (omega (arith, pow-suc 2 k)) in
    omega (arith, half, last, rest, bit_and_step whole m, pow-suc 2 k)

pub mask_3ff : (a : ℕ) → bit_and a 0x3ff ≡ a % 1024
mask_3ff a =
    let split : a / 1024 * 2 ^ 10 + a % 1024 ≡ a = omega arith in
    ap (λ (t : ℕ). bit_and t 0x3ff) (sym split)
    ∙ bit_and_ones 10 0x3ff (a / 1024) (a % 1024) refl (omega arith)
