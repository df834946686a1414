-- ===== src/Common/Numerals.antt =====
-- Different numbers have different decimal texts.
use Prim.Native.Nat.{ℕ, zero, suc, ◌+◌, ◌-◌, ◌*◌, ◌/◌, ◌%◌, ◌<◌}
use mathlib.Core.List.{[], ◌∷◌}
use mathlib.Core.Path.{◌≡◌, refl, ap, ◌∙◌, sym}
use mathlib.Core.Logic.{inl, inr}
use native.Mathlib.Omega.{arith}
use ai_api_proxy.Common.Order.{◌==◌, Bool-cases}
use ai_api_proxy.Common.Strings.{JsString, digits_onto, decimal}

-- The number that the digits of a text are, in front of which `n` stands.
read_onto : ℕ → JsString → ℕ
read_onto n [] = n
read_onto n (c ∷ s) = read_onto (n * 10 + (c - 48)) s

read_onto-digits_onto :
    (fuel n : ℕ) (rest : JsString)
    → n < fuel
    → read_onto 0 (digits_onto fuel n rest) ≡ read_onto n rest
unfolding digits_onto read_onto
read_onto-digits_onto zero n rest h = omega arith
read_onto-digits_onto (suc fuel) n rest h = elim (Bool-cases (n / 10 == 0)) [
  | inl last ↦
      let digit : 0 * 10 + ((48 + n % 10) - 48) ≡ n = ground arith in
      rw last (ap (λ m. read_onto m rest) digit)
  | inr more ↦
      let below : n / 10 < fuel = ground arith in
      let digit : (n / 10) * 10 + ((48 + n % 10) - 48) ≡ n = omega arith in
      rw more (
        read_onto-digits_onto fuel (n / 10) ((48 + n % 10) ∷ rest) below
        ∙ ap (λ m. read_onto m rest) digit)
]

read_onto-decimal : (n : ℕ) → read_onto 0 (decimal n) ≡ n
unfolding decimal
read_onto-decimal n = read_onto-digits_onto (suc n) n [] (omega arith) ∙ (unfold read_onto in refl)

pub decimal_inj : (m n : ℕ) → decimal m ≡ decimal n → m ≡ n
decimal_inj m n h = sym (read_onto-decimal m) ∙ ap (read_onto 0) h ∙ read_onto-decimal n
