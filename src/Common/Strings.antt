-- ===== src/Common/Strings.antt =====
-- JavaScript strings, as lists of UTF-16 code units.
use Prim.Native.Char.{code}
use Prim.Native.Nat.{ℕ, zero, suc, ◌+◌, ◌/◌, ◌%◌}
use Prim.Native.String.{String}
use mathlib.Core.Bool.{Bool, true, false, ◌&&◌}
use mathlib.Core.List.{List, [], ◌∷◌}
use mathlib.Core.Logic.{◌↔◌}
use mathlib.Core.Path.{◌≡◌, ap, subst}
use native.Mathlib.Omega.{arith}
use ai_api_proxy.Common.Order.{◌==◌, if◌then◌else◌}

abbrev pub JsString : Type 0
JsString = List ℕ

-- A literal without characters beyond the basic plane.
abbrev pub js : String → JsString
js String.[] = []
js (String.◌∷◌ c s) = code c ∷ js s

-- `===` on strings.
unfoldable pub same_string : JsString → JsString → Bool
same_string [] [] = true
same_string (x ∷ xs) (y ∷ ys) = x == y && same_string xs ys
same_string _ _ = false

pub same_string_iff : (s t : JsString) → (same_string s t ≡ true) ↔ (s ≡ t)
unfolding same_string
same_string_iff (x ∷ s) (y ∷ t) = ground (arith, same_string_iff s t)
same_string_iff _ _ = ground arith

-- Two strings that are the same are the same as, and differ from, the same strings.
pub same_string_trans :
    (j k l : JsString) → same_string j k ≡ true → same_string j l ≡ same_string k l
same_string_trans j k l h = ap (λ s. same_string s l) ((same_string_iff j k).0 h)

pub same_string_apart :
    (j k l : JsString) → same_string j k ≡ false → same_string k l ≡ true → same_string j l ≡ false
same_string_apart j k l h same =
    subst (λ s. same_string j s ≡ false) ((same_string_iff k l).0 same) h

-- The decimal digits of a number, in front of `rest`; the fuel bounds their number.
unfoldable pub digits_onto : ℕ → ℕ → JsString → JsString
digits_onto zero n rest = rest
digits_onto (suc fuel) n rest =
    let rest' = (48 + n % 10) ∷ rest in
    let more = digits_onto fuel (n / 10) rest' in if n / 10 == 0 then rest' else more

-- `String(n)`, below 10 ^ 21.
unfoldable pub decimal : ℕ → JsString
unfolding digits_onto
decimal n = digits_onto (suc n) n []
