-- ===== src/Common/Words.antt =====
-- Big-endian words and two's complement.
use Prim.Native.Nat.{ℕ, zero, suc, ◌+◌, ◌-◌, ◌*◌, ◌/◌, ◌%◌, ◌^◌, ◌<◌}
use mathlib.Core.Path.{◌≡◌, refl, ◌∙◌}
use mathlib.Core.List.{List, [], ◌∷◌, ◌++◌}
use native.Mathlib.Nat.{pow-suc}
use native.Mathlib.Omega.{arith}
use ai_api_proxy.Common.Order.{ltb, if◌then◌else◌}
use ai_api_proxy.Common.Lists.{length, length-append, All, All-append}

-- `negsuc n` is -(n + 1).
pub data ℤ : Type 0 where
  pos : ℕ → ℤ
  negsuc : ℕ → ℤ

-- The integer that a pattern of `width` bits stands for in two's complement.
abbrev pub signed : ℕ → ℕ → ℤ
signed width v = if ltb v (2 ^ (width - 1)) then pos v else negsuc (2 ^ width - 1 - v)

unfoldable pub big_endian_from : ℕ → List ℕ → ℕ
big_endian_from acc [] = acc
big_endian_from acc (b ∷ bs) = big_endian_from (acc * 256 + b) bs

-- The number that bytes spell, the most significant first.
unfoldable pub big_endian : List ℕ → ℕ
unfolding big_endian_from
big_endian bs = big_endian_from 0 bs

-- The `n` bytes of a number, the most significant first.
unfoldable pub big_endian_bytes : ℕ → ℕ → List ℕ
big_endian_bytes zero v = []
big_endian_bytes (suc n) v = big_endian_bytes n (v / 256) ++ (v % 256) ∷ []

pub length-big_endian_bytes : (n v : ℕ) → length (big_endian_bytes n v) ≡ n
unfolding big_endian_bytes
length-big_endian_bytes zero v = refl
length-big_endian_bytes (suc n) v = omega (
  arith,
  length-append (big_endian_bytes n (v / 256)) ((v % 256) ∷ []),
  length-big_endian_bytes n (v / 256),
)

pub big_endian_bytes-bytes : (n v : ℕ) → All (λ b. b < 256) (big_endian_bytes n v)
unfolding big_endian_bytes
big_endian_bytes-bytes zero v = tt
big_endian_bytes-bytes (suc n) v =
    All-append (λ b. b < 256) (big_endian_bytes n (v / 256)) ((v % 256) ∷ [])
      (big_endian_bytes-bytes n (v / 256)) (omega arith)

big_endian_from-append :
    (bs : List ℕ) (acc b : ℕ)
    → big_endian_from acc (bs ++ b ∷ []) ≡ big_endian_from acc bs * 256 + b
unfolding big_endian_from
big_endian_from-append [] acc b = refl
big_endian_from-append (x ∷ bs) acc b = big_endian_from-append bs (acc * 256 + x) b

pub big_endian-big_endian_bytes : (n v : ℕ) → v < 256 ^ n → big_endian (big_endian_bytes n v) ≡ v
unfolding big_endian big_endian_bytes
big_endian-big_endian_bytes zero v h = omega arith
big_endian-big_endian_bytes (suc n) v h =
    big_endian_from-append (big_endian_bytes n (v / 256)) 0 (v % 256)
    ∙ omega (
      arith,
      pow-suc 256 n,
      big_endian-big_endian_bytes n (v / 256) (omega (arith, pow-suc 256 n)),
    )
