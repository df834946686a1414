-- ===== src/EventStream/Utf8/Points.antt =====
-- One round of `decodeUTF8`, and the UTF-8 form of a scalar value.
use ai_api_proxy.Common.{
  ℕ, zero, suc, ◌+◌, ◌*◌, ◌/◌, ◌%◌, ◌^◌, ◌≤◌, ◌<◌, ◌⊎◌, inl, inr, [], ◌∷◌, ◌++◌, Bytes, IsByte, All,
  Bool, true, false, bit_and, bit_or, ltb, ◌==◌, length, ok, throw_if, ThrowsOnly, ThrowsOnly->>=,
  ThrowsOnly-throw_if, Bool-cases, ◌≡◌, refl, arith,
}
use ai_api_proxy.Common.Bits.{mask_c0, mask_3f, mask_1f, mask_0f, mask_07, bit_or_field}
use ai_api_proxy.EventStream.Errors.{DecodeError, invalid_utf8}
use ai_api_proxy.EventStream.Utf8.{lead, is_bad_next, follow, is_overlong, next_point}
use ai_api_proxy.EventStream.Utf8.Scalars.{IsScalar, utf8}

-- The shift and the masks of one round of `follow`, as arithmetic.
joined : (p n : ℕ) → n < 256 → bit_or (p * 2 ^ 6) (bit_and n 0x3f) ≡ p * 64 + n % 64
joined p n h = rw (mask_3f n h) (bit_or_field 6 p (n % 64) (omega arith))

-- The rounds for each number of following bytes, on bytes that pass the tests.
one : (a : ℕ) (rest : Bytes) → a < 0x80 → next_point a rest ≡ ok (a, rest)
unfolding next_point is_bad_next
one a rest h = ground arith

two :
    (a b : ℕ) (rest : Bytes)
    → 0xc2 ≤ a
    → a ≤ 0xdf
    → 0x80 ≤ b
    → b < 0xc0
    → next_point a (b ∷ rest) ≡ ok (a % 32 * 64 + b % 64, rest)
unfolding next_point is_bad_next
two a b rest h1 h2 h3 h4 = ground (arith, mask_c0 b, mask_1f a, joined (a % 32) b)

three :
    (a b c : ℕ) (rest : Bytes)
    → 0xe0 ≤ a
    → a ≤ 0xef
    → 0x80 ≤ b
    → b < 0xc0
    → 0x80 ≤ c
    → c < 0xc0
    → (a ≡ 0xe0 → 0xa0 ≤ b)
    → (a ≡ 0xed → b < 0xa0)
    → next_point a (b ∷ c ∷ rest) ≡ ok ((a % 16 * 64 + b % 64) * 64 + c % 64, rest)
unfolding next_point is_bad_next
three a b c rest h1 h2 h3 h4 h5 h6 h7 h8 =
    ground
      (arith, mask_c0 b, mask_c0 c, mask_0f a, joined (a % 16) b, joined (a % 16 * 64 + b % 64) c)

four :
    (a b c d : ℕ) (rest : Bytes)
    → 0xf0 ≤ a
    → a ≤ 0xf4
    → 0x80 ≤ b
    → b < 0xc0
    → 0x80 ≤ c
    → c < 0xc0
    → 0x80 ≤ d
    → d < 0xc0
    → (a ≡ 0xf0 → 0x90 ≤ b)
    → (a ≡ 0xf4 → b < 0x90)
    → next_point a (b ∷ c ∷ d ∷ rest)
      ≡ ok (((a % 8 * 64 + b % 64) * 64 + c % 64) * 64 + d % 64, rest)
unfolding next_point is_bad_next
four a b c d rest h1 h2 h3 h4 h5 h6 h7 h8 h9 h10 = ground (
  arith,
  mask_c0 b,
  mask_c0 c,
  mask_c0 d,
  mask_07 a,
  joined (a % 8) b,
  joined (a % 8 * 64 + b % 64) c,
  joined ((a % 8 * 64 + b % 64) * 64 + c % 64) d,
)

-- A scalar value is read back from its UTF-8 form, whatever follows.
pub next_point-utf8 :
    (c first : ℕ) (more rest : Bytes)
    → IsScalar c
    → utf8 c ≡ first ∷ more
    → next_point first (more ++ rest) ≡ ok (c, rest)
unfolding utf8
next_point-utf8 c first more rest h e = ground (
  arith,
  one c rest,
  two (0xc0 + c / 64) (0x80 + c % 64) rest,
  three (0xe0 + c / 4096) (0x80 + c / 64 % 64) (0x80 + c % 64) rest,
  four (0xf0 + c / 262144) (0x80 + c / 4096 % 64) (0x80 + c / 64 % 64) (0x80 + c % 64) rest,
)

sound_two :
    (a : ℕ) (rest : Bytes) {c : ℕ} {rest' : Bytes}
    → 0xc2 ≤ a
    → a ≤ 0xdf
    → All IsByte rest
    → next_point a rest ≡ ok (c, rest')
    → IsScalar c × (a ∷ rest ≡ utf8 c ++ rest')
unfolding next_point is_bad_next utf8
sound_two a [] h1 h2 hb e = ground arith
sound_two a (b ∷ rest) h1 h2 hb e = ground (arith, mask_c0 b, mask_1f a, joined (a % 32) b)

sound_three :
    (a : ℕ) (rest : Bytes) {c : ℕ} {rest' : Bytes}
    → 0xe0 ≤ a
    → a ≤ 0xef
    → All IsByte rest
    → next_point a rest ≡ ok (c, rest')
    → IsScalar c × (a ∷ rest ≡ utf8 c ++ rest')
unfolding next_point is_bad_next utf8
sound_three a [] h1 h2 hb e = ground arith
sound_three a (b ∷ []) h1 h2 hb e = ground arith
sound_three a (b ∷ c ∷ rest) h1 h2 hb e =
    ground
      (arith, mask_c0 b, mask_c0 c, mask_0f a, joined (a % 16) b, joined (a % 16 * 64 + b % 64) c)

-- What the test on a following byte lets through.
good_next :
    (first : ℕ) (at_start : Bool) (n : ℕ)
    → n < 256
    → is_bad_next first at_start n ≡ false
    → (0x80 ≤ n)
      × (n < 0xc0)
      × (at_start ≡ true → first ≡ 0xf0 → 0x90 ≤ n)
      × (at_start ≡ true → first ≡ 0xf4 → n < 0x90)
unfolding is_bad_next
good_next first at_start n h e = ground (arith, mask_c0 n)

four_tests :
    (a b c d : ℕ) (rest : Bytes) {r : ℕ × Bytes}
    → 0xf0 ≤ a
    → a ≤ 0xf4
    → next_point a (b ∷ c ∷ d ∷ rest) ≡ ok r
    → (is_bad_next a true b ≡ false)
      × (is_bad_next a false c ≡ false)
      × (is_bad_next a false d ≡ false)
unfolding next_point
four_tests a b c d rest h1 h2 e = ground arith

utf8_four :
    (a b c d : ℕ)
    → 0xf0 ≤ a
    → a ≤ 0xf4
    → 0x80 ≤ b
    → b < 0xc0
    → 0x80 ≤ c
    → c < 0xc0
    → 0x80 ≤ d
    → d < 0xc0
    → (a ≡ 0xf0 → 0x90 ≤ b)
    → (a ≡ 0xf4 → b < 0x90)
    → let point = ((a % 8 * 64 + b % 64) * 64 + c % 64) * 64 + d % 64 in
      IsScalar point × (utf8 point ≡ a ∷ b ∷ c ∷ d ∷ [])
unfolding utf8
utf8_four a b c d h1 h2 h3 h4 h5 h6 h7 h8 h9 h10 = ground arith

sound_four :
    (a : ℕ) (rest : Bytes) {c : ℕ} {rest' : Bytes}
    → 0xf0 ≤ a
    → a ≤ 0xf4
    → All IsByte rest
    → next_point a rest ≡ ok (c, rest')
    → IsScalar c × (a ∷ rest ≡ utf8 c ++ rest')
unfolding next_point is_bad_next
sound_four a [] h1 h2 hb e = ground arith
sound_four a (b ∷ []) h1 h2 hb e = ground arith
sound_four a (b ∷ c ∷ []) h1 h2 hb e = ground arith
sound_four a (b ∷ c ∷ d ∷ rest) h1 h2 hb e =
    let (tb, tc, td) = four_tests a b c d rest h1 h2 e in
    let (b1, b2, b3, b4) = good_next a true b hb.0 tb in
    let (c1, c2, _, _) = good_next a false c hb.1.0 tc in
    let (d1, d2, _, _) = good_next a false d hb.1.1.0 td in
    let read = four a b c d rest h1 h2 b1 b2 c1 c2 d1 d2 (b3 refl) (b4 refl) in
    ground (arith, utf8_four a b c d h1 h2 b1 b2 c1 c2 d1 d2 (b3 refl) (b4 refl))

sound_one :
    (a : ℕ) (rest : Bytes) {c : ℕ} {rest' : Bytes}
    → a < 0x80
    → next_point a rest ≡ ok (c, rest')
    → IsScalar c × (a ∷ rest ≡ utf8 c ++ rest')
unfolding next_point is_bad_next utf8
sound_one a rest h e = ground arith

lead_range :
    (a : ℕ) (rest : Bytes) {r : ℕ × Bytes}
    → next_point a rest ≡ ok r
    → (a < 0x80) ⊎ ((0xc2 ≤ a) × (a ≤ 0xdf)) ⊎ ((0xe0 ≤ a) × (a ≤ 0xef)) ⊎ ((0xf0 ≤ a) × (a ≤ 0xf4))
unfolding next_point is_bad_next
lead_range a rest e = ground arith

-- What a round reads is the UTF-8 form of the scalar value that it gives.
pub next_point_sound :
    (a : ℕ) (rest : Bytes) {c : ℕ} {rest' : Bytes}
    → All IsByte rest
    → next_point a rest ≡ ok (c, rest')
    → IsScalar c × (a ∷ rest ≡ utf8 c ++ rest')
next_point_sound a rest hb e = elim (lead_range a rest e) [
  | inl h ↦ sound_one a rest h e
  | inr (inl (h, k)) ↦ sound_two a rest h k hb e
  | inr (inr (inl (h, k))) ↦ sound_three a rest h k hb e
  | inr (inr (inr (h, k))) ↦ sound_four a rest h k hb e
]

abbrev IsInvalid : DecodeError → Type 0
IsInvalid e = e ≡ invalid_utf8

lead-ThrowsOnly : (a : ℕ) → ThrowsOnly IsInvalid (lead a)
unfolding lead
lead-ThrowsOnly a = ground arith

follow-ThrowsOnly :
    (first j left point : ℕ) (rest : Bytes) → ThrowsOnly IsInvalid (follow first j left point rest)
unfolding follow
follow-ThrowsOnly first j zero point rest = tt
follow-ThrowsOnly first j (suc left) point [] = refl
follow-ThrowsOnly first j (suc left) point (n ∷ rest) =
    elim (Bool-cases (is_bad_next first (j == 0) n)) [
      | inl bad ↦ rw bad refl
      | inr good ↦
          rw good
            (follow-ThrowsOnly first (j + 1) left (bit_or (point * 2 ^ 6) (bit_and n 0x3f)) rest)
    ]

-- A round throws nothing but "invalid UTF-8".
pub next_point-ThrowsOnly : (a : ℕ) (rest : Bytes) → ThrowsOnly IsInvalid (next_point a rest)
unfolding next_point
next_point-ThrowsOnly a rest =
    ThrowsOnly->>= IsInvalid (lead a) _ (lead-ThrowsOnly a) λ (start, count) _.
      ThrowsOnly->>= IsInvalid (throw_if (ltb (length rest) count) invalid_utf8) _
        (ThrowsOnly-throw_if IsInvalid _ _ refl)
        λ _ _.
          ThrowsOnly->>= IsInvalid (follow a 0 count start rest) _
            (follow-ThrowsOnly a 0 count start rest)
            λ (point, rest') _.
              ThrowsOnly->>= IsInvalid (throw_if (is_overlong count point) invalid_utf8) _
                (ThrowsOnly-throw_if IsInvalid _ _ refl) λ _ _. tt
