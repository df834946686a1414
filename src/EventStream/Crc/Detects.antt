-- ===== src/EventStream/Crc/Detects.antt =====
-- The rounds of `crc32` as maps of the 32-bit register, and bytes that differ in one place.
use ai_api_proxy.Common.{
  ℕ, zero, suc, ◌/◌, ◌%◌, ◌^◌, ◌<◌, List, [], ◌∷◌, ◌++◌, Bytes, take, concat, IsByte, All,
  All-append, bit_xor, ◌==◌, if◌then◌else◌, ◌≡◌, ◌≢◌, ap, ◌∙◌, arith, sym, Bool-cases, inl, inr,
}
use ai_api_proxy.Common.Bits.{
  bit_xor_cancel, bit_xor_cancel_left, bit_xor_comm, bit_xor-lt, bit_and-one, bit_xor-zero,
}
use ai_api_proxy.EventStream.Crc.{polynomial, all_ones, crc_bit, crc_bits, crc_byte, crc32}
use ai_api_proxy.EventStream.Crc.Flat.{crc_run, crc_run-append, checksum, crc32-checksum}

abbrev pub IsWord : ℕ → Type 0
IsWord c = c < 2 ^ 32

-- One round without the test on a masked bit.
crc_bit_lem : (c : ℕ) → crc_bit c ≡ (if c % 2 == 0 then c / 2 else bit_xor (c / 2) polynomial)
unfolding crc_bit
crc_bit_lem c = ground (arith, bit_and-one c, bit_xor-zero (c / 2))

crc_bit-lt : (c : ℕ) → IsWord c → IsWord (crc_bit c)
crc_bit-lt c h =
    rw (crc_bit_lem c)
      (ground (arith, bit_xor-lt 32 (c / 2) polynomial (omega arith) (omega arith)))

-- The polynomial has its top bit set, and a shifted register has not.
xor_polynomial-ne : (x y : ℕ) → x < 2 ^ 31 → y < 2 ^ 31 → bit_xor x polynomial ≢ y
xor_polynomial-ne x y hx hy e =
    let masked : bit_xor y x ≡ polynomial =
      ap (λ t. bit_xor t x) (sym e ∙ bit_xor_comm 32 x polynomial (omega arith) (omega arith))
      ∙ bit_xor_cancel 32 polynomial x (omega arith) (omega arith) in
    let small = bit_xor-lt 31 y x hy hx in absurd (omega arith)

halves-eq :
    (c d : ℕ)
    → IsWord c
    → IsWord d
    → c % 2 ≡ d % 2
    → bit_xor (c / 2) polynomial ≡ bit_xor (d / 2) polynomial
    → c ≡ d
halves-eq c d hc hd parity e =
    let back = λ (t : ℕ) (h : t < 2 ^ 32). bit_xor_cancel 32 t polynomial h (omega arith) in
    let halves : c / 2 ≡ d / 2 =
      sym (back (c / 2) (omega arith))
      ∙ ap (λ t. bit_xor t polynomial) e
      ∙ back (d / 2) (omega arith) in
    omega arith

crc_bit_injective : (c d : ℕ) → IsWord c → IsWord d → crc_bit c ≡ crc_bit d → c ≡ d
crc_bit_injective c d hc hd e =
    let e' = rw (crc_bit_lem c, crc_bit_lem d) at e in
    elim (Bool-cases (c % 2 == 0)) [
      | inl even_c ↦ elim (Bool-cases (d % 2 == 0)) [
        | inl even_d ↦ ground arith
        | inr odd_d ↦
            absurd (xor_polynomial-ne (d / 2) (c / 2) (omega arith) (omega arith) (ground arith))
      ]
      | inr odd_c ↦ elim (Bool-cases (d % 2 == 0)) [
        | inl even_d ↦
            absurd (xor_polynomial-ne (c / 2) (d / 2) (omega arith) (omega arith) (ground arith))
        | inr odd_d ↦ halves-eq c d hc hd (ground arith) (ground arith)
      ]
    ]

crc_bits-IsWord :
    (n c d : ℕ)
    → IsWord c
    → IsWord d
    → IsWord (crc_bits n c) × (crc_bits n c ≡ crc_bits n d → c ≡ d)
unfolding crc_bits
crc_bits-IsWord zero c d hc hd = (hc, λ e. e)
crc_bits-IsWord (suc n) c d hc hd =
    let (small, same) =
      crc_bits-IsWord n (crc_bit c) (crc_bit d) (crc_bit-lt c hc) (crc_bit-lt d hd) in
    (small, λ e. crc_bit_injective c d hc hd (same e))

module _ (c d x y : ℕ) (hc : IsWord c) (hd : IsWord d) (hx : IsByte x) (hy : IsByte y) where
  mixed : IsWord (bit_xor c x) × IsWord (bit_xor d y)
  mixed = (bit_xor-lt 32 c x hc (omega arith), bit_xor-lt 32 d y hd (omega arith))

  crc_byte-lt : IsWord (crc_byte c x)
  unfolding crc_byte
  crc_byte-lt = (crc_bits-IsWord 8 (bit_xor c x) (bit_xor d y) mixed.0 mixed.1).0

  crc_byte-mixed : crc_byte c x ≡ crc_byte d y → bit_xor c x ≡ bit_xor d y
  unfolding crc_byte
  crc_byte-mixed = (crc_bits-IsWord 8 (bit_xor c x) (bit_xor d y) mixed.0 mixed.1).1

crc_byte_injective :
    (c d x : ℕ) → IsWord c → IsWord d → IsByte x → crc_byte c x ≡ crc_byte d x → c ≡ d
crc_byte_injective c d x hc hd hx e =
    sym (bit_xor_cancel 32 c x hc (omega arith))
    ∙ ap (λ t. bit_xor t x) (crc_byte-mixed c d x x hc hd hx hx e)
    ∙ bit_xor_cancel 32 d x hd (omega arith)

crc_byte-byte_injective :
    (c x y : ℕ) → IsWord c → IsByte x → IsByte y → crc_byte c x ≡ crc_byte c y → x ≡ y
crc_byte-byte_injective c x y hc hx hy e =
    bit_xor_cancel_left 32 c x y hc (omega arith) (omega arith)
      (crc_byte-mixed c c x y hc hc hx hy e)

pub crc_run-lt : (bs : Bytes) (c : ℕ) → IsWord c → All IsByte bs → IsWord (crc_run c bs)
unfolding crc_run
crc_run-lt [] c hc h = hc
crc_run-lt (b ∷ bs) c hc h = crc_run-lt bs (crc_byte c b) (crc_byte-lt c c b b hc hc h.0 h.0) h.1

crc_run_injective :
    (bs : Bytes) (c d : ℕ)
    → IsWord c
    → IsWord d
    → All IsByte bs
    → crc_run c bs ≡ crc_run d bs
    → c ≡ d
unfolding crc_run
crc_run_injective [] c d hc hd h e = e
crc_run_injective (b ∷ bs) c d hc hd h e = crc_byte_injective c d b hc hd h.0 (
    crc_run_injective bs (crc_byte c b) (crc_byte d b) (crc_byte-lt c c b b hc hc h.0 h.0)
      (crc_byte-lt d d b b hd hd h.0 h.0) h.1 e)

pub checksum-lt : (bs : Bytes) → All IsByte bs → checksum bs < 2 ^ 32
unfolding checksum
checksum-lt bs h =
    bit_xor-lt 32 (crc_run all_ones bs) all_ones (crc_run-lt bs all_ones (omega arith) h)
      (omega arith)

run-eq_of_checksum :
    (xs ys : Bytes)
    → All IsByte xs
    → All IsByte ys
    → checksum xs ≡ checksum ys
    → crc_run all_ones xs ≡ crc_run all_ones ys
unfolding checksum
run-eq_of_checksum xs ys hx hy e =
    let back = λ (t : ℕ) (h : IsWord t). bit_xor_cancel 32 t all_ones h (omega arith) in
    sym (back (crc_run all_ones xs) (crc_run-lt xs all_ones (omega arith) hx))
    ∙ ap (λ t. bit_xor t all_ones) e
    ∙ back (crc_run all_ones ys) (crc_run-lt ys all_ones (omega arith) hy)

-- Changing the value of one byte, wherever it stands, changes the checksum.
pub checksum-ne_of_byte :
    (front back : Bytes) (x y : ℕ)
    → All IsByte front
    → All IsByte back
    → IsByte x
    → IsByte y
    → x ≢ y
    → checksum (front ++ (x ∷ back)) ≢ checksum (front ++ (y ∷ back))
checksum-ne_of_byte front back x y hf hb hx hy ne e =
    let s = crc_run all_ones front in
    let hs : IsWord s = crc_run-lt front all_ones (omega arith) hf in
    let whole = λ (z : ℕ) (h : IsByte z). All-append IsByte front (z ∷ back) hf (h, hb) in
    let runs =
      run-eq_of_checksum (front ++ (x ∷ back)) (front ++ (y ∷ back)) (whole x hx) (whole y hy) e in
    let split = λ (z : ℕ). crc_run-append all_ones front (z ∷ back) in
    ne (
      crc_byte-byte_injective s x y hs hx hy (
        crc_run_injective back (crc_byte s x) (crc_byte s y) (crc_byte-lt s s x x hs hs hx hx)
          (crc_byte-lt s s y y hs hs hy hy) hb (unfold crc_run in sym (split x) ∙ runs ∙ split y)))

-- If the bytes that `crc32` is to read differ in one place, its results differ, however either
-- bytes are spread over parts.
pub crc32-ne_of_byte :
    (parts parts' : List Bytes) (n n' : ℕ) (front back : Bytes) (x y : ℕ)
    → All IsByte front
    → All IsByte back
    → IsByte x
    → IsByte y
    → x ≢ y
    → take n (concat parts) ≡ front ++ (x ∷ back)
    → take n' (concat parts') ≡ front ++ (y ∷ back)
    → crc32 parts n ≢ crc32 parts' n'
crc32-ne_of_byte parts parts' n n' front back x y hf hb hx hy ne e e' same =
    checksum-ne_of_byte front back x y hf hb hx hy ne (
      ap checksum (sym e)
      ∙ sym (crc32-checksum parts n)
      ∙ same
      ∙ crc32-checksum parts' n'
      ∙ ap checksum e')
