-- ===== src/EventStream/Frames/Checked.antt =====
-- Words that are checksums, and bytes of which one is changed.
use ai_api_proxy.Common.{
  ℕ, suc, ◌+◌, ◌-◌, ◌*◌, ◌%◌, ◌^◌, ◌<◌, ◌≤◌, [], ◌∷◌, ◌++◌, Bytes, IsByte, All, false, ltb, length,
  take, drop, ok, throws, ◌≡◌, ◌≢◌, refl, sym, ap, ◌∙◌, arith, length-append, append_assoc,
  All-take, All-drop, length-take, length-drop, take-append-drop, take-append_ge, take-append_le,
  Bool-cases, inl, inr, ◌==◌,
}
use ai_api_proxy.EventStream.Crc.Detects.{checksum-ne_of_byte}
use ai_api_proxy.EventStream.Crc.Flat.{checksum}
use ai_api_proxy.EventStream.Errors.{prelude_crc_mismatch, message_crc_mismatch}
use ai_api_proxy.EventStream.Segments.Flat.{byte_of, u32_of}
use ai_api_proxy.EventStream.Frames.Flat.{front, front_prelude, front_body}
use ai_api_proxy.EventStream.Frames.RoundTrip.{byte_of-append_ge}

u32_of-append_ge : (xs ys : Bytes) (i k : ℕ) → i ≡ length xs + k → u32_of (xs ++ ys) i ≡ u32_of ys k
unfolding u32_of
u32_of-append_ge xs ys i k e =
    let read = λ (j : ℕ) (n : ℕ) (f : n ≡ length xs + j). byte_of-append_ge xs ys n j f in
    rw
      (
        read k i e,
        read (k + 1) (i + 1) (omega arith),
        read (k + 2) (i + 2) (omega arith),
        read (k + 3) (i + 3) (omega arith),
      )
      refl

u32_of_word :
    (a b c d : ℕ) (r : Bytes)
    → u32_of (a ∷ b ∷ c ∷ d ∷ r) 0 ≡ ok ((a * 0x1000000 + b * 2 ^ 16 + c * 2 ^ 8 + d) % 2 ^ 32)
unfolding u32_of byte_of
u32_of_word a b c d r = ground arith

words-eq :
    (a b c d a' b' c' d' v : ℕ) (r : Bytes)
    → All IsByte (a ∷ b ∷ c ∷ d ∷ [])
    → All IsByte (a' ∷ b' ∷ c' ∷ d' ∷ [])
    → u32_of (a ∷ b ∷ c ∷ d ∷ r) 0 ≡ ok v
    → u32_of (a' ∷ b' ∷ c' ∷ d' ∷ r) 0 ≡ ok v
    → (a * 0x1000000 + b * 2 ^ 16 + c * 2 ^ 8 + d)
      ≡ (a' * 0x1000000 + b' * 2 ^ 16 + c' * 2 ^ 8 + d')
words-eq a b c d a' b' c' d' v r h h' e e' =
    let same : (a * 0x1000000 + b * 2 ^ 16 + c * 2 ^ 8 + d) % 2 ^ 32
        ≡ (a' * 0x1000000 + b' * 2 ^ 16 + c' * 2 ^ 8 + d') % 2 ^ 32 =
      cc (u32_of_word a b c d r, u32_of_word a' b' c' d' r, e, e') in
    omega arith

-- A word of which one byte differs is another number.
word-ne_of_byte :
    (l r : Bytes) (x y v : ℕ)
    → length l < 4
    → 4 ≤ length l + 1 + length r
    → All IsByte l
    → All IsByte r
    → IsByte x
    → IsByte y
    → x ≢ y
    → u32_of (l ++ (x ∷ r)) 0 ≡ ok v
    → u32_of (l ++ (y ∷ r)) 0 ≢ ok v
word-ne_of_byte [] (b ∷ c ∷ d ∷ r) x y v s n hl hr hx hy ne e e' =
    let same =
      words-eq x b c d y b c d v r (hx, (hr.0, (hr.1.0, (hr.1.1.0, tt))))
        (hy, (hr.0, (hr.1.0, (hr.1.1.0, tt)))) e e' in
    ne (omega arith)
word-ne_of_byte (a ∷ []) (c ∷ d ∷ r) x y v s n hl hr hx hy ne e e' =
    let same =
      words-eq a x c d a y c d v r (hl.0, (hx, (hr.0, (hr.1.0, tt))))
        (hl.0, (hy, (hr.0, (hr.1.0, tt)))) e e' in
    ne (omega arith)
word-ne_of_byte (a ∷ b ∷ []) (d ∷ r) x y v s n hl hr hx hy ne e e' =
    let same =
      words-eq a b x d a b y d v r (hl.0, (hl.1.0, (hx, (hr.0, tt))))
        (hl.0, (hl.1.0, (hy, (hr.0, tt)))) e e' in
    ne (omega arith)
word-ne_of_byte (a ∷ b ∷ c ∷ []) r x y v s n hl hr hx hy ne e e' =
    let same =
      words-eq a b c x a b c y v r (hl.0, (hl.1.0, (hl.1.1.0, (hx, tt))))
        (hl.0, (hl.1.0, (hl.1.1.0, (hy, tt)))) e e' in
    ne (omega arith)
word-ne_of_byte _ _ x y v s n hl hr hx hy ne e e' = absurd (omega arith)

-- The word at `n` is the checksum of the bytes in front of it.
abbrev pub Checks : ℕ → Bytes → Type 0
Checks n bs = u32_of bs n ≡ ok (checksum (take n bs))

-- Bytes around the one that is changed.
module _ (l r : Bytes) (hl : All IsByte l) (hr : All IsByte r) where
  word_behind : (n z : ℕ) → length l < n → u32_of (l ++ (z ∷ r)) n ≡ u32_of r (n - length l - 1)
  word_behind n z h =
      ap (λ t. u32_of t n) (sym (append_assoc l (z ∷ []) r))
      ∙ u32_of-append_ge (l ++ z ∷ []) r n (n - length l - 1)
          (omega (arith, length-append l (z ∷ [])))

  take_behind :
      (n z : ℕ) → length l < n → take n (l ++ (z ∷ r)) ≡ l ++ (z ∷ take (n - length l - 1) r)
  take_behind n z h =
      let more : n - length l ≡ suc (n - length l - 1) = omega arith in
      take-append_ge n l (z ∷ r) (omega arith) ∙ ap (λ k. l ++ take k (z ∷ r)) more

  word_inside : (n z : ℕ) → n ≤ length l → u32_of (l ++ (z ∷ r)) n ≡ u32_of (drop n l ++ (z ∷ r)) 0
  word_inside n z h =
      let cut : take n l ++ (drop n l ++ (z ∷ r)) ≡ l ++ (z ∷ r) =
        sym (append_assoc (take n l) (drop n l) (z ∷ r))
        ∙ ap (λ t. t ++ (z ∷ r)) (take-append-drop n l) in
      ap (λ t. u32_of t n) (sym cut)
      ∙ u32_of-append_ge (take n l) (drop n l ++ (z ∷ r)) n 0 (omega (arith, length-take n l))

  -- If one byte is changed, of those under a checksum or of the checksum, then it is wrong.
  pub Checks-damaged :
      (n x y : ℕ)
      → length l < n + 4
      → n + 4 ≤ length l + 1 + length r
      → IsByte x
      → IsByte y
      → x ≢ y
      → Checks n (l ++ (x ∷ r))
      → Checks n (l ++ (y ∷ r))
      → ⊥
  Checks-damaged n x y near fits hx hy ne right wrong = elim (Bool-cases (ltb (length l) n)) [
    | inl covered ↦
        let h : length l < n = ground arith in
        let t = take (n - length l - 1) r in
        let word : u32_of (l ++ (x ∷ r)) n ≡ u32_of (l ++ (y ∷ r)) n =
          word_behind n x h ∙ sym (word_behind n y h) in
        let right' : u32_of (l ++ (x ∷ r)) n ≡ ok (checksum (l ++ (x ∷ t))) =
          right ∙ ap (λ b. ok (checksum b)) (take_behind n x h) in
        let wrong' : u32_of (l ++ (y ∷ r)) n ≡ ok (checksum (l ++ (y ∷ t))) =
          wrong ∙ ap (λ b. ok (checksum b)) (take_behind n y h) in
        checksum-ne_of_byte l t x y hl (All-take IsByte (n - length l - 1) r hr) hx hy ne
          (cc (word, right', wrong'))
    | inr in_word ↦
        let h : n ≤ length l = ground arith in
        let front = λ (z : ℕ). take-append_le n l (z ∷ r) h in
        let right' : u32_of (drop n l ++ (x ∷ r)) 0 ≡ ok (checksum (take n l)) =
          sym (word_inside n x h) ∙ right ∙ ap (λ b. ok (checksum b)) (front x) in
        let wrong' : u32_of (drop n l ++ (y ∷ r)) 0 ≡ ok (checksum (take n l)) =
          sym (word_inside n y h) ∙ wrong ∙ ap (λ b. ok (checksum b)) (front y) in
        word-ne_of_byte (drop n l) r x y (checksum (take n l)) (omega (arith, length-drop n l))
          (omega (arith, length-drop n l)) (All-drop IsByte n l hl) hr hx hy ne right' wrong'
  ]

word_there : (bs : Bytes) → 4 ≤ length bs → (v : ℕ) × (u32_of bs 0 ≡ ok v)
word_there (a ∷ b ∷ c ∷ d ∷ r) h =
    ((a * 0x1000000 + b * 2 ^ 16 + c * 2 ^ 8 + d) % 2 ^ 32, u32_of_word a b c d r)
word_there (a ∷ b ∷ c ∷ []) h = absurd (omega arith)
word_there (a ∷ b ∷ []) h = absurd (omega arith)
word_there (a ∷ []) h = absurd (omega arith)
word_there [] h = absurd (omega arith)

word_at : (bs : Bytes) (i : ℕ) → i + 4 ≤ length bs → (v : ℕ) × (u32_of bs i ≡ ok v)
word_at bs i h =
    let (v, read) = word_there (drop i bs) (omega (arith, length-drop i bs)) in
    (
      v,
      ap (λ t. u32_of t i) (sym (take-append-drop i bs))
          ∙ u32_of-append_ge (take i bs) (drop i bs) i 0 (omega (arith, length-take i bs))
          ∙ read,
    )

pub front-unchecked :
    (bs : Bytes) → 12 ≤ length bs → (Checks 8 bs → ⊥) → front bs ≡ throws prelude_crc_mismatch
unfolding front front_prelude
front-unchecked bs h unchecked =
    let (total, read_total) = word_at bs 0 (omega arith) in
    let (n, read_n) = word_at bs 4 (omega arith) in
    let (crc, read_crc) = word_at bs 8 (omega arith) in
    let enough : ltb (length bs) 12 ≡ false = ground arith in
    elim (Bool-cases (checksum (take 8 bs) == crc)) [
      | inl same ↦
          let equal : checksum (take 8 bs) ≡ crc = ground arith in
          absurd (unchecked (read_crc ∙ ap (λ c. ok c) (sym equal)))
      | inr other ↦ rw (enough, read_total, read_n, read_crc, other) refl
    ]

pub front_body-unchecked :
    (bs : Bytes) (total n : ℕ)
    → 4 ≤ total
    → total ≤ length bs
    → (Checks (total - 4) bs → ⊥)
    → front_body bs total n ≡ throws message_crc_mismatch
unfolding front_body
front_body-unchecked bs total n h h' unchecked =
    let (crc, read_crc) = word_at bs (total - 4) (omega arith) in
    elim (Bool-cases (checksum (take (total - 4) bs) == crc)) [
      | inl same ↦
          let equal : checksum (take (total - 4) bs) ≡ crc = ground arith in
          absurd (unchecked (read_crc ∙ ap (λ c. ok c) (sym equal)))
      | inr other ↦ rw (read_crc, other) refl
    ]
