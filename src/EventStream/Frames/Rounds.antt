-- ===== src/EventStream/Frames/Rounds.antt =====
-- A turn on bytes, and on the same bytes with more behind them.
use ai_api_proxy.Common.{
  All, IsByte, All-drop, ℕ, ◌+◌, ◌-◌, ◌≤◌, ◌<◌, ◌++◌, Bytes, not, ◌||◌, false, ltb, ◌==◌,
  if◌then◌else◌, length, take, drop, ok, throws, ◌>>=◌, throw_if, none, some, ◌≡◌, ◌≢◌, refl, arith,
  length-drop, length-append, Bool-cases, inl, inr, Ensures, Ensures->>=, Ensures-if, Ensures-elim,
  throw_if-eq-ok, take-append_le, drop-append_le, get_or-append_lt, >>=_assoc,
}
use ai_api_proxy.EventStream.Crc.Flat.{checksum}
use ai_api_proxy.EventStream.Errors.{
  Decode, prelude_crc_mismatch, invalid_frame_length, message_crc_mismatch,
}
use ai_api_proxy.EventStream.Frames.{Message}
use ai_api_proxy.EventStream.Frames.Flat.{Front, front_body, front_prelude, front}
use ai_api_proxy.EventStream.Headers.{decode_headers}
use ai_api_proxy.EventStream.Segments.Flat.{byte_of, u32_of, range_of}

byte_of-append : (bs x : Bytes) (i : ℕ) → i < length bs → byte_of (bs ++ x) i ≡ byte_of bs i
unfolding byte_of
byte_of-append bs x i h = ground (arith, length-append bs x, get_or-append_lt i bs x 0)

pub u32_of-append : (bs x : Bytes) (i : ℕ) → i + 4 ≤ length bs → u32_of (bs ++ x) i ≡ u32_of bs i
unfolding u32_of
u32_of-append bs x i h = rw (
  byte_of-append bs x i (omega arith),
  byte_of-append bs x (i + 1) (omega arith),
  byte_of-append bs x (i + 2) (omega arith),
  byte_of-append bs x (i + 3) (omega arith),
)

pub range_of-append :
    (bs x : Bytes) (i n : ℕ) → i + n ≤ length bs → range_of (bs ++ x) i n ≡ range_of bs i n
unfolding range_of
range_of-append bs x i n h =
    rw
      (
        drop-append_le i bs x (omega arith),
        take-append_le n (drop i bs) x (omega (arith, length-drop i bs)),
      )
      (ground (arith, length-drop i bs, length-append (drop i bs) x))

-- The outcome of a turn when `x` follows.
abbrev pub extend_front : Bytes → Front → Front
extend_front x none = none
extend_front x (some (m, rest)) = some (m, rest ++ x)

abbrev pub extend : Bytes → Decode Front → Decode Front
extend x r = r >>= λ f. ok (extend_front x f)

front_body-append :
    (bs x : Bytes) (total n : ℕ)
    → 16 ≤ total
    → n ≤ total - 16
    → total ≤ length bs
    → front_body (bs ++ x) total n ≡ extend x (front_body bs total n)
unfolding front_body
front_body-append bs x total n h1 h2 h3 = simp (
  >>=_assoc,
  u32_of-append bs x (total - 4) (omega arith),
  take-append_le (total - 4) bs x (omega arith),
  range_of-append bs x 12 n (omega arith),
  range_of-append bs x (12 + n) (total - 16 - n) (omega arith),
  drop-append_le total bs x h3,
)

-- `r'` is `r` with `x` behind it, unless `r` asks for more bytes.
abbrev Extends : Bytes → Decode Front → Decode Front → Type 0
Extends x r r' = r ≢ ok none → r' ≡ extend x r

Extends->>= {ℓ} :
    {A : Type ℓ} (x : Bytes) (m : Decode A) (f f' : A → Decode Front)
    → ((a : A) → m ≡ ok a → Extends x (f a) (f' a))
    → Extends x (m >>= f) (m >>= f')
Extends->>= x (ok a) f f' h = h a refl
Extends->>= x (throws e) f f' h = λ _. refl

lengths_fit :
    (total n : ℕ) → (ltb total 16 || ltb (total - 16) n) ≡ false → (16 ≤ total) × (n ≤ total - 16)
lengths_fit total n e = ground arith

settled :
    (bs x : Bytes) (total n : ℕ)
    → 16 ≤ total
    → n ≤ total - 16
    → Extends x
        (if ltb (length bs) total then ok none else front_body bs total n)
        (if ltb (length (bs ++ x)) total then ok none else front_body (bs ++ x) total n)
settled bs x total n h1 h2 = elim (Bool-cases (ltb (length bs) total)) [
  | inl short ↦ rw short (λ ready. absurd (ready refl))
  | inr enough ↦
      let still : ltb (length (bs ++ x)) total ≡ false = ground (arith, length-append bs x) in
      rw (enough, still) (λ _. front_body-append bs x total n h1 h2 (ground arith))
]

front_prelude-append :
    (bs x : Bytes) → 12 ≤ length bs → Extends x (front_prelude bs) (front_prelude (bs ++ x))
unfolding front_prelude
front_prelude-append bs x h =
    rw
      (
        u32_of-append bs x 0 (omega arith),
        u32_of-append bs x 4 (omega arith),
        u32_of-append bs x 8 (omega arith),
        take-append_le 8 bs x (omega arith),
      )
      (Extends->>= x (u32_of bs 0) _ _ λ total _. Extends->>= x (u32_of bs 4) _ _ λ n _.
        Extends->>= x (u32_of bs 8) _ _ λ crc _.
          Extends->>= x (throw_if (not (checksum (take 8 bs) == crc)) prelude_crc_mismatch) _ _
            λ _ _.
              Extends->>= x (throw_if (ltb total 16 || ltb (total - 16) n) invalid_frame_length) _ _
                λ _ valid.
                  let (h1, h2) = lengths_fit total n (throw_if-eq-ok _ _ valid) in
                  settled bs x total n h1 h2)

-- Once a turn has cut a message or failed on some bytes, it does the same with any bytes behind
-- them, which are then left over.
pub front-append : (bs x : Bytes) → front bs ≢ ok none → front (bs ++ x) ≡ extend x (front bs)
unfolding front
front-append bs x ready = elim (Bool-cases (ltb (length bs) 12)) [
  | inl short ↦ absurd (ready (rw short))
  | inr enough ↦
      let still : ltb (length (bs ++ x)) 12 ≡ false = ground (arith, length-append bs x) in
      rw (enough, still) (front_prelude-append bs x (ground arith) (rw enough at ready))
]

abbrev Shrinks : Bytes → Front → Type 0
Shrinks bs none = Unit
Shrinks bs (some (m, rest)) = (length rest + 16 ≤ length bs) × (All IsByte bs → All IsByte rest)

front_body-Shrinks :
    (bs : Bytes) (total n : ℕ)
    → 16 ≤ total
    → total ≤ length bs
    → Ensures (Shrinks bs) (front_body bs total n)
unfolding front_body
front_body-Shrinks bs total n h k = Ensures->>= (Shrinks bs) (u32_of bs (total - 4)) _ λ crc _.
    Ensures->>= (Shrinks bs)
      (throw_if (not (checksum (take (total - 4) bs) == crc)) message_crc_mismatch) _
      λ _ _. Ensures->>= (Shrinks bs) (range_of bs 12 n) _ λ block _.
        Ensures->>= (Shrinks bs) (decode_headers block) _ λ headers _.
          Ensures->>= (Shrinks bs) (range_of bs (12 + n) (total - 16 - n)) _ λ payload _.
            (omega (arith, length-drop total bs), λ bytes. All-drop IsByte total bs bytes)

front-Shrinks : (bs : Bytes) → Ensures (Shrinks bs) (front bs)
unfolding front front_prelude
front-Shrinks bs =
    Ensures-if (Shrinks bs) (ltb (length bs) 12) _ _ (λ _. tt)
      λ _. Ensures->>= (Shrinks bs) (u32_of bs 0) _ λ total _.
        Ensures->>= (Shrinks bs) (u32_of bs 4) _ λ n _.
          Ensures->>= (Shrinks bs) (u32_of bs 8) _ λ crc _.
            Ensures->>= (Shrinks bs)
              (throw_if (not (checksum (take 8 bs) == crc)) prelude_crc_mismatch) _
              λ _ _.
                Ensures->>= (Shrinks bs)
                  (throw_if (ltb total 16 || ltb (total - 16) n) invalid_frame_length) _
                  λ _ valid.
                    Ensures-if (Shrinks bs) (ltb (length bs) total) _ _ (λ _. tt)
                      λ enough.
                        front_body-Shrinks bs total n
                          (lengths_fit total n (throw_if-eq-ok _ _ valid)).0 (ground arith)

-- A message takes 16 bytes at least, and leaves bytes behind it.
pub front-rest :
    (bs : Bytes) {m : Message} {rest : Bytes}
    → front bs ≡ ok (some (m, rest))
    → (length rest + 16 ≤ length bs) × (All IsByte bs → All IsByte rest)
front-rest bs e = Ensures-elim (Shrinks bs) (front bs) (front-Shrinks bs) e
