-- ===== src/EventStream/Frames/Total.antt =====
-- The rounds that the model gives the decoder.
use ai_api_proxy.Common.{
  subst, ℕ, zero, suc, ◌+◌, ◌-◌, ◌<◌, List, Bytes, IsByte, All, All-take, All-drop, not, ◌||◌, ltb,
  ◌==◌, length, concat, take, drop, ok, throws, throw_if, none, some, ◌≡◌, ◌≢◌, ap, ◌∙◌, arith,
  Bool-cases, inl, inr, Outcome-cases, ThrowsOnly, ThrowsOnly->>=, ThrowsOnly-throw_if,
  ThrowsOnly-elim, ThrowsOnly-of,
}
use ai_api_proxy.EventStream.Crc.Flat.{checksum}
use ai_api_proxy.EventStream.Errors.{
  DecodeError, no_fuel, prelude_crc_mismatch, invalid_frame_length, message_crc_mismatch,
}
use ai_api_proxy.EventStream.Frames.{decoding}
use ai_api_proxy.EventStream.Frames.Flat.{front_body, front_prelude, front}
use ai_api_proxy.EventStream.Frames.Rounds.{front-rest}
use ai_api_proxy.EventStream.Frames.Chunks.{
  read_all, decode_bytes, decode_chunks, decode_chunks-decode_bytes,
}
use ai_api_proxy.EventStream.Headers.{decode_headers}
use ai_api_proxy.EventStream.Headers.Total.{decode_headers-ne-no_fuel}
use ai_api_proxy.EventStream.Segments.Flat.{byte_of, u32_of, range_of}

abbrev IsReal : DecodeError → Type 0
IsReal e = e ≢ no_fuel

byte_of-IsReal : (bs : Bytes) (i : ℕ) → ThrowsOnly IsReal (byte_of bs i)
unfolding byte_of
byte_of-IsReal bs i = ground arith

u32_of-IsReal : (bs : Bytes) (i : ℕ) → ThrowsOnly IsReal (u32_of bs i)
unfolding u32_of
u32_of-IsReal bs i = ThrowsOnly->>= IsReal (byte_of bs i) _ (byte_of-IsReal bs i) λ b0 _.
    ThrowsOnly->>= IsReal (byte_of bs (i + 1)) _ (byte_of-IsReal bs (i + 1)) λ b1 _.
      ThrowsOnly->>= IsReal (byte_of bs (i + 2)) _ (byte_of-IsReal bs (i + 2))
        λ b2 _. ThrowsOnly->>= IsReal (byte_of bs (i + 3)) _ (byte_of-IsReal bs (i + 3)) λ b3 _. tt

range_of-IsReal : (bs : Bytes) (i n : ℕ) → ThrowsOnly IsReal (range_of bs i n)
unfolding range_of
range_of-IsReal bs i n = ground arith

range_of-bytes :
    (bs : Bytes) (i n : ℕ) {out : Bytes} → All IsByte bs → range_of bs i n ≡ ok out → All IsByte out
unfolding range_of
range_of-bytes bs i n {out} h e =
    let cut = take n (drop i bs) in
    let cut_bytes = All-take IsByte n (drop i bs) (All-drop IsByte i bs h) in
    let same : cut ≡ out = ground arith in subst (All IsByte) same cut_bytes

headers-IsReal : (block : Bytes) → All IsByte block → ThrowsOnly IsReal (decode_headers block)
headers-IsReal block h =
    ThrowsOnly-of IsReal (decode_headers block)
      λ e failed same. decode_headers-ne-no_fuel block h (failed ∙ ap throws same)

front_body-IsReal :
    (bs : Bytes) (total n : ℕ) → All IsByte bs → ThrowsOnly IsReal (front_body bs total n)
unfolding front_body
front_body-IsReal bs total n h =
    ThrowsOnly->>= IsReal (u32_of bs (total - 4)) _ (u32_of-IsReal bs (total - 4)) λ crc _.
      ThrowsOnly->>= IsReal
        (throw_if (not (checksum (take (total - 4) bs) == crc)) message_crc_mismatch) _
        (ThrowsOnly-throw_if IsReal _ _ (ground arith))
        λ _ _. ThrowsOnly->>= IsReal (range_of bs 12 n) _ (range_of-IsReal bs 12 n) λ block cut.
          ThrowsOnly->>= IsReal (decode_headers block) _
            (headers-IsReal block (range_of-bytes bs 12 n h cut))
            λ headers _.
              ThrowsOnly->>= IsReal (range_of bs (12 + n) (total - 16 - n)) _
                (range_of-IsReal bs (12 + n) (total - 16 - n)) λ payload _. tt

front_prelude-IsReal : (bs : Bytes) → All IsByte bs → ThrowsOnly IsReal (front_prelude bs)
unfolding front_prelude
front_prelude-IsReal bs h = ThrowsOnly->>= IsReal (u32_of bs 0) _ (u32_of-IsReal bs 0) λ total _.
    ThrowsOnly->>= IsReal (u32_of bs 4) _ (u32_of-IsReal bs 4) λ n _.
      ThrowsOnly->>= IsReal (u32_of bs 8) _ (u32_of-IsReal bs 8) λ crc _.
        ThrowsOnly->>= IsReal (throw_if (not (checksum (take 8 bs) == crc)) prelude_crc_mismatch) _
          (ThrowsOnly-throw_if IsReal _ _ (ground arith))
          λ _ _.
            ThrowsOnly->>= IsReal
              (throw_if (ltb total 16 || ltb (total - 16) n) invalid_frame_length) _
              (ThrowsOnly-throw_if IsReal _ _ (ground arith))
              λ _ _. elim (Bool-cases (ltb (length bs) total)) [
                | inl short ↦ rw short tt
                | inr enough ↦ rw enough (front_body-IsReal bs total n h)
              ]

front-ThrowsOnly : (bs : Bytes) → All IsByte bs → ThrowsOnly IsReal (front bs)
unfolding front
front-ThrowsOnly bs h = elim (Bool-cases (ltb (length bs) 12)) [
  | inl short ↦ rw short tt
  | inr enough ↦ rw enough (front_prelude-IsReal bs h)
]

front-IsReal : (bs : Bytes) {e : DecodeError} → All IsByte bs → front bs ≡ throws e → e ≢ no_fuel
front-IsReal bs h failed = ThrowsOnly-elim IsReal (front bs) (front-ThrowsOnly bs h) failed

read_all-ends :
    (fuel : ℕ) (bs : Bytes)
    → All IsByte bs
    → length bs < fuel
    → (read_all fuel bs).failure ≢ some (decoding no_fuel)
unfolding read_all
read_all-ends zero bs h n = absurd (omega arith)
read_all-ends (suc fuel) bs h n = elim (Outcome-cases (front bs)) [
  | inr (e, failed) ↦ rw (failed, read_all) (λ same. front-IsReal bs h failed (ground arith))
  | inl (none, held) ↦ rw (held, read_all) (λ same. ground arith)
  | inl (some (m, rest), held) ↦
      let (shorter, bytes) = front-rest bs held in
      rw (held, read_all) (read_all-ends fuel rest (bytes h) (omega arith))
]

-- Reading the messages of a byte string ends.
pub decode_bytes-ends :
    (bs : Bytes) → All IsByte bs → (decode_bytes bs).failure ≢ some (decoding no_fuel)
unfolding decode_bytes
decode_bytes-ends bs h = read_all-ends (suc (length bs)) bs h (omega arith)

-- Decoding any chunks ends: after at most one call of `next` more than there are bytes the decoder
-- has ended or failed with an error of the source.
pub decode_chunks-ends :
    (chunks : List Bytes)
    → All IsByte (concat chunks)
    → (decode_chunks chunks).failure ≢ some (decoding no_fuel)
decode_chunks-ends chunks h =
    rw (decode_chunks-decode_bytes chunks) (decode_bytes-ends (concat chunks) h)
