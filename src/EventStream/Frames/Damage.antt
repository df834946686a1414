-- ===== src/EventStream/Frames/Damage.antt =====
-- Streams in which one byte of a message was changed.
use ai_api_proxy.Common.{
  ℕ, zero, suc, ◌+◌, ◌-◌, ◌<◌, ◌≤◌, List, [], ◌∷◌, ◌++◌, map, Bytes, IsByte, All, All-append,
  All-append_left, All-append_right, ltb, length, concat, take, drop, ok, throws, some, ◌≡◌, ◌≢◌,
  refl, sym, ap, ◌∙◌, arith, length-append, length-drop, append_assoc, append-nil, take-append-drop,
  take-append_le, take-append_eq, Bool-cases, inl, inr, if◌then◌else◌, subst,
}
use ai_api_proxy.Common.Words.{big_endian_bytes, big_endian_bytes-bytes}
use ai_api_proxy.EventStream.Crc.Detects.{checksum-lt}
use ai_api_proxy.EventStream.Crc.Flat.{checksum}
use ai_api_proxy.EventStream.Errors.{DecodeError, prelude_crc_mismatch, message_crc_mismatch}
use ai_api_proxy.EventStream.Frames.{decoding}
use ai_api_proxy.EventStream.Frames.Checked.{
  Checks, Checks-damaged, front-unchecked, front_body-unchecked,
}
use ai_api_proxy.EventStream.Frames.Chunks.{
  read_all, decode_bytes, decode_chunks, decode_chunks-decode_bytes,
}
use ai_api_proxy.EventStream.Frames.Flat.{front, front_body}
use ai_api_proxy.EventStream.Frames.RoundTrip.{
  u32_of-big_endian_bytes, begun, behind_prelude, at_prelude, front-begun, length-encode_message,
  length-prelude, prelude_checks, covered-bytes,
}
use ai_api_proxy.EventStream.Frames.Streams.{read_all-encode_messages, decode_bytes_lem}
use ai_api_proxy.EventStream.Frames.Wire.{
  WireMessage, IsWireMessage, total_of, block_of, prelude_of, covered_of, encode_message,
  encode_messages, decoded_message,
}
use ai_api_proxy.EventStream.Segments.Flat.{u32_of}

-- The checksum that finds the change of a byte at `offset`.
abbrev pub found_by : ℕ → DecodeError
found_by offset = if ltb offset 12 then prelude_crc_mismatch else message_crc_mismatch

module _ (m : WireMessage) (w : IsWireMessage m) where
  encode_message-bytes : All IsByte (encode_message m)
  unfolding encode_message
  encode_message-bytes =
      All-append IsByte (covered_of m) (big_endian_bytes 4 (checksum (covered_of m)))
        (covered-bytes m w) (big_endian_bytes-bytes 4 (checksum (covered_of m)))

  length-covered : length (covered_of m) ≡ total_of m - 4
  length-covered = omega (
    arith,
    length-append (prelude_of m) (block_of m ++ m.payload),
    length-append (block_of m) m.payload,
    length-prelude m w,
  )

  message-Checks : (rest : Bytes) → Checks (total_of m - 4) (encode_message m ++ rest)
  message-Checks rest =
      let word = big_endian_bytes 4 (checksum (covered_of m)) in
      let at_word : encode_message m ++ rest ≡ covered_of m ++ (word ++ rest) =
        unfold encode_message in append_assoc (covered_of m) word rest in
      let covered : take (total_of m - 4) (encode_message m ++ rest) ≡ covered_of m =
        ap (take (total_of m - 4)) at_word
        ∙ take-append_eq (total_of m - 4) (covered_of m) (word ++ rest) length-covered in
      ap (λ t. u32_of t (total_of m - 4)) at_word
      ∙ u32_of-big_endian_bytes (covered_of m) rest (checksum (covered_of m)) (total_of m - 4)
          (checksum-lt (covered_of m) (covered-bytes m w)) (sym length-covered)
      ∙ ap (λ t. ok (checksum t)) (sym covered)

  -- The byte `x` of the message, and what stands behind it.
  module _ (l r rest : Bytes) (x y : ℕ) (split : encode_message m ≡ l ++ (x ∷ r)) (hy : IsByte y)
      (ne : x ≢ y) (h : All IsByte rest) where
    right : encode_message m ++ rest ≡ l ++ (x ∷ (r ++ rest))
    right = ap (λ t. t ++ rest) split ∙ append_assoc l (x ∷ r) rest

    size : length l + 1 + length (r ++ rest) ≡ total_of m + length rest
    size = omega (
      arith,
      length-append l (x ∷ r),
      length-append r rest,
      ap length split,
      length-encode_message m w,
    )

    split-bytes : All IsByte (l ++ (x ∷ r))
    split-bytes = subst (All IsByte) split encode_message-bytes

    fails :
        (n : ℕ)
        → Checks n (encode_message m ++ rest)
        → length l < n + 4
        → n + 4 ≤ total_of m
        → Checks n (l ++ (y ∷ (r ++ rest)))
        → ⊥
    fails n checks near fits =
        let behind : All IsByte (x ∷ r) = All-append_right IsByte l (x ∷ r) split-bytes in
        Checks-damaged l (r ++ rest) (All-append_left IsByte l (x ∷ r) split-bytes)
          (All-append IsByte r rest behind.1 h) n x y near (omega (arith, size)) behind.0 hy ne
          (subst (Checks n) right checks)

    length-damaged : length (l ++ (y ∷ (r ++ rest))) ≡ total_of m + length rest
    length-damaged = omega (arith, length-append l (y ∷ (r ++ rest)), size)

    in_prelude : length l < 12 → front (l ++ (y ∷ (r ++ rest))) ≡ throws prelude_crc_mismatch
    in_prelude near =
        front-unchecked (l ++ (y ∷ (r ++ rest))) (omega (arith, length-damaged))
          (fails 8 checks near (omega arith))
      where
        checks : Checks 8 (encode_message m ++ rest)
        checks =
            subst (Checks 8) (sym (at_prelude m w rest))
              (prelude_checks m w (behind_prelude m w rest))

    prelude_kept : 12 ≤ length l → prelude_of m ≡ take 12 l
    prelude_kept far =
        sym (take-append_eq 12 (prelude_of m) (behind_prelude m w rest) (length-prelude m w))
        ∙ ap (take 12) (sym (at_prelude m w rest) ∙ right)
        ∙ take-append_le 12 l (x ∷ (r ++ rest)) far

    behind_prelude_l : Bytes
    behind_prelude_l = drop 12 l ++ (y ∷ (r ++ rest))

    begins : 12 ≤ length l → begun m w behind_prelude_l ≡ l ++ (y ∷ (r ++ rest))
    unfolding behind_prelude_l
    begins far =
        ap (λ p. p ++ (drop 12 l ++ (y ∷ (r ++ rest)))) (prelude_kept far)
        ∙ sym (append_assoc (take 12 l) (drop 12 l) (y ∷ (r ++ rest)))
        ∙ ap (λ t. t ++ (y ∷ (r ++ rest))) (take-append-drop 12 l)

    length-behind_l : 12 ≤ length l → 12 + length behind_prelude_l ≡ total_of m + length rest
    unfolding behind_prelude_l
    length-behind_l far =
        omega (arith, size, length-append (drop 12 l) (y ∷ (r ++ rest)), length-drop 12 l)

    behind_12 : 12 ≤ length l → front (l ++ (y ∷ (r ++ rest))) ≡ throws message_crc_mismatch
    behind_12 far =
        ap front (sym (begins far))
        ∙ front-begun m w behind_prelude_l (omega (arith, length-behind_l far))
        ∙ ap (λ t. front_body t (total_of m) (length (block_of m))) (begins far)
        ∙ front_body-unchecked (l ++ (y ∷ (r ++ rest))) (total_of m) (length (block_of m))
            (omega arith) (omega (arith, length-damaged))
            (fails (total_of m - 4) (message-Checks rest) near (omega arith))
      where
        near : length l < total_of m - 4 + 4
        near = omega (arith, size, length-append r rest)

    front-damaged : front (l ++ (y ∷ (r ++ rest))) ≡ throws (found_by (length l))
    front-damaged = elim (Bool-cases (ltb (length l) 12)) [
      | inl near ↦ rw near (in_prelude (ground arith))
      | inr far ↦ rw far (behind_12 (ground arith))
    ]

read_all-fails :
    (fuel : ℕ) (bs : Bytes) {e : DecodeError}
    → 0 < fuel
    → front bs ≡ throws e
    → read_all fuel bs ≡ record { messages = []; failure = some (decoding e) }
unfolding read_all
read_all-fails zero bs n h = absurd (omega arith)
read_all-fails (suc fuel) bs n h = rw (h, read_all) refl

-- If one byte of a message of a stream is changed, wherever it stands, then the decoder yields the
-- messages before it, in order, and then fails: by the checksum of the prelude if the byte is one
-- of the first 12, else by that of the message. This holds for every cut into chunks, and whatever
-- bytes come behind the message.
pub decode_chunks_damaged :
    (ms : List WireMessage) (m : WireMessage) (l r rest : Bytes) (x y : ℕ) (chunks : List Bytes)
    → All IsWireMessage ms
    → IsWireMessage m
    → encode_message m ≡ l ++ (x ∷ r)
    → IsByte y
    → x ≢ y
    → All IsByte rest
    → concat chunks ≡ encode_messages ms ++ (l ++ (y ∷ (r ++ rest)))
    → decode_chunks chunks ≡ record {
      messages = map decoded_message ms;
      failure = some (decoding (found_by (length l)));
    }
decode_chunks_damaged ms m l r rest x y chunks w v split hy ne h e =
    let part = l ++ (y ∷ (r ++ rest)) in
    let stream = encode_messages ms ++ part in
    let (fuel', read, k) = read_all-encode_messages ms (suc (length stream)) part w (omega arith) in
    let stops =
      read_all-fails fuel' part (omega arith) (front-damaged m v l r rest x y split hy ne h) in
    decode_chunks-decode_bytes chunks
    ∙ ap decode_bytes e
    ∙ decode_bytes_lem stream
    ∙ read
    ∙ rw (stops, append-nil) refl
