-- ===== src/EventStream/Frames/RoundTrip.antt =====
-- The front of the bytes when an encoded message stands there.
use ai_api_proxy.Common.{
  ℕ, ◌+◌, ◌-◌, ◌^◌, ◌<◌, ◌≤◌, [], ◌++◌, map, Bytes, IsByte, All, All-append, false, ◌||◌, ltb,
  length, take, drop, get_or, ok, some, ◌≡◌, refl, sym, ap, ◌∙◌, arith, length-append, append_assoc,
  take-append_eq, drop-append_eq, get_or-append_ge, ==_refl,
}
use ai_api_proxy.Common.Words.{big_endian_bytes, length-big_endian_bytes, big_endian_bytes-bytes}
use ai_api_proxy.EventStream.Crc.Detects.{checksum-lt}
use ai_api_proxy.EventStream.Crc.Flat.{checksum}
use ai_api_proxy.EventStream.Frames.Flat.{front_body, front_prelude, front}
use ai_api_proxy.EventStream.Frames.Wire.{
  WireMessage, IsWireMessage, block_of, total_of, lengths_of, prelude_of, covered_of,
  encode_message, decoded_message,
}
use ai_api_proxy.EventStream.Headers.{decode_headers, Headers}
use ai_api_proxy.EventStream.Headers.Wire.{decoded}
use ai_api_proxy.EventStream.Headers.RoundTrip.{decode_headers-encode_headers}
use ai_api_proxy.EventStream.Headers.WireBytes.{encode_headers-bytes}
use ai_api_proxy.EventStream.Segments.Flat.{byte_of, u32_of, range_of}

pub byte_of-append_ge :
    (xs ys : Bytes) (i k : ℕ) → i ≡ length xs + k → byte_of (xs ++ ys) i ≡ byte_of ys k
unfolding byte_of
byte_of-append_ge xs ys i k e =
    let at : i - length xs ≡ k = omega arith in
    let found : get_or (xs ++ ys) i 0 ≡ get_or ys k 0 =
      get_or-append_ge i xs ys 0 (omega arith) ∙ ap (λ j. get_or ys j 0) at in
    rw found (ground (arith, length-append xs ys))

-- A word is read back where it stands.
pub u32_of-big_endian_bytes :
    (xs rest : Bytes) (v i : ℕ)
    → v < 256 ^ 4
    → i ≡ length xs
    → u32_of (xs ++ (big_endian_bytes 4 v ++ rest)) i ≡ ok v
unfolding u32_of big_endian_bytes
u32_of-big_endian_bytes xs rest v i h e =
    let word = big_endian_bytes 4 v ++ rest in
    let read = λ (k : ℕ) (j : ℕ) (f : j ≡ length xs + k). byte_of-append_ge xs word j k f in
    rw
      (
        read 0 i (omega arith),
        read 1 (i + 1) (omega arith),
        read 2 (i + 2) (omega arith),
        read 3 (i + 3) (omega arith),
      )
      (unfold byte_of in ground arith)

range_of-append :
    (xs ys zs : Bytes) (i n : ℕ)
    → i ≡ length xs
    → n ≡ length ys
    → range_of (xs ++ (ys ++ zs)) i n ≡ ok ys
unfolding range_of
range_of-append xs ys zs i n e e' =
    rw (drop-append_eq i xs (ys ++ zs) (sym e), take-append_eq n ys zs (sym e'))
      (ground (arith, length-append ys zs))

-- The part of a turn behind the prelude, on a frame with its bytes in place.
front_body_lem :
    (head block payload rest : Bytes) (total n : ℕ) (headers : Headers)
    → length head ≡ 12
    → n ≡ length block
    → total ≡ 16 + length block + length payload
    → checksum (head ++ (block ++ payload)) < 256 ^ 4
    → decode_headers block ≡ ok headers
    → front_body
        ((head ++ (block ++ payload))
          ++ (big_endian_bytes 4 (checksum (head ++ (block ++ payload))) ++ rest))
        total
        n
      ≡ ok (some (record { headers = headers; payload = payload }, rest))
unfolding front_body
front_body_lem head block payload rest total n headers h1 h2 h3 h4 h5 =
    let body = block ++ payload in
    let covered = head ++ body in
    let word = big_endian_bytes 4 (checksum covered) in
    let size : length covered ≡ total - 4 =
      omega (arith, length-append head body, length-append block payload) in
    let whole_size : length (covered ++ word) ≡ total =
      omega
        (arith, size, length-append covered word, length-big_endian_bytes 4 (checksum covered)) in
    let at_block : covered ++ (word ++ rest) ≡ head ++ (block ++ (payload ++ (word ++ rest))) =
      simp append_assoc in
    let at_payload : covered ++ (word ++ rest) ≡ (head ++ block) ++ (payload ++ (word ++ rest)) =
      simp append_assoc in
    let at_rest : covered ++ (word ++ rest) ≡ (covered ++ word) ++ rest = simp append_assoc in
    rw (
      u32_of-big_endian_bytes covered rest (checksum covered) (total - 4) h4 (sym size),
      take-append_eq (total - 4) covered (word ++ rest) size,
      ==_refl (checksum covered),
      ap (λ t. range_of t 12 n) at_block
          ∙ range_of-append head block (payload ++ (word ++ rest)) 12 n (sym h1) h2,
      h5,
      ap (λ t. range_of t (12 + n) (total - 16 - n)) at_payload
          ∙ range_of-append (head ++ block) payload (word ++ rest) (12 + n) (total - 16 - n)
              (omega (arith, length-append head block)) (omega arith),
      ap (drop total) at_rest ∙ drop-append_eq total (covered ++ word) rest whole_size,
    )

module _ (m : WireMessage) (w : IsWireMessage m) where
  lengths-bytes : All IsByte (lengths_of m)
  lengths-bytes =
      All-append IsByte (big_endian_bytes 4 (total_of m)) (big_endian_bytes 4 (length (block_of m)))
        (big_endian_bytes-bytes 4 (total_of m)) (big_endian_bytes-bytes 4 (length (block_of m)))

  pub covered-bytes : All IsByte (covered_of m)
  covered-bytes =
      All-append IsByte (prelude_of m) (block_of m ++ m.payload)
        (All-append IsByte (lengths_of m) (big_endian_bytes 4 (checksum (lengths_of m)))
          lengths-bytes (big_endian_bytes-bytes 4 (checksum (lengths_of m))))
        (All-append IsByte (block_of m) m.payload (encode_headers-bytes m.headers w.headers_wire)
          w.payload_bytes)

  pub length-prelude : length (prelude_of m) ≡ 12
  length-prelude =
      let a = big_endian_bytes 4 (total_of m) in
      let b = big_endian_bytes 4 (length (block_of m)) in
      let c = big_endian_bytes 4 (checksum (lengths_of m)) in
      omega (
        arith,
        length-append a b,
        length-append (lengths_of m) c,
        length-big_endian_bytes 4 (total_of m),
        length-big_endian_bytes 4 (length (block_of m)),
        length-big_endian_bytes 4 (checksum (lengths_of m)),
      )

  pub length-encode_message : length (encode_message m) ≡ total_of m
  unfolding encode_message
  length-encode_message = omega (
    arith,
    length-append (covered_of m) (big_endian_bytes 4 (checksum (covered_of m))),
    length-append (prelude_of m) (block_of m ++ m.payload),
    length-append (block_of m) m.payload,
    length-prelude,
    length-big_endian_bytes 4 (checksum (covered_of m)),
  )

  -- Bytes that begin with the prelude of a message.
  module _ (behind : Bytes) where
    abbrev pub begun : Bytes
    begun = prelude_of m ++ behind

    total_word : Bytes
    total_word = big_endian_bytes 4 (total_of m)

    length_word : Bytes
    length_word = big_endian_bytes 4 (length (block_of m))

    crc_word : Bytes
    crc_word = big_endian_bytes 4 (checksum (lengths_of m))

    at_total : begun ≡ [] ++ (total_word ++ (length_word ++ (crc_word ++ behind)))
    unfolding total_word length_word crc_word
    at_total = simp append_assoc

    at_length : begun ≡ total_word ++ (length_word ++ (crc_word ++ behind))
    unfolding total_word length_word crc_word
    at_length = simp append_assoc

    at_crc : begun ≡ lengths_of m ++ (crc_word ++ behind)
    unfolding total_word length_word crc_word
    at_crc = simp append_assoc

    length-lengths : length (lengths_of m) ≡ 8
    length-lengths = omega (
      arith,
      length-append (big_endian_bytes 4 (total_of m)) (big_endian_bytes 4 (length (block_of m))),
      length-big_endian_bytes 4 (total_of m),
      length-big_endian_bytes 4 (length (block_of m)),
    )

    reads_total : u32_of begun 0 ≡ ok (total_of m)
    reads_total =
        ap (λ t. u32_of t 0) at_total
        ∙ (unfold total_word in
            u32_of-big_endian_bytes [] (length_word ++ (crc_word ++ behind)) (total_of m) 0
              w.total_lt refl)

    reads_length : u32_of begun 4 ≡ ok (length (block_of m))
    reads_length =
        ap (λ t. u32_of t 4) at_length
        ∙ (unfold total_word length_word in
            u32_of-big_endian_bytes total_word (crc_word ++ behind) (length (block_of m)) 4
              (omega (arith, w.total_lt)) (sym (length-big_endian_bytes 4 (total_of m))))

    reads_crc : u32_of begun 8 ≡ ok (checksum (lengths_of m))
    reads_crc =
        ap (λ t. u32_of t 8) at_crc
        ∙ (unfold crc_word in
            u32_of-big_endian_bytes (lengths_of m) behind (checksum (lengths_of m)) 8
              (checksum-lt (lengths_of m) lengths-bytes) (sym length-lengths))

    takes_lengths : take 8 begun ≡ lengths_of m
    takes_lengths =
        ap (take 8) at_crc ∙ take-append_eq 8 (lengths_of m) (crc_word ++ behind) length-lengths

    -- The prelude is under its checksum.
    pub prelude_checks : u32_of begun 8 ≡ ok (checksum (take 8 begun))
    prelude_checks = reads_crc ∙ ap (λ t. ok (checksum t)) (sym takes_lengths)

    length-begun : length begun ≡ 12 + length behind
    length-begun = omega (arith, length-append (prelude_of m) behind, length-prelude)

    -- The prelude is read back and passes its tests, if the frame is there.
    pub front-begun :
        total_of m ≤ 12 + length behind
        → front begun ≡ front_body begun (total_of m) (length (block_of m))
    unfolding front front_prelude
    front-begun long =
        let fit : (ltb (total_of m) 16 || ltb (total_of m - 16) (length (block_of m))) ≡ false =
          ground arith in
        let enough : ltb (length begun) (total_of m) ≡ false = ground (arith, length-begun) in
        let there : ltb (length begun) 12 ≡ false = ground (arith, length-begun) in
        rw (
          there,
          reads_total,
          reads_length,
          reads_crc,
          takes_lengths,
          ==_refl (checksum (lengths_of m)),
          fit,
          enough,
        )

  module _ (rest : Bytes) where
    abbrev pub behind_prelude : Bytes
    behind_prelude =
        (block_of m ++ m.payload) ++ (big_endian_bytes 4 (checksum (covered_of m)) ++ rest)

    pub at_prelude : encode_message m ++ rest ≡ prelude_of m ++ behind_prelude
    unfolding encode_message
    at_prelude = simp append_assoc

    pub length-behind_prelude : 12 + length behind_prelude ≡ total_of m + length rest
    length-behind_prelude = omega (
      arith,
      ap length at_prelude,
      length-append (prelude_of m) behind_prelude,
      length-append (encode_message m) rest,
      length-encode_message,
      length-prelude,
    )

    front_body-encode_message :
        front_body (encode_message m ++ rest) (total_of m) (length (block_of m))
        ≡ ok (some (decoded_message m, rest))
    front_body-encode_message =
        ap (λ t. front_body t (total_of m) (length (block_of m))) at_body
        ∙ front_body_lem (prelude_of m) (block_of m) m.payload rest (total_of m)
            (length (block_of m)) (map decoded m.headers) length-prelude refl refl
            (checksum-lt (covered_of m) covered-bytes)
            (decode_headers-encode_headers m.headers w.headers_wire w.names_distinct)
      where
        at_body :
            encode_message m ++ rest
            ≡ covered_of m ++ (big_endian_bytes 4 (checksum (covered_of m)) ++ rest)
        at_body = unfold encode_message in simp append_assoc

    -- An encoded message is read off the front of any bytes that begin with it.
    pub front-encode_message :
        front (encode_message m ++ rest) ≡ ok (some (decoded_message m, rest))
    front-encode_message =
        ap front at_prelude
        ∙ front-begun behind_prelude (omega (arith, length-behind_prelude))
        ∙ ap (λ t. front_body t (total_of m) (length (block_of m))) (sym at_prelude)
        ∙ front_body-encode_message
