-- ===== src/EventStream/Headers/Values.antt =====
-- `read_value` and `read_header` on one encoded header.
use ai_api_proxy.Common.{
  ℕ, suc, ◌+◌, ◌*◌, ◌/◌, ◌%◌, ◌^◌, ◌<◌, ◌≡◌, refl, ap, ◌∙◌, arith, ◌∷◌, ◌++◌, Bytes, Bool, true,
  false, length, length-append, ok, ◌>>=◌, take-append_eq, drop-append_eq, bit_or, append_assoc,
  if◌then◌else◌, ltb, ◌==◌, ◌||◌, le→ltb,
}
use ai_api_proxy.Common.Bits.{bit_or_field}
use ai_api_proxy.Common.Words.{
  pos, signed, big_endian, big_endian_bytes, length-big_endian_bytes, big_endian-big_endian_bytes,
}
use ai_api_proxy.EventStream.Errors.{DecodeError}
use ai_api_proxy.EventStream.Headers.{
  HeaderValue, number, bigint, string, array_buffer, read_fixed, read_sized, read_value,
  read_header, read_big_endian_64,
}
use ai_api_proxy.EventStream.Headers.Wire.{
  WireValue, flag, int8, int16, int32, int64, timestamp, binary, uuid, text, IsWire, FitsLength,
  wire_type, with_length, wire_body, meaning, WireHeader, IsWireHeader, decoded,
}
use ai_api_proxy.EventStream.Utf8.{decode_utf8}
use ai_api_proxy.EventStream.Utf8.Decoded.{decode_utf8-utf8_all}
use ai_api_proxy.EventStream.Utf8.Scalars.{utf8_all}

read_fixed_lem :
    (size : ℕ) (error : DecodeError) (make : Bytes → HeaderValue) (body rest : Bytes)
    → length body ≡ size
    → read_fixed size error make (body ++ rest) ≡ ok (make body, rest)
unfolding read_fixed
read_fixed_lem size error make body rest e = rw (
  le→ltb (length (body ++ rest)) size (omega (arith, length-append body rest)),
  take-append_eq size body rest e,
  drop-append_eq size body rest e,
)

read_word :
    (n v : ℕ) (error : DecodeError) (make : ℕ → HeaderValue) (rest : Bytes)
    → v < 256 ^ n
    → read_fixed n error (λ bs. make (big_endian bs)) (big_endian_bytes n v ++ rest)
      ≡ ok (make v, rest)
read_word n v error make rest h =
    read_fixed_lem n error (λ bs. make (big_endian bs)) (big_endian_bytes n v) rest
      (length-big_endian_bytes n v)
    ∙ ap (λ t. ok (make t, rest)) (big_endian-big_endian_bytes n v h)

size_of_bytes : (n : ℕ) → bit_or (n / 256 * 2 ^ 8) (n % 256) ≡ n
size_of_bytes n = rw (bit_or_field 8 (n / 256) (n % 256) (omega arith)) (omega arith)

-- The length is read back, and the bytes it counts are cut out.
read_sized-with_length :
    (is_binary : Bool) (bs rest : Bytes)
    → FitsLength bs
    → read_sized is_binary (with_length bs ++ rest) ≡ (do
      value ← (if is_binary then ok (array_buffer bs) else (do s ← decode_utf8 bs; ok (string s)))
      ok (value, rest))
unfolding read_sized with_length
read_sized-with_length is_binary bs rest (h, k) =
    let fits : (length bs == 0 || ltb 32767 (length bs) || ltb (length (bs ++ rest)) (length bs))
        ≡ false =
      ground (arith, length-append bs rest) in
    rw (
      le→ltb (suc (suc (length (bs ++ rest)))) 2 (omega arith),
      size_of_bytes (length bs),
      fits,
      take-append_eq (length bs) bs rest refl,
      drop-append_eq (length bs) bs rest refl,
    )

read_value-wire_body :
    (w : WireValue) (rest : Bytes)
    → IsWire w
    → read_value (wire_type w) (wire_body w ++ rest) ≡ ok (meaning w, rest)
unfolding read_value read_big_endian_64 wire_type wire_body meaning
read_value-wire_body (flag false) rest h = refl
read_value-wire_body (flag true) rest h = refl
read_value-wire_body (int8 v) rest h = read_word 1 v _ (λ n. number (signed 8 n)) rest h
read_value-wire_body (int16 v) rest h = read_word 2 v _ (λ n. number (signed 16 n)) rest h
read_value-wire_body (int32 v) rest h = read_word 4 v _ (λ n. number (signed 32 n)) rest h
read_value-wire_body (int64 v) rest h = read_word 8 v _ (λ n. bigint (signed 64 n)) rest h
read_value-wire_body (timestamp v) rest h = read_word 8 v _ (λ n. bigint (pos n)) rest h
read_value-wire_body (binary bs) rest h = read_sized-with_length true bs rest h.0
read_value-wire_body (uuid bs) rest h = read_fixed_lem 16 _ array_buffer bs rest h.0
read_value-wire_body (text cs) rest h =
    read_sized-with_length false (utf8_all cs) rest h.0 ∙ rw (decode_utf8-utf8_all cs h.1)

-- The name, the type byte and the value of one header.
pub read_header-encode_header :
    (h : WireHeader) (rest : Bytes)
    → IsWireHeader h
    → read_header
        (length (utf8_all h.name))
        ((utf8_all h.name ++ (wire_type h.value ∷ wire_body h.value)) ++ rest)
      ≡ ok (decoded h, rest)
unfolding read_header
read_header-encode_header h rest k =
    let name = utf8_all h.name in
    let tail = wire_type h.value ∷ (wire_body h.value ++ rest) in
    let fits : (length name == 0 || ltb (length (name ++ tail)) (length name + 1)) ≡ false =
      ground (arith, length-append name tail, k.name_pos) in
    rw (
      append_assoc name (wire_type h.value ∷ wire_body h.value) rest,
      fits,
      take-append_eq (length name) name tail refl,
      drop-append_eq (length name) name tail refl,
      decode_utf8-utf8_all h.name k.name_scalars,
      read_value-wire_body h.value rest k.value_wire,
    )
