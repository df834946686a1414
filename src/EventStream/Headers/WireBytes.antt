-- ===== src/EventStream/Headers/WireBytes.antt =====
-- The values that the encoder of header blocks writes.
use ai_api_proxy.Common.{ℕ, ◌<◌, List, [], ◌∷◌, Bytes, IsByte, All, All-append, arith}
use ai_api_proxy.Common.Words.{big_endian_bytes-bytes}
use ai_api_proxy.EventStream.Headers.Wire.{
  WireValue, flag, int8, int16, int32, int64, timestamp, binary, uuid, text, IsWire, FitsLength,
  wire_type, with_length, wire_body, WireHeader, IsWireHeader, encode_header, encode_headers,
}
use ai_api_proxy.EventStream.Utf8.Scalars.{IsScalar, utf8, utf8_all}

utf8-bytes : (c : ℕ) → IsScalar c → All IsByte (utf8 c)
unfolding utf8
utf8-bytes c h = ground arith

pub utf8_all-bytes : (cs : List ℕ) → All IsScalar cs → All IsByte (utf8_all cs)
unfolding utf8_all
utf8_all-bytes [] h = tt
utf8_all-bytes (c ∷ cs) h =
    All-append IsByte (utf8 c) (utf8_all cs) (utf8-bytes c h.0) (utf8_all-bytes cs h.1)

with_length-bytes : (bs : Bytes) → FitsLength bs → All IsByte bs → All IsByte (with_length bs)
unfolding with_length
with_length-bytes bs (h, k) bytes = (omega arith, (omega arith, bytes))

wire_type-lt : (w : WireValue) → wire_type w < 256
unfolding wire_type
wire_type-lt w = ground arith

wire_body-bytes : (w : WireValue) → IsWire w → All IsByte (wire_body w)
unfolding wire_body
wire_body-bytes (flag b) h = tt
wire_body-bytes (int8 v) h = big_endian_bytes-bytes 1 v
wire_body-bytes (int16 v) h = big_endian_bytes-bytes 2 v
wire_body-bytes (int32 v) h = big_endian_bytes-bytes 4 v
wire_body-bytes (int64 v) h = big_endian_bytes-bytes 8 v
wire_body-bytes (timestamp v) h = big_endian_bytes-bytes 8 v
wire_body-bytes (binary bs) h = with_length-bytes bs h.0 h.1
wire_body-bytes (uuid bs) h = h.1
wire_body-bytes (text cs) h = with_length-bytes (utf8_all cs) h.0 (utf8_all-bytes cs h.1)

encode_header-bytes : (h : WireHeader) → IsWireHeader h → All IsByte (encode_header h)
unfolding encode_header
encode_header-bytes h k = (
  k.name_lt,
  All-append IsByte (utf8_all h.name) (wire_type h.value ∷ wire_body h.value)
      (utf8_all-bytes h.name k.name_scalars)
      (wire_type-lt h.value, wire_body-bytes h.value k.value_wire),
)

pub encode_headers-bytes :
    (hs : List WireHeader) → All IsWireHeader hs → All IsByte (encode_headers hs)
unfolding encode_headers
encode_headers-bytes [] w = tt
encode_headers-bytes (h ∷ hs) w =
    All-append IsByte (encode_header h) (encode_headers hs) (encode_header-bytes h w.0)
      (encode_headers-bytes hs w.1)
