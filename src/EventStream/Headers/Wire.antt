-- ===== src/EventStream/Headers/Wire.antt =====
-- The header block of the AWS EventStream format, described by its encoder: what `decodeHeaders`
-- is to read.
use ai_api_proxy.Common.Strings.{JsString}
use ai_api_proxy.Common.{
  ℕ, ◌/◌, ◌%◌, ◌^◌, ◌≤◌, ◌<◌, ◌≡◌, List, [], ◌∷◌, ◌++◌, Bytes, IsByte, All, Bool, true, false,
  length,
}
use ai_api_proxy.Common.Words.{pos, signed, big_endian_bytes}
use ai_api_proxy.EventStream.Headers.{HeaderValue, boolean, number, bigint, array_buffer, string}
use ai_api_proxy.EventStream.Utf8.Scalars.{IsScalar, utf8_all, utf16_all}

-- Integers are given by their bit pattern, texts by their scalar values.
pub data WireValue : Type 0 where
  flag : Bool → WireValue
  int8 int16 int32 int64 timestamp : ℕ → WireValue
  binary uuid : Bytes → WireValue
  text : List ℕ → WireValue

abbrev pub FitsLength : Bytes → Type 0
FitsLength bs = (0 < length bs) × (length bs ≤ 32767)

abbrev pub IsWire : WireValue → Type 0
IsWire (flag b) = Unit
IsWire (int8 v) = v < 256
IsWire (int16 v) = v < 256 ^ 2
IsWire (int32 v) = v < 256 ^ 4
IsWire (int64 v) = v < 256 ^ 8
IsWire (timestamp v) = v < 256 ^ 8
IsWire (binary bs) = FitsLength bs × All IsByte bs
IsWire (uuid bs) = (length bs ≡ 16) × All IsByte bs
IsWire (text cs) = FitsLength (utf8_all cs) × All IsScalar cs

unfoldable pub wire_type : WireValue → ℕ
wire_type (flag false) = 0
wire_type (flag true) = 1
wire_type (int8 v) = 2
wire_type (int16 v) = 3
wire_type (int32 v) = 4
wire_type (int64 v) = 5
wire_type (binary bs) = 6
wire_type (text cs) = 7
wire_type (timestamp v) = 8
wire_type (uuid bs) = 9

-- The two bytes of a length, and the bytes it counts.
unfoldable pub with_length : Bytes → Bytes
with_length bs = (length bs / 256) ∷ (length bs % 256) ∷ bs

unfoldable pub wire_body : WireValue → Bytes
wire_body (flag b) = []
wire_body (int8 v) = big_endian_bytes 1 v
wire_body (int16 v) = big_endian_bytes 2 v
wire_body (int32 v) = big_endian_bytes 4 v
wire_body (int64 v) = big_endian_bytes 8 v
wire_body (timestamp v) = big_endian_bytes 8 v
wire_body (binary bs) = with_length bs
wire_body (uuid bs) = bs
wire_body (text cs) = with_length (utf8_all cs)

-- The JavaScript value that a wire value means.
unfoldable pub meaning : WireValue → HeaderValue
meaning (flag b) = boolean b
meaning (int8 v) = number (signed 8 v)
meaning (int16 v) = number (signed 16 v)
meaning (int32 v) = number (signed 32 v)
meaning (int64 v) = bigint (signed 64 v)
meaning (timestamp v) = bigint (pos v)
meaning (binary bs) = array_buffer bs
meaning (uuid bs) = array_buffer bs
meaning (text cs) = string (utf16_all cs)

pub record WireHeader : Type 0 where
  pub name : List ℕ
  pub value : WireValue

pub record IsWireHeader (h : WireHeader) : Type 0 where
  pub name_scalars : All IsScalar h.name
  pub name_pos : 0 < length (utf8_all h.name)
  pub name_lt : length (utf8_all h.name) < 256
  pub value_wire : IsWire h.value

unfoldable pub encode_header : WireHeader → Bytes
encode_header h =
    length (utf8_all h.name) ∷ (utf8_all h.name ++ (wire_type h.value ∷ wire_body h.value))

unfoldable pub encode_headers : List WireHeader → Bytes
encode_headers [] = []
encode_headers (h ∷ hs) = encode_header h ++ encode_headers hs

abbrev pub decoded : WireHeader → JsString × HeaderValue
decoded h = (utf16_all h.name, meaning h.value)
