-- ===== src/EventStream/Frames/Wire.antt =====
-- The AWS EventStream frame, described by its encoder: two lengths and their checksum, the header
-- block, the payload, and the checksum of all that.
use ai_api_proxy.Common.{ℕ, ◌+◌, ◌^◌, ◌<◌, List, [], ◌∷◌, ◌++◌, map, Bytes, IsByte, All, length}
use ai_api_proxy.Common.Words.{big_endian_bytes}
use ai_api_proxy.EventStream.Crc.Flat.{checksum}
use ai_api_proxy.EventStream.Frames.{Message}
use ai_api_proxy.EventStream.Headers.RoundTrip.{HasDistinctNames}
use ai_api_proxy.EventStream.Headers.Wire.{WireHeader, IsWireHeader, encode_headers, decoded}

pub record WireMessage : Type 0 where
  pub headers : List WireHeader
  pub payload : Bytes

abbrev pub block_of : WireMessage → Bytes
block_of m = encode_headers m.headers

abbrev pub total_of : WireMessage → ℕ
total_of m = 16 + length (block_of m) + length m.payload

pub record IsWireMessage (m : WireMessage) : Type 0 where
  pub headers_wire : All IsWireHeader m.headers
  pub names_distinct : HasDistinctNames m.headers
  pub payload_bytes : All IsByte m.payload
  pub total_lt : total_of m < 256 ^ 4

abbrev pub lengths_of : WireMessage → Bytes
lengths_of m = big_endian_bytes 4 (total_of m) ++ big_endian_bytes 4 (length (block_of m))

abbrev pub prelude_of : WireMessage → Bytes
prelude_of m = lengths_of m ++ big_endian_bytes 4 (checksum (lengths_of m))

abbrev pub covered_of : WireMessage → Bytes
covered_of m = prelude_of m ++ (block_of m ++ m.payload)

unfoldable pub encode_message : WireMessage → Bytes
encode_message m = covered_of m ++ big_endian_bytes 4 (checksum (covered_of m))

unfoldable pub encode_messages : List WireMessage → Bytes
encode_messages [] = []
encode_messages (m ∷ ms) = encode_message m ++ encode_messages ms

abbrev pub decoded_message : WireMessage → Message
decoded_message m = record { headers = map decoded m.headers; payload = m.payload }
