-- ===== src/EventStream/Tests.antt =====
-- Runs of the EventStream model on frames of internal/plugin/eventstream_protocol_test.go, and the
-- theorems applied to them.
pub mod Iterators
use ai_api_proxy.Common.Strings.{same_string}
use ai_api_proxy.Common.{
  ℕ, ◌≡◌, ◌≢◌, ◌↔◌, refl, ap, get_or, arith, List, [], ◌∷◌, ◌++◌, map, Bytes, All, true, ok, throws,
  none, some, concat, take, drop,
}
use ai_api_proxy.Common.Words.{big_endian_bytes}
use ai_api_proxy.EventStream.Crc.{crc32, crc_byte}
use ai_api_proxy.EventStream.Crc.Detects.{crc32-ne_of_byte}
use ai_api_proxy.EventStream.Crc.Flat.{checksum}
use ai_api_proxy.EventStream.Errors.{truncated_frame, duplicate_header, invalid_utf8, no_fuel}
use ai_api_proxy.EventStream.Frames.{Buffer, turn, decoding}
use ai_api_proxy.EventStream.Frames.Chunks.{decode_chunks, decode_bytes, decode_chunks-decode_bytes}
use ai_api_proxy.EventStream.Frames.Flat.{flat, front, bytes_of, turn-front}
use ai_api_proxy.EventStream.Frames.Streams.{decode_chunks-encode_messages, decode_chunks_truncated}
use ai_api_proxy.EventStream.Frames.Total.{decode_chunks-ends}
use ai_api_proxy.EventStream.Frames.Wire.{
  WireMessage, IsWireMessage, encode_message, encode_messages, decoded_message,
}
use ai_api_proxy.EventStream.Headers.{decode_headers, has_own}
use ai_api_proxy.EventStream.Headers.RoundTrip.{
  decode_headers-encode_headers, decode_headers_duplicate, HasDistinctNames,
}
use ai_api_proxy.EventStream.Headers.Wire.{
  WireHeader, IsWireHeader, encode_header, encode_headers, decoded, flag, int8, text, wire_type,
  wire_body, with_length,
}
use ai_api_proxy.EventStream.Utf8.{decode_utf8}
use ai_api_proxy.EventStream.Utf8.Decoded.{decode_utf8_iff}
use ai_api_proxy.EventStream.Utf8.Scalars.{IsScalar, utf8, utf8_all, utf16, utf16_all}

-- The frame of three headers of the Go test, and the header block in it.
abbrev golden_block : Bytes
golden_block =
    5 ∷ 0x3a ∷ 0x62 ∷ 0x6f ∷ 0x6f ∷ 0x6c ∷ 1 ∷ 4 ∷ 0x3a ∷ 0x6e ∷ 0x75 ∷ 0x6d ∷ 2 ∷ 0xff ∷ 4 ∷ 0x3a
    ∷ 0x73 ∷ 0x74 ∷ 0x72 ∷ 7 ∷ 0 ∷ 2 ∷ 0x6f ∷ 0x6b ∷ []

abbrev golden_frame : Bytes
golden_frame =
    (0 ∷ 0 ∷ 0 ∷ 42 ∷ 0 ∷ 0 ∷ 0 ∷ 24 ∷ 0xfd ∷ 0x3f ∷ 0x70 ∷ 0x9a ∷ [])
    ++ (golden_block ++ (0 ∷ 0xff ∷ 0xd7 ∷ 0xdc ∷ 0xd0 ∷ 0x54 ∷ []))

abbrev frame_a1 : Bytes
frame_a1 =
    0 ∷ 0 ∷ 0 ∷ 18 ∷ 0 ∷ 0 ∷ 0 ∷ 0 ∷ 0x7f ∷ 2 ∷ 0x1b ∷ 0x8b ∷ 0x61 ∷ 0x31 ∷ 0xe0 ∷ 0xd5 ∷ 0x96
    ∷ 0x9a ∷ []

abbrev frame_b2 : Bytes
frame_b2 =
    0 ∷ 0 ∷ 0 ∷ 18 ∷ 0 ∷ 0 ∷ 0 ∷ 0 ∷ 0x7f ∷ 2 ∷ 0x1b ∷ 0x8b ∷ 0x62 ∷ 0x32 ∷ 0x52 ∷ 0xf1 ∷ 0x94
    ∷ 0xe3 ∷ []

abbrev bool_header : WireHeader
bool_header = record { name = 0x3a ∷ 0x62 ∷ 0x6f ∷ 0x6f ∷ 0x6c ∷ []; value = flag true }

abbrev num_header : WireHeader
num_header = record { name = 0x3a ∷ 0x6e ∷ 0x75 ∷ 0x6d ∷ []; value = int8 255 }

abbrev str_header : WireHeader
str_header = record { name = 0x3a ∷ 0x73 ∷ 0x74 ∷ 0x72 ∷ []; value = text (0x6f ∷ 0x6b ∷ []) }

abbrev golden_headers : List WireHeader
golden_headers = bool_header ∷ num_header ∷ str_header ∷ []

abbrev golden : WireMessage
golden = record { headers = golden_headers; payload = 0 ∷ 0xff ∷ [] }

abbrev a1 : WireMessage
a1 = record { headers = []; payload = 0x61 ∷ 0x31 ∷ [] }

abbrev b2 : WireMessage
b2 = record { headers = []; payload = 0x62 ∷ 0x32 ∷ [] }

test_crc32 :
    crc32
      ((0x31 ∷ 0x32 ∷ 0x33 ∷ 0x34 ∷ []) ∷ [] ∷ (0x35 ∷ 0x36 ∷ 0x37 ∷ 0x38 ∷ 0x39 ∷ 0x39 ∷ []) ∷ [])
      9
    ≡ 0xcbf43926
unfolding crc32
test_crc32 = refl

-- The encoder gives the frames of the Go test.
test_encode_message : encode_message golden ≡ golden_frame
unfolding encode_message encode_headers encode_header wire_type wire_body with_length utf8_all utf8
    checksum big_endian_bytes crc_byte
test_encode_message = refl

bool_header-IsWireHeader : IsWireHeader bool_header
unfolding utf8_all utf8
bool_header-IsWireHeader = record {
  name_scalars = (ground arith, (ground arith, (ground arith, (ground arith, (ground arith, tt)))));
  name_pos = omega arith;
  name_lt = omega arith;
  value_wire = tt;
}

num_header-IsWireHeader : IsWireHeader num_header
unfolding utf8_all utf8
num_header-IsWireHeader = record {
  name_scalars = (ground arith, (ground arith, (ground arith, (ground arith, tt))));
  name_pos = omega arith;
  name_lt = omega arith;
  value_wire = omega arith;
}

str_header-IsWireHeader : IsWireHeader str_header
unfolding utf8_all utf8
str_header-IsWireHeader = record {
  name_scalars = (ground arith, (ground arith, (ground arith, (ground arith, tt))));
  name_pos = omega arith;
  name_lt = omega arith;
  value_wire = ((omega arith, omega arith), (ground arith, (ground arith, tt)));
}

golden_headers-wire : All IsWireHeader golden_headers
golden_headers-wire =
    (bool_header-IsWireHeader, (num_header-IsWireHeader, (str_header-IsWireHeader, tt)))

golden_headers-distinct : HasDistinctNames golden_headers
unfolding utf16_all utf16
golden_headers-distinct =
    ((λ e. cc, (λ e. cc, tt)), ((λ e. omega (arith, ap (λ s. get_or s 1 0) e), tt), (tt, tt)))

golden-IsWireMessage : IsWireMessage golden
unfolding encode_headers encode_header wire_type wire_body with_length utf8_all utf8
    big_endian_bytes
golden-IsWireMessage = record {
  headers_wire = golden_headers-wire;
  names_distinct = golden_headers-distinct;
  payload_bytes = (omega arith, (omega arith, tt));
  total_lt = omega arith;
}

a1-IsWireMessage : IsWireMessage a1
unfolding encode_headers
a1-IsWireMessage = record {
  headers_wire = tt;
  names_distinct = tt;
  payload_bytes = (omega arith, (omega arith, tt));
  total_lt = omega arith;
}

b2-IsWireMessage : IsWireMessage b2
unfolding encode_headers
b2-IsWireMessage = record {
  headers_wire = tt;
  names_distinct = tt;
  payload_bytes = (omega arith, (omega arith, tt));
  total_lt = omega arith;
}

-- The first frame of the Go test, the second cut after three bytes, and an empty chunk.
abbrev some_chunks : List Bytes
some_chunks = take 7 frame_a1 ∷ [] ∷ (drop 7 frame_a1 ++ take 3 frame_b2) ∷ drop 3 frame_b2 ∷ []

decode_chunks-encode_messages_example :
    decode_chunks some_chunks
    ≡ record { messages = map decoded_message (a1 ∷ b2 ∷ []); failure = none }
unfolding encode_messages encode_message encode_headers checksum crc_byte big_endian_bytes
decode_chunks-encode_messages_example =
    decode_chunks-encode_messages (a1 ∷ b2 ∷ []) some_chunks
      (a1-IsWireMessage, (b2-IsWireMessage, tt)) refl

decode_chunks_truncated_example : decode_chunks (golden_frame ∷ take 3 frame_b2 ∷ []) ≡ record {
  messages = map decoded_message (golden ∷ []);
  failure = some (decoding truncated_frame);
}
unfolding encode_messages encode_message encode_headers encode_header wire_type wire_body
    with_length utf8_all utf8 checksum crc_byte big_endian_bytes
decode_chunks_truncated_example =
    decode_chunks_truncated (golden ∷ []) b2 (take 3 frame_b2) (drop 3 frame_b2)
      (golden_frame ∷ take 3 frame_b2 ∷ []) (golden-IsWireMessage, tt) b2-IsWireMessage refl
      (λ e. cc) (λ e. cc) refl

decode_chunks-decode_bytes_example : decode_chunks some_chunks ≡ decode_bytes (concat some_chunks)
decode_chunks-decode_bytes_example = decode_chunks-decode_bytes some_chunks

decode_chunks-ends_example :
    (decode_chunks ((0 ∷ 1 ∷ []) ∷ (255 ∷ []) ∷ [])).failure ≢ some (decoding no_fuel)
decode_chunks-ends_example =
    decode_chunks-ends ((0 ∷ 1 ∷ []) ∷ (255 ∷ []) ∷ [])
      (omega arith, (omega arith, (omega arith, tt)))

abbrev golden_buffer : Buffer
golden_buffer = record {
  segments = take 20 golden_frame ∷ drop 20 golden_frame ∷ [];
  available = 42;
}

turn-front_example : flat (turn golden_buffer) ≡ front (bytes_of golden_buffer)
turn-front_example = turn-front golden_buffer refl

decode_headers-encode_headers_example :
    decode_headers golden_block ≡ ok (map decoded golden_headers)
unfolding encode_headers encode_header wire_type wire_body with_length utf8_all utf8
    big_endian_bytes
decode_headers-encode_headers_example =
    decode_headers-encode_headers golden_headers golden_headers-wire golden_headers-distinct

decode_headers_duplicate_example :
    decode_headers (encode_headers golden_headers ++ encode_headers (num_header ∷ []))
    ≡ throws (duplicate_header (utf16_all num_header.name))
unfolding has_own same_string utf16_all utf16
decode_headers_duplicate_example =
    decode_headers_duplicate golden_headers [] num_header golden_headers-wire
      golden_headers-distinct num_header-IsWireHeader refl

-- The euro sign.
decode_utf8_iff_example : (decode_utf8 (0xe2 ∷ 0x82 ∷ 0xac ∷ []) ≡ ok (0x20ac ∷ [])) ↔ (
    (cs : List ℕ) × All IsScalar cs
    × ((0xe2 ∷ 0x82 ∷ 0xac ∷ []) ≡ utf8_all cs)
    × ((0x20ac ∷ []) ≡ utf16_all cs))
decode_utf8_iff_example =
    decode_utf8_iff (0xe2 ∷ 0x82 ∷ 0xac ∷ []) (0x20ac ∷ [])
      (omega arith, (omega arith, (omega arith, tt)))

-- A surrogate.
abbrev surrogate : Bytes
surrogate = 0xed ∷ 0xa0 ∷ 0x80 ∷ []

test_surrogate : decode_utf8 surrogate ≡ throws invalid_utf8
unfolding decode_utf8
test_surrogate = refl

crc32-ne_of_byte_example :
    crc32 ((1 ∷ []) ∷ (2 ∷ 3 ∷ 4 ∷ []) ∷ []) 3 ≢ crc32 ((1 ∷ 9 ∷ 3 ∷ []) ∷ []) 3
crc32-ne_of_byte_example =
    crc32-ne_of_byte ((1 ∷ []) ∷ (2 ∷ 3 ∷ 4 ∷ []) ∷ []) ((1 ∷ 9 ∷ 3 ∷ []) ∷ []) 3 3 (1 ∷ [])
      (3 ∷ []) 2 9 (omega arith, tt) (omega arith, tt) (omega arith) (omega arith) (omega arith)
      refl refl
