-- ===== src/EventStream/Frames.antt =====
-- The loop of the generator that `decode` of eventstream.js builds: chunks in, messages out.
pub mod Flat
pub mod Rounds
pub mod Chunks
pub mod Total
pub mod Wire
pub mod RoundTrip
pub mod Streams
pub mod Checked
pub mod Damage
use ai_api_proxy.Common.{
  ℕ, zero, suc, ◌+◌, ◌-◌, List, [], ◌∷◌, ◌++◌, Bytes, Bool, not, ◌||◌, ltb, ◌==◌, if◌then◌else◌,
  length, ok, throws, ◌>>=◌, ◌>>◌, throw_if,
}
use ai_api_proxy.EventStream.Crc.{crc32}
use ai_api_proxy.EventStream.Errors.{
  Decode, DecodeError, not_a_buffer, prelude_crc_mismatch, invalid_frame_length,
  message_crc_mismatch, truncated_frame, no_fuel,
}
use ai_api_proxy.EventStream.Headers.{Headers, decode_headers}
use ai_api_proxy.EventStream.Segments.{read_u32, copy_range, consume}

-- What is yielded: `{ headers, payload }`.
pub record Message : Type 0 where
  pub headers : Headers
  pub payload : Bytes

pub record Buffer : Type 0 where
  pub segments : List Bytes
  pub available : ℕ

abbrev pub no_bytes : Buffer
no_bytes = record { segments = []; available = 0 }

-- `if (chunk.length) { segments.push(chunk); available += chunk.length; }`
unfoldable pub push_chunk : Buffer → Bytes → Buffer
push_chunk b chunk =
    if length chunk == 0
    then b
    else record { segments = b.segments ++ chunk ∷ []; available = b.available + length chunk }

-- A turn of `while (available >= 12)`: it waits for more bytes, or cuts a message off the buffer.
pub data Turn : Type 0 where
  wait : Turn
  cut : Message → Buffer → Turn

-- The turn behind `if (available < totalLength) break;`
unfoldable pub cut_message : Buffer → ℕ → ℕ → Decode Turn
cut_message b total headers_length = do
  crc ← read_u32 b.segments (total - 4)
  throw_if (not (crc32 b.segments (total - 4) == crc)) message_crc_mismatch
  block ← copy_range b.segments 12 headers_length
  headers ← decode_headers block
  payload ← copy_range b.segments (12 + headers_length) (total - 16 - headers_length)
  let rest : Buffer = record {
    segments = consume b.segments b.available total;
    available = b.available - total;
  }
  ok (cut (record { headers = headers; payload = payload }) rest)

-- The turn from its first read.
unfoldable pub read_prelude : Buffer → Decode Turn
read_prelude b = do
  total ← read_u32 b.segments 0
  headers_length ← read_u32 b.segments 4
  crc ← read_u32 b.segments 8
  throw_if (not (crc32 b.segments 8 == crc)) prelude_crc_mismatch
  throw_if (ltb total 16 || ltb (total - 16) headers_length) invalid_frame_length
  (if ltb b.available total then ok wait else cut_message b total headers_length)

unfoldable pub turn : Buffer → Decode Turn
turn b = if ltb b.available 12 then ok wait else read_prelude b

-- What a call of `source.next()` gives while the source is not done: the bytes of a buffer or view,
-- another value, or an exception.
pub data Item : Type 0 where
  view : Bytes → Item
  not_view : Item
  raise : Item

pub data Failure : Type 0 where
  decoding : DecodeError → Failure
  source_raised : Failure

-- How the generator comes back from `next`: at a `yield`, at its end, or with an exception.
pub data Pulled : Type 0 where
  yields : Message → Buffer → List Item → Pulled
  returns : Pulled
  fails : Failure → Pulled

-- From one `yield` to the next; the list holds what the source has left.
unfoldable pub pull : Buffer → List Item → Pulled
pull b [] = elim (turn b) [
  | throws e ↦ fails (decoding e)
  | ok t ↦ elim t [
    | cut m b' ↦ yields m b' []
    | wait ↦ if b.available == 0 then returns else fails (decoding truncated_frame)
  ]
]
pull b (item ∷ items) = elim (turn b) [
  | throws e ↦ fails (decoding e)
  | ok t ↦ elim t [
    | cut m b' ↦ yields m b' (item ∷ items)
    | wait ↦ elim item [
      | view chunk ↦ pull (push_chunk b chunk) items
      | not_view ↦ fails (decoding not_a_buffer)
      | raise ↦ fails source_raised
    ]
  ]
]
