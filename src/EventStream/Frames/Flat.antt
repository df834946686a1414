-- ===== src/EventStream/Frames/Flat.antt =====
-- What a turn of the decoder does to the joined bytes of its segments.
use ai_api_proxy.Common.{
  Ensures, Ensures->>=, Ensures-if, Ensures-elim, ap, ◌∙◌, >>=_assoc, if->>=, ℕ, ◌+◌, ◌-◌, Bytes,
  not, ◌||◌, ltb, ◌==◌, if◌then◌else◌, length, take, drop, concat, ok, ◌>>=◌, ◌>>◌, throw_if,
  Option, none, some, ◌≡◌, arith, length-drop,
}
use ai_api_proxy.EventStream.Crc.{crc32}
use ai_api_proxy.EventStream.Crc.Flat.{checksum, crc32-checksum}
use ai_api_proxy.EventStream.Errors.{
  Decode, prelude_crc_mismatch, invalid_frame_length, message_crc_mismatch,
}
use ai_api_proxy.EventStream.Frames.{
  Message, Buffer, Turn, wait, cut, cut_message, read_prelude, turn,
}
use ai_api_proxy.EventStream.Headers.{decode_headers}
use ai_api_proxy.EventStream.Segments.{read_u32, copy_range, consume}
use ai_api_proxy.EventStream.Segments.Flat.{
  u32_of, range_of, read_u32-u32_of, copy_range-range_of, concat-consume,
}

-- The bytes that the segments hold.
abbrev pub bytes_of : Buffer → Bytes
bytes_of b = concat b.segments

-- `available` counts the bytes held.
abbrev pub IsCounted : Buffer → Type 0
IsCounted b = b.available ≡ length (bytes_of b)

-- A message at the front of the bytes, and the bytes behind it; `none` if more bytes are needed.
abbrev pub Front : Type 0
Front = Option (Message × Bytes)

unfoldable pub front_body : Bytes → ℕ → ℕ → Decode Front
front_body bs total headers_length = do
  crc ← u32_of bs (total - 4)
  throw_if (not (checksum (take (total - 4) bs) == crc)) message_crc_mismatch
  block ← range_of bs 12 headers_length
  headers ← decode_headers block
  payload ← range_of bs (12 + headers_length) (total - 16 - headers_length)
  ok (some (record { headers = headers; payload = payload }, drop total bs))

unfoldable pub front_prelude : Bytes → Decode Front
front_prelude bs = do
  total ← u32_of bs 0
  headers_length ← u32_of bs 4
  crc ← u32_of bs 8
  throw_if (not (checksum (take 8 bs) == crc)) prelude_crc_mismatch
  throw_if (ltb total 16 || ltb (total - 16) headers_length) invalid_frame_length
  (if ltb (length bs) total then ok none else front_body bs total headers_length)

unfoldable pub front : Bytes → Decode Front
front bs = if ltb (length bs) 12 then ok none else front_prelude bs

abbrev pub flat_turn : Turn → Front
flat_turn wait = none
flat_turn (cut m b) = some (m, bytes_of b)

abbrev pub flat : Decode Turn → Decode Front
flat r = r >>= λ t. ok (flat_turn t)

bytes-consume :
    (b : Buffer) (n : ℕ)
    → IsCounted b
    → concat (consume b.segments b.available n) ≡ drop n (bytes_of b)
bytes-consume b n h = ap (λ a. concat (consume b.segments a n)) h ∙ concat-consume b.segments n

cut_message-front_body :
    (b : Buffer) (total headers_length : ℕ)
    → IsCounted b
    → flat (cut_message b total headers_length) ≡ front_body (bytes_of b) total headers_length
unfolding cut_message front_body
cut_message-front_body b total n h =
    simp (>>=_assoc, read_u32-u32_of, crc32-checksum, copy_range-range_of, bytes-consume b total h)

read_prelude-front_prelude :
    (b : Buffer) → IsCounted b → flat (read_prelude b) ≡ front_prelude (bytes_of b)
unfolding read_prelude front_prelude
read_prelude-front_prelude b h = simp (
  >>=_assoc,
  if->>=,
  read_u32-u32_of,
  crc32-checksum,
  h,
  λ (total n : ℕ). cut_message-front_body b total n h,
)

-- A turn over segments, whose count is right, throws, waits, or cuts a message and leaves the bytes
-- behind it, as `front` says of the joined bytes.
pub turn-front : (b : Buffer) → IsCounted b → flat (turn b) ≡ front (bytes_of b)
unfolding turn front
turn-front b h = simp (if->>=, read_prelude-front_prelude b h, h)

abbrev CutIsCounted : Turn → Type 0
CutIsCounted wait = Unit
CutIsCounted (cut m b) = IsCounted b

cut_message-IsCounted :
    (b : Buffer) (total n : ℕ) → IsCounted b → Ensures CutIsCounted (cut_message b total n)
unfolding cut_message
cut_message-IsCounted b total n h =
    Ensures->>= CutIsCounted (read_u32 b.segments (total - 4)) _ λ crc _.
      Ensures->>= CutIsCounted
        (throw_if (not (crc32 b.segments (total - 4) == crc)) message_crc_mismatch) _
        λ _ _. Ensures->>= CutIsCounted (copy_range b.segments 12 n) _ λ block _.
          Ensures->>= CutIsCounted (decode_headers block) _ λ headers _.
            Ensures->>= CutIsCounted (copy_range b.segments (12 + n) (total - 16 - n)) _
              λ payload _.
                omega (arith, length-drop total (bytes_of b), ap length (bytes-consume b total h))

turn-CutIsCounted : (b : Buffer) → IsCounted b → Ensures CutIsCounted (turn b)
unfolding turn read_prelude
turn-CutIsCounted b h =
    Ensures-if CutIsCounted (ltb b.available 12) _ _ (λ _. tt)
      λ _. Ensures->>= CutIsCounted (read_u32 b.segments 0) _ λ total _.
        Ensures->>= CutIsCounted (read_u32 b.segments 4) _ λ n _.
          Ensures->>= CutIsCounted (read_u32 b.segments 8) _ λ crc _.
            Ensures->>= CutIsCounted
              (throw_if (not (crc32 b.segments 8 == crc)) prelude_crc_mismatch) _
              λ _ _.
                Ensures->>= CutIsCounted
                  (throw_if (ltb total 16 || ltb (total - 16) n) invalid_frame_length) _
                  λ _ _.
                    Ensures-if CutIsCounted (ltb b.available total) _ _ (λ _. tt)
                      λ _. cut_message-IsCounted b total n h

-- `available` counts what is left in the segments.
pub turn-IsCounted :
    (b : Buffer) {m : Message} {b' : Buffer} → IsCounted b → turn b ≡ ok (cut m b') → IsCounted b'
turn-IsCounted b h e = Ensures-elim CutIsCounted (turn b) (turn-CutIsCounted b h) e
