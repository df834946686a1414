-- ===== src/EventStream/Tests/Iterators.antt =====
-- Damaged streams, and clients of the iterator, at concrete values.
use ai_api_proxy.Common.{
  ℕ, ◌≤◌, List, [], ◌∷◌, ◌++◌, map, take, drop, Bytes, none, some, ◌≡◌, refl, arith,
}
use ai_api_proxy.EventStream.Crc.{crc_byte}
use ai_api_proxy.EventStream.Crc.Flat.{checksum}
use ai_api_proxy.Common.Words.{big_endian_bytes}
use ai_api_proxy.EventStream.Frames.{decoding, view}
use ai_api_proxy.EventStream.Frames.Chunks.{decode_chunks}
use ai_api_proxy.EventStream.Frames.Damage.{found_by, decode_chunks_damaged}
use ai_api_proxy.EventStream.Frames.Wire.{encode_message, encode_messages, decoded_message}
use ai_api_proxy.EventStream.Headers.Wire.{encode_headers}
use ai_api_proxy.EventStream.Iterator.{
  returning, throwing, calls, calls_next, calls_return, calls_throw, new_iterator, message,
}
use ai_api_proxy.EventStream.Iterator.Closing.{closings_of, closings-le}
use ai_api_proxy.EventStream.Iterator.Consumer.{
  nexts, ending, at_end, broken_off, return_reply, calls-decode_chunks, calls_break-decode_chunks,
}
use ai_api_proxy.EventStream.Frames.Streams.{decode_chunks-encode_messages}
use ai_api_proxy.EventStream.Tests.{frame_a1, frame_b2, a1, b2, a1-IsWireMessage, b2-IsWireMessage}

-- The first byte of the second payload is 0x63 instead of 0x62.
abbrev damaged_chunks : List Bytes
damaged_chunks = frame_a1 ∷ take 12 frame_b2 ∷ (0x63 ∷ drop 13 frame_b2) ∷ (7 ∷ []) ∷ []

decode_chunks_damaged_example :
    decode_chunks damaged_chunks
    ≡ record { messages = map decoded_message (a1 ∷ []); failure = some (decoding (found_by 12)) }
unfolding encode_messages encode_message encode_headers checksum crc_byte big_endian_bytes
decode_chunks_damaged_example =
    decode_chunks_damaged (a1 ∷ []) b2 (take 12 frame_b2) (drop 13 frame_b2) (7 ∷ []) 0x62 0x63
      damaged_chunks (a1-IsWireMessage, tt) b2-IsWireMessage refl (omega arith) (λ e. omega arith)
      (omega arith, tt) refl

-- Two frames in three chunks.
abbrev two_frames : List Bytes
two_frames = take 7 frame_a1 ∷ (drop 7 frame_a1 ++ take 3 frame_b2) ∷ drop 3 frame_b2 ∷ []

test_two_frames :
    decode_chunks two_frames
    ≡ record { messages = map decoded_message (a1 ∷ b2 ∷ []); failure = none }
unfolding encode_messages encode_message encode_headers checksum crc_byte big_endian_bytes
test_two_frames =
    decode_chunks-encode_messages (a1 ∷ b2 ∷ []) two_frames
      (a1-IsWireMessage, (b2-IsWireMessage, tt)) refl

closings-le_example :
    let s =
      (calls {V = ℕ} throwing
        (calls_next ∷ calls_return 5 ∷ calls_throw 6 ∷ calls_next ∷ [])
        (new_iterator (map view two_frames))).0 in
    (s.closings ≤ 1) × (s.closings ≡ closings_of throwing s.stopped)
closings-le_example =
    closings-le {V = ℕ} throwing (map view two_frames)
      (calls_next ∷ calls_return 5 ∷ calls_throw 6 ∷ calls_next ∷ [])

calls-decode_chunks_example :
    let t = decode_chunks ((0 ∷ 1 ∷ []) ∷ []) in
    calls {V = ℕ} returning
      (nexts t.messages (calls_next ∷ []))
      (new_iterator (map view ((0 ∷ 1 ∷ []) ∷ [])))
    ≡ (at_end returning t.failure, map message t.messages ++ ending t.failure ∷ [])
calls-decode_chunks_example =
    calls-decode_chunks returning ((0 ∷ 1 ∷ []) ∷ []) (omega arith, (omega arith, tt))

calls_break-decode_chunks_example :
    let ms = take 1 (decode_chunks two_frames).messages in
    calls {V = ℕ} throwing (nexts ms (calls_return 5 ∷ [])) (new_iterator (map view two_frames))
    ≡ (broken_off throwing, map message ms ++ return_reply throwing 5 ∷ [])
calls_break-decode_chunks_example =
    calls_break-decode_chunks {V = ℕ} throwing two_frames 0 5 (rw test_two_frames (omega arith))
