-- ===== src/EventStream/Frames/Streams.antt =====
-- Whole streams of encoded messages: complete, cut short, and split into chunks at will.
use ai_api_proxy.Common.{
  ℕ, zero, suc, ◌<◌, List, [], ◌∷◌, ◌++◌, map, Bytes, All, length, concat, ok, throws, none, some,
  ◌≡◌, ◌≢◌, refl, sym, ap, ◌∙◌, arith, length-append, append-nil, append_assoc, Outcome-cases, inl,
  inr,
}
use ai_api_proxy.EventStream.Errors.{Decode, DecodeError, truncated_frame}
use ai_api_proxy.EventStream.Frames.{Message, decoding}
use ai_api_proxy.EventStream.Frames.Chunks.{
  Trace, read_all, decode_bytes, decode_chunks, decode_chunks-decode_bytes,
}
use ai_api_proxy.EventStream.Frames.Flat.{Front, front}
use ai_api_proxy.EventStream.Frames.RoundTrip.{front-encode_message, length-encode_message}
use ai_api_proxy.EventStream.Frames.Rounds.{front-append, extend}
use ai_api_proxy.EventStream.Frames.Wire.{
  WireMessage, IsWireMessage, encode_message, encode_messages, decoded_message,
}

abbrev then_message : Message → Trace → Trace
then_message m t = record t { messages = m ∷ t.messages }

read_all-some :
    (fuel : ℕ) (bs : Bytes) {m : Message} {rest : Bytes}
    → front bs ≡ ok (some (m, rest))
    → read_all (suc fuel) bs ≡ then_message m (read_all fuel rest)
unfolding read_all
read_all-some fuel bs h = rw (h, read_all)

pub decode_bytes_lem : (bs : Bytes) → decode_bytes bs ≡ read_all (suc (length bs)) bs
unfolding decode_bytes
decode_bytes_lem bs = refl

-- The messages in front of what is left of the bytes.
pub read_all-encode_messages :
    (ms : List WireMessage) (fuel : ℕ) (rest : Bytes)
    → All IsWireMessage ms
    → length (encode_messages ms ++ rest) < fuel
    → (fuel' : ℕ) × (read_all fuel (encode_messages ms ++ rest) ≡ record {
      messages = map decoded_message ms ++ (read_all fuel' rest).messages;
      failure = (read_all fuel' rest).failure;
    })
      × (length rest < fuel')
unfolding encode_messages
read_all-encode_messages [] fuel rest w n = (fuel, refl, n)
read_all-encode_messages (m ∷ ms) zero rest w n = absurd (omega arith)
read_all-encode_messages (m ∷ ms) (suc fuel) rest w n =
    let tail = encode_messages ms ++ rest in
    let whole = append_assoc (encode_message m) (encode_messages ms) rest in
    let enough : length tail < fuel = omega (
      arith,
      length-append (encode_message m) tail,
      length-encode_message m w.0,
      ap length whole,
    ) in
    let (fuel', e, k) = read_all-encode_messages ms fuel rest w.1 enough in
    (
      fuel',
      ap (read_all (suc fuel)) whole
          ∙ read_all-some fuel (encode_message m ++ tail) (front-encode_message m w.0 tail)
          ∙ ap (then_message (decoded_message m)) e,
      k,
    )

read_all-nil : (fuel : ℕ) → 0 < fuel → read_all fuel [] ≡ record { messages = []; failure = none }
unfolding read_all front
read_all-nil zero h = absurd (omega arith)
read_all-nil (suc fuel) h = refl

-- For every cut into chunks of the encoding of well-formed messages, the decoder yields these
-- messages, in order, and then ends without a failure.
pub decode_chunks-encode_messages :
    (ms : List WireMessage) (chunks : List Bytes)
    → All IsWireMessage ms
    → concat chunks ≡ encode_messages ms
    → decode_chunks chunks ≡ record { messages = map decoded_message ms; failure = none }
decode_chunks-encode_messages ms chunks w e =
    let stream = encode_messages ms in
    let plain : length (stream ++ []) < suc (length stream) =
      omega (arith, length-append stream []) in
    let (fuel', read, k) = read_all-encode_messages ms (suc (length stream)) [] w plain in
    let plain_read : read_all (suc (length stream)) stream
        ≡ read_all (suc (length stream)) (stream ++ []) =
      ap (read_all (suc (length stream))) (sym (append-nil stream)) in
    let left = read_all-nil fuel' (omega arith) in
    decode_chunks-decode_bytes chunks
    ∙ ap decode_bytes e
    ∙ decode_bytes_lem stream
    ∙ plain_read
    ∙ read
    ∙ rw (left, append-nil) refl

nothing_left : (r missing : Bytes) → r ++ missing ≡ [] → missing ≡ []
nothing_left [] missing e = e
nothing_left (x ∷ r) missing e = cc

-- A strict part of an encoded message, from its start, asks for more bytes.
front-partial :
    (m : WireMessage) (part missing : Bytes)
    → IsWireMessage m
    → encode_message m ≡ part ++ missing
    → missing ≢ []
    → front part ≡ ok none
front-partial m part missing w e more = elim (Outcome-cases (front part)) [
  | inl (none, asks) ↦ asks
  | inl (some (m', r), found) ↦
      let early = extended (λ asks. cc) ∙ ap (extend missing) found in
      absurd (more (nothing_left r missing (rest_of (sym early ∙ complete))))
  | inr (x, failed) ↦
      let early = extended (λ asks. cc) ∙ ap (extend missing) failed in
      absurd (clash x (sym complete ∙ early))
]
  where
    complete : front (part ++ missing) ≡ ok (some (decoded_message m, []))
    complete = ap front (sym e ∙ sym (append-nil (encode_message m))) ∙ front-encode_message m w []

    extended : front part ≢ ok none → front (part ++ missing) ≡ extend missing (front part)
    extended = front-append part missing

    rest_of :
        {m₁ m₂ : Message} {r₁ r₂ : Bytes}
        → ◌≡◌ {A = Decode Front} (ok (some (m₁, r₁))) (ok (some (m₂, r₂)))
        → r₁ ≡ r₂
    rest_of h = cc

    clash : (x : DecodeError) {f : Front} → ◌≡◌ {A = Decode Front} (ok f) (throws x) → ⊥
    clash x h = cc

read_all-partial :
    (part : Bytes) (fuel : ℕ)
    → part ≢ []
    → front part ≡ ok none
    → length part < fuel
    → read_all fuel part ≡ record { messages = []; failure = some (decoding truncated_frame) }
unfolding read_all
read_all-partial [] fuel h asks n = absurd (h refl)
read_all-partial (x ∷ part) zero h asks n = absurd (omega arith)
read_all-partial (x ∷ part) (suc fuel) h asks n = rw (asks, read_all) (ground arith)

-- Of a stream that stops inside a well-formed message, behind its first byte, the decoder yields
-- the messages before it, in order, and then fails as truncated, for every cut into chunks.
pub decode_chunks_truncated :
    (ms : List WireMessage) (m : WireMessage) (part missing : Bytes) (chunks : List Bytes)
    → All IsWireMessage ms
    → IsWireMessage m
    → encode_message m ≡ part ++ missing
    → part ≢ []
    → missing ≢ []
    → concat chunks ≡ encode_messages ms ++ part
    → decode_chunks chunks
      ≡ record { messages = map decoded_message ms; failure = some (decoding truncated_frame) }
decode_chunks_truncated ms m part missing chunks w v split some_part more e =
    let stream = encode_messages ms ++ part in
    let (fuel', read, k) = read_all-encode_messages ms (suc (length stream)) part w (omega arith) in
    let stops =
      read_all-partial part fuel' some_part (front-partial m part missing v split more) k in
    decode_chunks-decode_bytes chunks
    ∙ ap decode_bytes e
    ∙ decode_bytes_lem stream
    ∙ read
    ∙ rw (stops, append-nil) refl
