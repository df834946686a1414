-- ===== src/EventStream/Frames/Chunks.antt =====
-- The decoder on chunks, and on the bytes that they join to.
use ai_api_proxy.Common.{
  concat-push, ℕ, zero, suc, ◌+◌, List, [], ◌∷◌, ◌++◌, map, Bytes, false, ◌==◌, if◌then◌else◌,
  length, concat, ok, throws, Option, none, some, ◌≡◌, ◌≢◌, refl, sym, ap, ◌∙◌, arith,
  length-append, append-nil, append_assoc, Bool-cases, inl, inr, Outcome-cases,
}
use ai_api_proxy.EventStream.Errors.{Decode, DecodeError, truncated_frame, no_fuel}
use ai_api_proxy.EventStream.Frames.{
  Message, Buffer, no_bytes, push_chunk, Turn, wait, cut, turn, Item, view, Failure, decoding,
  Pulled, yields, returns, fails, pull,
}
use ai_api_proxy.EventStream.Frames.Flat.{
  bytes_of, IsCounted, Front, front, flat, turn-front, turn-IsCounted,
}
use ai_api_proxy.EventStream.Frames.Rounds.{extend, front-append}

-- What a consumer sees that calls `next` until the end: the messages, and the failure if any.
pub record Trace : Type 0 where
  pub messages : List Message
  pub failure : Option Failure

abbrev then_message : Message → Trace → Trace
then_message m t = record t { messages = m ∷ t.messages }

abbrev ends : Trace
ends = record { messages = []; failure = none }

abbrev fails_with : Failure → Trace
fails_with e = record { messages = []; failure = some e }

-- The calls of `next`, as many as the fuel allows.
unfoldable pub drain : ℕ → Buffer → List Item → Trace
drain zero b items = fails_with (decoding no_fuel)
drain (suc fuel) b items = elim (pull b items) [
  | yields m b' items' ↦ then_message m (drain fuel b' items')
  | returns ↦ ends
  | fails e ↦ fails_with e
]

-- The messages of one byte string, read one after the other.
unfoldable pub read_all : ℕ → Bytes → Trace
read_all zero bs = fails_with (decoding no_fuel)
read_all (suc fuel) bs = elim (front bs) [
  | throws e ↦ fails_with (decoding e)
  | ok f ↦ elim f [
    | some (m, rest) ↦ then_message m (read_all fuel rest)
    | none ↦ if length bs == 0 then ends else fails_with (decoding truncated_frame)
  ]
]

-- All chunks are views; a message takes 16 bytes, so there are calls enough.
unfoldable pub decode_chunks : List Bytes → Trace
unfolding drain
decode_chunks chunks = drain (suc (length (concat chunks))) no_bytes (map view chunks)

unfoldable pub decode_bytes : Bytes → Trace
unfolding read_all
decode_bytes bs = read_all (suc (length bs)) bs

pull-fails :
    (b : Buffer) (items : List Item) {e : DecodeError}
    → turn b ≡ throws e
    → pull b items ≡ fails (decoding e)
unfolding pull
pull-fails b [] h = rw (h, pull)
pull-fails b (i ∷ items) h = rw (h, pull)

pull_yields :
    (b : Buffer) (items : List Item) {m : Message} {b' : Buffer}
    → turn b ≡ ok (cut m b')
    → pull b items ≡ yields m b' items
unfolding pull
pull_yields b [] h = rw (h, pull)
pull_yields b (i ∷ items) h = rw (h, pull)

pull_ends :
    (b : Buffer)
    → turn b ≡ ok wait
    → pull b [] ≡ (if b.available == 0 then returns else fails (decoding truncated_frame))
unfolding pull
pull_ends b h = rw (h, pull)

pull_reads :
    (b : Buffer) (chunk : Bytes) (items : List Item)
    → turn b ≡ ok wait
    → pull b (view chunk ∷ items) ≡ pull (push_chunk b chunk) items
unfolding pull
pull_reads b chunk items h = rw (h, pull)

-- `p` is what a read of the front of `whole` asks for.
abbrev Agrees : Bytes → Decode Front → Pulled → Type 0
Agrees whole (throws e) p = p ≡ fails (decoding e)
Agrees whole (ok none) p =
    p ≡ (if length whole == 0 then returns else fails (decoding truncated_frame))
Agrees whole (ok (some (m, rest))) p =
    (b : Buffer) × (chunks : List Bytes) × (p ≡ yields m b (map view chunks))
    × IsCounted b
    × (bytes_of b ++ concat chunks ≡ rest)

bytes_of-push_chunk :
    (b : Buffer) (chunk : Bytes) → bytes_of (push_chunk b chunk) ≡ bytes_of b ++ chunk
unfolding push_chunk
bytes_of-push_chunk b [] = sym (append-nil (bytes_of b))
bytes_of-push_chunk b (x ∷ chunk) =
    let held : (suc (length chunk) == 0) ≡ false = ground arith in
    rw held (concat-push b.segments (x ∷ chunk))

push_chunk-IsCounted : (b : Buffer) (chunk : Bytes) → IsCounted b → IsCounted (push_chunk b chunk)
push_chunk-IsCounted b chunk h =
    let counted : (push_chunk b chunk).available ≡ b.available + length chunk =
      unfold push_chunk in ground arith in
    omega
      (arith, counted, ap length (bytes_of-push_chunk b chunk), length-append (bytes_of b) chunk)

module _ (b : Buffer) (later : Bytes) (items : List Item) (h : IsCounted b) where
  -- A turn that fails or cuts a message is that of all the bytes.
  front_settled :
      (r : Decode Turn)
      → turn b ≡ r
      → flat r ≢ ok none
      → front (bytes_of b ++ later) ≡ extend later (flat r)
  front_settled r e ready =
      let held : front (bytes_of b) ≡ flat r = sym (turn-front b h) ∙ ap flat e in
      front-append (bytes_of b) later (λ asks. ready (sym held ∙ asks)) ∙ ap (extend later) held

  fails-Agrees :
      (e : DecodeError)
      → turn b ≡ throws e
      → Agrees (bytes_of b ++ later) (front (bytes_of b ++ later)) (pull b items)
  fails-Agrees e failed = rw (front_settled (throws e) failed (λ x. cc)) (pull-fails b items failed)

cuts-Agrees :
    (b : Buffer) (chunks : List Bytes) (m : Message) (b' : Buffer)
    → IsCounted b
    → turn b ≡ ok (cut m b')
    → Agrees
        (bytes_of b ++ concat chunks)
        (front (bytes_of b ++ concat chunks))
        (pull b (map view chunks))
cuts-Agrees b chunks m b' h done =
    rw (front_settled b (concat chunks) (map view chunks) h (ok (cut m b')) done (λ x. cc))
      ((b', chunks, pull_yields b (map view chunks) done, turn-IsCounted b h done, refl))

-- One call of `next` reads the front of the bytes held and still to come.
pull-Agrees :
    (chunks : List Bytes) (b : Buffer)
    → IsCounted b
    → Agrees
        (bytes_of b ++ concat chunks)
        (front (bytes_of b ++ concat chunks))
        (pull b (map view chunks))
pull-Agrees [] b h = elim (Outcome-cases (turn b)) [
  | inl (wait, e) ↦
      let held : front (bytes_of b) ≡ ok none = sym (turn-front b h) ∙ ap flat e in
      rw (append-nil, held, pull_ends b e, h) refl
  | inl (cut m b', e) ↦ cuts-Agrees b [] m b' h e
  | inr (x, e) ↦ fails-Agrees b [] [] h x e
]
pull-Agrees (c ∷ cs) b h = elim (Outcome-cases (turn b)) [
  | inl (wait, e) ↦
      rw (pull_reads b c (map view cs) e, ← append_assoc, ← bytes_of-push_chunk)
        (pull-Agrees cs (push_chunk b c) (push_chunk-IsCounted b c h))
  | inl (cut m b', e) ↦ cuts-Agrees b (c ∷ cs) m b' h e
  | inr (x, e) ↦ fails-Agrees b (concat (c ∷ cs)) (map view (c ∷ cs)) h x e
]

-- The calls of `next` give the messages of the bytes held and still to come.
drain-read_all :
    (fuel : ℕ) (b : Buffer) (chunks : List Bytes)
    → IsCounted b
    → drain fuel b (map view chunks) ≡ read_all fuel (bytes_of b ++ concat chunks)
unfolding drain read_all
drain-read_all zero b chunks h = refl
drain-read_all (suc fuel) b chunks h =
    go (λ b' chunks' h'. drain-read_all fuel b' chunks' h') (front (bytes_of b ++ concat chunks))
      refl (pull-Agrees chunks b h)
  where
    whole : Bytes
    whole = bytes_of b ++ concat chunks

    go :
        ((b' : Buffer) (chunks' : List Bytes)
          → IsCounted b'
          → drain fuel b' (map view chunks') ≡ read_all fuel (bytes_of b' ++ concat chunks'))
        → (r : Decode Front) → front whole ≡ r
        → Agrees whole r (pull b (map view chunks))
        → drain (suc fuel) b (map view chunks) ≡ read_all (suc fuel) whole
    go more (throws e) held agrees = rw (agrees, held, drain, read_all)
    go more (ok none) held agrees = elim (Bool-cases (length whole == 0)) [
      | inl empty ↦ rw (agrees, held, empty, drain, read_all)
      | inr partial ↦ rw (agrees, held, partial, drain, read_all)
    ]
    go more (ok (some (m, rest))) held (b', chunks', agrees, h', left) =
        rw (agrees, held, drain, read_all)
          (ap (then_message m) (more b' chunks' h' ∙ ap (read_all fuel) left))

-- However the bytes are cut into chunks, empty ones included, the decoder yields the messages that
-- the joined bytes hold, in order, and then ends or fails as they do.
pub decode_chunks-decode_bytes :
    (chunks : List Bytes) → decode_chunks chunks ≡ decode_bytes (concat chunks)
unfolding decode_chunks decode_bytes
decode_chunks-decode_bytes chunks =
    drain-read_all (suc (length (concat chunks))) no_bytes chunks refl
