-- ===== src/EventStream/Iterator/Consumer.antt =====
-- A client that reads messages with `next`, to the end or until it breaks off.
use ai_api_proxy.Common.{
  ℕ, zero, suc, ◌<◌, List, [], ◌∷◌, ◌++◌, map, length, concat, take, Bytes, IsByte, All, Bool, true,
  false, Option, none, some, ◌≡◌, ◌≢◌, ◌⊎◌, inl, inr, refl, arith,
}
use ai_api_proxy.EventStream.Errors.{no_fuel}
use ai_api_proxy.EventStream.Frames.{
  Item, view, Message, Buffer, no_bytes, Failure, decoding, Pulled, yields, returns, fails, pull,
}
use ai_api_proxy.EventStream.Frames.Chunks.{drain, decode_chunks}
use ai_api_proxy.EventStream.Frames.Total.{decode_chunks-ends}
use ai_api_proxy.EventStream.Iterator.{
  SourceReturn, no_function, throwing, Iterator, new_iterator, ended, suspended, leave, Reply,
  message, done, failed, source_threw, resume, return_into, next, return_of, Call, calls_next,
  calls_return, call, calls,
}

-- The iterator between two calls.
abbrev pub waiting : Bool → Buffer → List Item → Iterator
waiting started b items = record {
  started = started;
  stopped = false;
  generator = suspended b items;
  closings = 0;
}

-- The iterator behind the end of the generator: the source was done, or it had to be closed.
abbrev pub complete : Iterator
complete = record { started = true; stopped = false; generator = ended; closings = 0 }

abbrev pub broken_off : SourceReturn → Iterator
broken_off no_function = complete
broken_off _ = record { started = true; stopped = true; generator = ended; closings = 1 }

abbrev pub at_end : SourceReturn → Option Failure → Iterator
at_end source none = complete
at_end source (some e) = broken_off source

Pulled-cases :
    (p : Pulled)
    → ((m : Message) × (b : Buffer) × (items : List Item) × (p ≡ yields m b items))
      ⊎ (p ≡ returns)
      ⊎ ((e : Failure) × (p ≡ fails e))
Pulled-cases (yields m b items) = inl (m, b, items, refl)
Pulled-cases returns = inr (inl refl)
Pulled-cases (fails e) = inr (inr (e, refl))

-- As many calls of `next` as there are messages, and the calls `last`.
abbrev pub nexts : {V : Type 0} → List Message → List (Call V) → List (Call V)
nexts [] last = last
nexts (m ∷ ms) last = calls_next ∷ nexts ms last

abbrev pub ending : {V : Type 0} → Option Failure → Reply V
ending none = done none
ending (some e) = failed e

abbrev pub return_reply : {V : Type 0} → SourceReturn → V → Reply V
return_reply throwing value = source_threw
return_reply _ value = done (some value)

module _ {V : Type 0} (source : SourceReturn) where
  next-yields :
      (started : Bool) (b : Buffer) (items : List Item) {m : Message} {b' : Buffer}
      {items' : List Item}
      → pull b items ≡ yields m b' items'
      → call {V = V} source calls_next (waiting started b items)
        ≡ (waiting true b' items', message m)
  unfolding call next resume
  next-yields started b items h = rw (h, resume) refl

  next-returns :
      (started : Bool) (b : Buffer) (items : List Item)
      → pull b items ≡ returns
      → call {V = V} source calls_next (waiting started b items) ≡ (complete, done none)
  unfolding call next resume
  next-returns started b items h = rw (h, resume) refl

  next-fails :
      (started : Bool) (b : Buffer) (items : List Item) {e : Failure}
      → pull b items ≡ fails e
      → call {V = V} source calls_next (waiting started b items) ≡ (broken_off source, failed e)
  unfolding call next resume leave
  next-fails started b items h = rw (h, resume) (ground arith)

  return_lem :
      (b : Buffer) (items : List Item) (value : V)
      → call source (calls_return value) (waiting true b items)
        ≡ (broken_off source, return_reply source value)
  unfolding call return_of return_into leave
  return_lem b items value = ground arith

  calls_one :
      (c : Call V) (s : Iterator) {s' : Iterator} {r : Reply V}
      → call source c s ≡ (s', r)
      → calls source (c ∷ []) s ≡ (s', r ∷ [])
  unfolding calls
  calls_one c s h = rw h refl

  calls_more :
      (c : Call V) (cs : List (Call V)) (s : Iterator) {s' s'' : Iterator} {r : Reply V}
      {rs : List (Reply V)}
      → call source c s ≡ (s', r)
      → calls source cs s' ≡ (s'', rs)
      → calls source (c ∷ cs) s ≡ (s'', r ∷ rs)
  unfolding calls
  calls_more c cs s h k = rw (h, k) refl

  calls-drain :
      (fuel : ℕ) (started : Bool) (b : Buffer) (items : List Item)
      → (drain fuel b items).failure ≢ some (decoding no_fuel)
      → let t = drain fuel b items in
        calls {V = V} source (nexts t.messages (calls_next ∷ [])) (waiting started b items)
        ≡ (at_end source t.failure, map message t.messages ++ ending t.failure ∷ [])
  unfolding drain
  calls-drain zero started b items h = absurd (h refl)
  calls-drain (suc fuel) started b items h = elim (Pulled-cases (pull b items)) [
    | inl (m, b', items', yielded) ↦
        rw (yielded, drain)
          (calls_more calls_next (nexts (drain fuel b' items').messages (calls_next ∷ []))
            (waiting started b items) (next-yields started b items yielded)
            (calls-drain fuel true b' items' (rw (yielded, drain) at h)))
    | inr (inl returned) ↦
        rw (returned, drain)
          (calls_one calls_next (waiting started b items) (next-returns started b items returned))
    | inr (inr (e, broke)) ↦
        rw (broke, drain)
          (calls_one calls_next (waiting started b items) (next-fails started b items broke))
  ]

  -- `n` messages are read, or all of them, and then the client breaks off.
  calls-break :
      (n fuel : ℕ) (b : Buffer) (items : List Item) (value : V)
      → let ms = take n (drain fuel b items).messages in
        calls source (nexts ms (calls_return value ∷ [])) (waiting true b items)
        ≡ (broken_off source, map message ms ++ return_reply source value ∷ [])
  unfolding drain
  calls-break zero fuel b items value =
      calls_one (calls_return value) (waiting true b items) (return_lem b items value)
  calls-break (suc n) zero b items value =
      calls_one (calls_return value) (waiting true b items) (return_lem b items value)
  calls-break (suc n) (suc fuel) b items value = elim (Pulled-cases (pull b items)) [
    | inl (m, b', items', yielded) ↦
        rw (yielded, drain)
          (calls_more calls_next
            (nexts (take n (drain fuel b' items').messages) (calls_return value ∷ []))
            (waiting true b items) (next-yields true b items yielded)
            (calls-break n fuel b' items' value))
    | inr (inl returned) ↦
        rw (returned, drain)
          (calls_one (calls_return value) (waiting true b items) (return_lem b items value))
    | inr (inr (e, broke)) ↦
        rw (broke, drain)
          (calls_one (calls_return value) (waiting true b items) (return_lem b items value))
  ]

-- A client that calls `next` to the end gets the messages of the decoder, in order, and then its
-- failure or that it is done; a source with a function `return` was closed if there is a failure,
-- and else not.
pub calls-decode_chunks :
    {V : Type 0} (source : SourceReturn) (chunks : List Bytes)
    → All IsByte (concat chunks)
    → let t = decode_chunks chunks in
      calls {V = V} source (nexts t.messages (calls_next ∷ [])) (new_iterator (map view chunks))
      ≡ (at_end source t.failure, map message t.messages ++ ending t.failure ∷ [])
unfolding decode_chunks
calls-decode_chunks source chunks h =
    calls-drain source (suc (length (concat chunks))) false no_bytes (map view chunks)
      (decode_chunks-ends chunks h)

-- A client that calls `return` behind the first messages, one at least, gets these in order and the
-- value that it passed; a source with a function `return` is closed, and if that throws, the client
-- gets this instead.
pub calls_break-decode_chunks :
    {V : Type 0} (source : SourceReturn) (chunks : List Bytes) (n : ℕ) (value : V)
    → 0 < length (take (suc n) (decode_chunks chunks).messages)
    → let ms = take (suc n) (decode_chunks chunks).messages in
      calls source (nexts ms (calls_return value ∷ [])) (new_iterator (map view chunks))
      ≡ (broken_off source, map message ms ++ return_reply source value ∷ [])
unfolding decode_chunks drain
calls_break-decode_chunks source chunks n value some_read =
    let fuel = length (concat chunks) in
    elim (Pulled-cases (pull no_bytes (map view chunks))) [
      | inl (m, b', items', yielded) ↦
          rw (yielded, drain)
            (calls_more source calls_next
              (nexts (take n (drain fuel b' items').messages) (calls_return value ∷ []))
              (new_iterator (map view chunks))
              (next-yields source false no_bytes (map view chunks) yielded)
              (calls-break source n fuel b' items' value))
      | inr (inl returned) ↦
          let none_read : 0 < 0 = rw (returned, drain) at some_read in absurd (omega arith)
      | inr (inr (e, broke)) ↦
          let none_read : 0 < 0 = rw (broke, drain) at some_read in absurd (omega arith)
    ]
