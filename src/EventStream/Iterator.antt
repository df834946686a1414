-- ===== src/EventStream/Iterator.antt =====
-- The iterator that `decode` of eventstream.js returns: `next`, `return` and `throw` around the
-- generator, and the closing of the source.
pub mod Closing
pub mod Consumer
use ai_api_proxy.Common.{
  ℕ, zero, suc, ◌+◌, List, [], ◌∷◌, Bool, true, false, if◌then◌else◌, Option, none, some,
}
use ai_api_proxy.EventStream.Frames.{
  Message, Buffer, no_bytes, Item, Failure, yields, returns, fails, pull,
}

-- `source.return`: no function, a function that returns, or one that throws.
pub data SourceReturn : Type 0 where
  no_function : SourceReturn
  returning : SourceReturn
  throwing : SourceReturn

-- The generator waits with its buffer and what the source has left, or it has ended.
pub data Generator : Type 0 where
  suspended : Buffer → List Item → Generator
  ended : Generator

-- The variables of `decode`, and the number of calls of `source.return`.
pub record Iterator : Type 0 where
  pub started : Bool
  pub stopped : Bool
  pub generator : Generator
  pub closings : ℕ

abbrev pub new_iterator : List Item → Iterator
new_iterator items = record {
  started = false;
  stopped = false;
  generator = suspended no_bytes items;
  closings = 0;
}

-- What a call of the iterator gives; `V` are the values that the caller passes.
pub data Reply (V : Type 0) : Type 0 where
  message : Message → Reply V
  -- `{ done: true }`, with a value or without
  done : Option V → Reply V
  -- what `source.return()` returned
  of_source : Reply V
  -- a failure of the generator, an error of the caller, and what `source.return()` threw
  failed : Failure → Reply V
  thrown : V → Reply V
  source_threw : Reply V

-- A call of the client.
pub data Call (V : Type 0) : Type 0 where
  calls_next : Call V
  calls_return : V → Call V
  calls_throw : V → Call V

-- `stopped = true; source.return()`
abbrev pub close : Iterator → Iterator
close s = record s { stopped = true; closings = s.closings + 1 }

abbrev pub finish : Iterator → Iterator
finish s = record s { generator = ended }

-- The `finally` of the generator, if it has not completed: `none` if nothing was thrown.
unfoldable pub leave : SourceReturn → Iterator → Iterator × Bool
leave source s = if s.stopped then (s, false) else elim source [
  | no_function ↦ (s, false)
  | returning ↦ (close s, false)
  | throwing ↦ (close s, true)
]

module _ {V : Type 0} where
  -- The generator goes on to its next `yield`; its failure is the primary error, so an exception of
  -- `source.return()` is dropped.
  unfoldable pub resume : SourceReturn → Iterator → Iterator × Reply V
  unfolding leave
  resume source s = elim s.generator [
    | ended ↦ (s, done none)
    | suspended b items ↦ elim (pull b items) [
      | yields m b' items' ↦ (record s { generator = suspended b' items' }, message m)
      | returns ↦ (finish s, done none)
      | fails e ↦ ((leave source (finish s)).0, failed e)
    ]
  ]

  -- `decoder.return(value)` and `decoder.throw(error)`, when the generator has started
  unfoldable pub return_into : SourceReturn → V → Iterator → Iterator × Reply V
  unfolding leave
  return_into source value s = elim s.generator [
    | ended ↦ (s, done (some value))
    | suspended b items ↦
        let left = leave source (finish s) in
        (left.0, if left.1 then source_threw else done (some value))
  ]

  unfoldable pub throw_into : SourceReturn → V → Iterator → Iterator × Reply V
  unfolding leave
  throw_into source error s = elim s.generator [
    | ended ↦ (s, thrown error)
    | suspended b items ↦ ((leave source (finish s)).0, thrown error)
  ]

  -- `next`, `return` and `throw` of the iterator
  unfoldable pub next : SourceReturn → Iterator → Iterator × Reply V
  unfolding resume
  next source s = if s.stopped then (s, done none) else resume source (record s { started = true })

  unfoldable pub return_of : SourceReturn → V → Iterator → Iterator × Reply V
  unfolding return_into
  return_of source value s =
      if s.stopped
      then (s, done none)
      else if s.started
      then return_into source value s
      else elim source [
        | no_function ↦ (record s { stopped = true }, done (some value))
        | returning ↦ (close s, of_source)
        | throwing ↦ (close s, source_threw)
      ]

  unfoldable pub throw_of : SourceReturn → V → Iterator → Iterator × Reply V
  unfolding throw_into
  throw_of source error s =
      if s.stopped
      then (s, thrown error)
      else if s.started
      then throw_into source error s
      else elim source [
        | no_function ↦ (s, thrown error)
        | returning ↦ (close s, thrown error)
        | throwing ↦ (close s, thrown error)
      ]

  unfoldable pub call : SourceReturn → Call V → Iterator → Iterator × Reply V
  unfolding next return_of throw_of
  call source calls_next s = next source s
  call source (calls_return value) s = return_of source value s
  call source (calls_throw error) s = throw_of source error s

  -- Calls in turn, and their replies.
  unfoldable pub calls : SourceReturn → List (Call V) → Iterator → Iterator × List (Reply V)
  unfolding call
  calls source [] s = (s, [])
  calls source (c ∷ cs) s =
      let first = call source c s in
      let rest = calls source cs first.0 in (rest.0, first.1 ∷ rest.1)
