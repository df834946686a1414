-- ===== src/EventStream/Iterator/Closing.antt =====
-- How often the source is closed.
use ai_api_proxy.Common.{ℕ, ◌≤◌, List, [], ◌∷◌, Bool, true, false, none, ◌≡◌, refl, map, arith}
use ai_api_proxy.EventStream.Frames.{Item}
use ai_api_proxy.EventStream.Iterator.{
  SourceReturn, no_function, Iterator, new_iterator, leave, Reply, done, thrown, resume,
  return_into, throw_into, next, return_of, throw_of, Call, calls_next, calls_return, calls_throw,
  call, calls,
}

abbrev pub closings_of : SourceReturn → Bool → ℕ
closings_of no_function stopped = 0
closings_of _ true = 1
closings_of _ false = 0

-- The source has been closed once if the iterator has stopped, and else not; one without a function
-- `return` is not closed.
abbrev pub IsClosed : SourceReturn → Iterator → Type 0
IsClosed source s = s.closings ≡ closings_of source s.stopped

leave-IsClosed :
    (source : SourceReturn) (s : Iterator) → IsClosed source s → IsClosed source (leave source s).0
unfolding leave
leave-IsClosed source s h = ground arith

closings_of-le : (source : SourceReturn) (stopped : Bool) → closings_of source stopped ≤ 1
closings_of-le source stopped = ground arith

module _ {V : Type 0} where
  call-IsClosed :
      (source : SourceReturn) (c : Call V) (s : Iterator)
      → IsClosed source s
      → IsClosed source (call source c s).0
  unfolding call next return_of throw_of resume return_into throw_into
  call-IsClosed source calls_next s h = ground (arith, leave-IsClosed source)
  call-IsClosed source (calls_return v) s h = ground (arith, leave-IsClosed source)
  call-IsClosed source (calls_throw v) s h = ground (arith, leave-IsClosed source)

  calls-IsClosed :
      (source : SourceReturn) (cs : List (Call V)) (s : Iterator)
      → IsClosed source s
      → IsClosed source (calls source cs s).0
  unfolding calls
  calls-IsClosed source [] s h = h
  calls-IsClosed source (c ∷ cs) s h =
      calls-IsClosed source cs (call source c s).0 (call-IsClosed source c s h)

  -- Whatever calls the client makes, in whatever order, the source is closed once at most: once if
  -- the iterator has stopped and the source has a function `return`, and else never.
  pub closings-le :
      (source : SourceReturn) (items : List Item) (cs : List (Call V))
      → let s = (calls source cs (new_iterator items)).0 in
        (s.closings ≤ 1) × (s.closings ≡ closings_of source s.stopped)
  closings-le source items cs =
      let closed = calls-IsClosed source cs (new_iterator items) (ground arith) in
      (
        omega
            (arith, closed, closings_of-le source (calls source cs (new_iterator items)).0.stopped),
        closed,
      )

  -- What an iterator that has stopped replies.
  unfoldable pub reply_stopped : Call V → Reply V
  reply_stopped (calls_throw error) = thrown error
  reply_stopped _ = done none

  call_stopped :
      (source : SourceReturn) (c : Call V) (s : Iterator)
      → s.stopped ≡ true
      → call source c s ≡ (s, reply_stopped c)
  unfolding call next return_of throw_of reply_stopped
  call_stopped source calls_next s h = ground arith
  call_stopped source (calls_return v) s h = ground arith
  call_stopped source (calls_throw v) s h = ground arith

  -- An iterator that has stopped stays as it is: no call reads the source or closes it; `next` and
  -- `return` are done, and `throw` throws what it was given.
  calls_stopped :
      (source : SourceReturn) (cs : List (Call V)) (s : Iterator)
      → s.stopped ≡ true
      → calls source cs s ≡ (s, map reply_stopped cs)
  unfolding calls
  calls_stopped source [] s h = refl
  calls_stopped source (c ∷ cs) s h =
      rw (call_stopped source c s h, calls_stopped source cs s h) refl
