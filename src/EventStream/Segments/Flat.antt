-- ===== src/EventStream/Segments/Flat.antt =====
-- Reads and cuts over segments, and those of the joined bytes.
use ai_api_proxy.Common.{
  ℕ, ◌+◌, ◌*◌, ◌%◌, ◌^◌, ◌>>=◌, ◌-◌, ◌≤◌, min, List, [], ◌∷◌, ◌++◌, Bytes, ltb, leb, ◌==◌,
  if◌then◌else◌, ◌≡◌, sym, ap, ◌∙◌, arith, length, get_or, take, drop, concat, Bool-cases, true,
  false, inl, inr, ok, throws, length-append, length-take, length-drop, take-append_le,
  take-append_ge, drop-append_le, drop-append_ge, take_all, drop_all, get_or-append_lt,
  get_or-append_ge, append-nil, append_assoc, le→ltb, leb→le, take-nil, drop-nil,
}
use ai_api_proxy.EventStream.Errors.{Decode, truncated_frame}
use ai_api_proxy.EventStream.Segments.{
  byte_at, read_u32, copy_parts, copy_range, drop_parts, consume,
}

-- `byteAt` on one array.
unfoldable pub byte_of : Bytes → ℕ → Decode ℕ
byte_of bs offset =
    if ltb offset (length bs) then ok (get_or bs offset 0) else throws truncated_frame

byte_at-byte_of : (parts : List Bytes) (i : ℕ) → byte_at parts i ≡ byte_of (concat parts) i
unfolding byte_at byte_of
byte_at-byte_of [] i = rw (le→ltb i 0 (omega arith))
byte_at-byte_of (p ∷ ps) i = elim (Bool-cases (ltb i (length p))) [
  | inl here ↦ ground (arith, length-append p (concat ps), get_or-append_lt i p (concat ps) 0)
  | inr later ↦ ground (
    arith,
    length-append p (concat ps),
    get_or-append_ge i p (concat ps) 0,
    byte_at-byte_of ps (i - length p),
  )
]

-- `readU32` on one array.
unfoldable pub u32_of : Bytes → ℕ → Decode ℕ
unfolding byte_of
u32_of bs offset = do
  b0 ← byte_of bs offset
  b1 ← byte_of bs (offset + 1)
  b2 ← byte_of bs (offset + 2)
  b3 ← byte_of bs (offset + 3)
  ok ((b0 * 0x1000000 + b1 * 2 ^ 16 + b2 * 2 ^ 8 + b3) % 2 ^ 32)

-- `readU32` over segments reads the joined bytes.
pub read_u32-u32_of : (parts : List Bytes) (i : ℕ) → read_u32 parts i ≡ u32_of (concat parts) i
unfolding read_u32 u32_of
read_u32-u32_of parts i = simp byte_at-byte_of

-- `copyRange` on one array.
unfoldable pub range_of : Bytes → ℕ → ℕ → Decode Bytes
range_of bs offset size =
    if leb size (length (drop offset bs))
    then ok (take size (drop offset bs))
    else throws truncated_frame

-- One round that copies, with `later` for the rounds behind it.
copied :
    (d rest : Bytes) (n size : ℕ) (out : Bytes) (later : Bytes → Bytes)
    → length out ≤ size
    → n ≡ length d
    → ((out' : Bytes) → length out' ≤ size → later out' ≡ out' ++ take (size - length out') rest)
    → (let out' = out ++ take (min n (size - length out)) d in
        if length out' == size then out' else later out')
      ≡ out ++ take (size - length out) (d ++ rest)
copied d rest n size out later h e k = elim (Bool-cases (leb (size - length out) (length d))) [
  | inl fits ↦
      let need = size - length out in
      let count : min n need ≡ need = ground arith in
      let full : (length (out ++ take need d) == size) ≡ true =
        ground (arith, length-append out (take need d), length-take need d) in
      rw (count, full, take-append_le need d rest (ground arith))
  | inr more ↦
      let need = size - length out in
      let count : min n need ≡ n = ground arith in
      let whole : take n d ≡ d = take_all n d (omega arith) in
      let short : (length (out ++ d) == size) ≡ false = ground (arith, length-append out d) in
      let left : size - length (out ++ d) ≡ need - length d = ground (arith, length-append out d) in
      rw (count, whole, short, k (out ++ d) (ground (arith, length-append out d)), left)
        (append_assoc out d (take (need - length d) rest)
          ∙ ap (λ t. out ++ t) (sym (take-append_ge need d rest (ground arith))))
]

copy_parts-take :
    (parts : List Bytes) (offset size : ℕ) (out : Bytes)
    → length out ≤ size
    → copy_parts parts offset size out
      ≡ out ++ take (size - length out) (drop offset (concat parts))
unfolding copy_parts
copy_parts-take [] offset size out h = simp (drop-nil, take-nil, append-nil)
copy_parts-take (p ∷ ps) offset size out h = elim (Bool-cases (leb (length p) offset)) [
  | inl past ↦
      rw (past, drop-append_ge offset p (concat ps) (leb→le _ _ past))
        (copy_parts-take ps (offset - length p) size out h)
  | inr within ↦
      rw (within, drop-append_le offset p (concat ps) (ground arith))
        (copied (drop offset p) (concat ps) (length p - offset) size out (copy_parts ps 0 size) h
          (sym (length-drop offset p)) (λ out' h'. copy_parts-take ps 0 size out' h'))
]

concat-drop_parts :
    (parts : List Bytes) (skip : ℕ) → concat (drop_parts parts skip) ≡ drop skip (concat parts)
unfolding drop_parts
concat-drop_parts [] skip = rw drop-nil
concat-drop_parts (p ∷ ps) skip = elim (Bool-cases (leb (length p) skip)) [
  | inl past ↦
      rw (past, drop-append_ge skip p (concat ps) (leb→le _ _ past))
        (concat-drop_parts ps (skip - length p))
  | inr within ↦
      rw (within, drop-append_le skip p (concat ps) (ground arith), concat-drop_parts ps 0)
]

-- `copyRange` gives the `length` bytes from `offset` on of the joined parts, if there are as many,
-- and else throws.
pub copy_range-range_of :
    (parts : List Bytes) (offset size : ℕ)
    → copy_range parts offset size ≡ range_of (concat parts) offset size
unfolding copy_range range_of
copy_range-range_of parts offset size =
    let d = drop offset (concat parts) in
    let all : size - 0 ≡ size = omega arith in
    rw (copy_parts-take parts offset size [] (omega arith), all)
      (ground (arith, length-take size d))

-- When the bytes of a frame are consumed, what the segments left hold are the bytes behind it.
pub concat-consume :
    (parts : List Bytes) (n : ℕ)
    → concat (consume parts (length (concat parts)) n) ≡ drop n (concat parts)
unfolding consume
concat-consume parts n = elim (Bool-cases (n == length (concat parts))) [
  | inl all ↦ rw all (sym (drop_all n (concat parts) (ground arith)))
  | inr some_left ↦ rw some_left (concat-drop_parts parts n)
]
