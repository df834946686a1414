-- ===== src/EventStream/Segments.antt =====
-- `byteAt`, `readU32`, `copyRange` and the loop of `decode` that drops a frame: reads and cuts over
-- a list of segments that is never joined.
pub mod Flat
use ai_api_proxy.Common.{
  ℕ, ◌+◌, ◌-◌, ◌*◌, ◌%◌, ◌^◌, List, [], ◌∷◌, ◌++◌, Bytes, min, ltb, leb, ◌==◌, if◌then◌else◌,
  length, get_or, take, drop, ok, throws, ◌>>=◌,
}
use ai_api_proxy.EventStream.Errors.{Decode, truncated_frame}

pub byte_at : List Bytes → ℕ → Decode ℕ
byte_at [] offset = throws truncated_frame
byte_at (part ∷ parts) offset =
    if ltb offset (length part)
    then ok (get_or part offset 0)
    else byte_at parts (offset - length part)

-- `<<` and `+` on bytes, then `>>> 0`: the sum modulo 2 ^ 32.
unfoldable pub read_u32 : List Bytes → ℕ → Decode ℕ
unfolding byte_at
read_u32 parts offset = do
  b0 ← byte_at parts offset
  b1 ← byte_at parts (offset + 1)
  b2 ← byte_at parts (offset + 2)
  b3 ← byte_at parts (offset + 3)
  ok ((b0 * 0x1000000 + b1 * 2 ^ 16 + b2 * 2 ^ 8 + b3) % 2 ^ 32)

-- The loop of `copyRange`. `out` is the array up to `target`, so `target` is its length.
pub copy_parts : List Bytes → ℕ → ℕ → Bytes → Bytes
copy_parts [] offset size out = out
copy_parts (part ∷ parts) offset size out =
    let skipped = copy_parts parts (offset - length part) size out in
    let count = min (length part - offset) (size - length out) in
    let out' = out ++ take count (drop offset part) in
    let more = copy_parts parts 0 size out' in
    if leb (length part) offset then skipped else if length out' == size then out' else more

unfoldable pub copy_range : List Bytes → ℕ → ℕ → Decode Bytes
unfolding copy_parts
copy_range parts offset size =
    let out = copy_parts parts offset size [] in
    if length out == size then ok out else throws truncated_frame

-- The loop that builds `rest`: `skip` bytes are dropped from the front.
pub drop_parts : List Bytes → ℕ → List Bytes
drop_parts [] skip = []
drop_parts (part ∷ parts) skip =
    let skipped = drop_parts parts (skip - length part) in
    let kept = drop skip part ∷ drop_parts parts 0 in
    if leb (length part) skip then skipped else kept

-- `if (consumed === available) segments = []; else …`
unfoldable pub consume : List Bytes → ℕ → ℕ → List Bytes
unfolding drop_parts
consume parts available consumed = if consumed == available then [] else drop_parts parts consumed
