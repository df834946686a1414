-- ===== src/EventStream/Utf8.antt =====
-- `decodeUTF8` of eventstream.js: bytes to a JavaScript string, a list of UTF-16 code units.
-- The index `i` is kept as the bytes from `i` on.
pub mod Scalars
pub mod Points
pub mod Decoded
use ai_api_proxy.Common.Strings.{JsString}
use ai_api_proxy.Common.{
  ℕ, zero, suc, ◌+◌, ◌-◌, ◌*◌, ◌/◌, ◌^◌, List, [], ◌∷◌, ◌++◌, Bytes, Bool, not, ◌&&◌, ◌||◌, bit_and,
  bit_or, ltb, leb, ◌==◌, if◌then◌else◌, length, ok, throws, ◌>>=◌, ◌>>◌, throw_if,
}
use ai_api_proxy.EventStream.Errors.{Decode, invalid_utf8, no_fuel}

-- The payload bits of the first byte, and the number of bytes that follow it.
pub lead : ℕ → Decode (ℕ × ℕ)
lead first =
    if ltb first 0x80
    then ok (first, 0)
    else if leb 0xc2 first && leb first 0xdf
    then ok (bit_and first 0x1f, 1)
    else if leb 0xe0 first && leb first 0xef
    then ok (bit_and first 0x0f, 2)
    else if leb 0xf0 first && leb first 0xf4
    then ok (bit_and first 0x07, 3)
    else throws invalid_utf8

-- The test on a following byte; the flag is `j === 0`.
pub is_bad_next : ℕ → Bool → ℕ → Bool
is_bad_next first at_start next =
    not (bit_and next 0xc0 == 0x80)
    || (at_start
        && (first == 0xe0 && ltb next 0xa0
            || first == 0xed && leb 0xa0 next
            || first == 0xf0 && ltb next 0x90
            || first == 0xf4 && leb 0x90 next))

-- `for (let j = 0; j < count; j++)`, with the rounds that are left. Past the end of the bytes the
-- source reads `undefined`, whose masked value is 0 and is refused.
pub follow : ℕ → ℕ → ℕ → ℕ → Bytes → Decode (ℕ × Bytes)
follow first j zero point rest = ok (point, rest)
follow first j (suc left) point [] = throws invalid_utf8
follow first j (suc left) point (next ∷ rest) =
    if is_bad_next first (j == 0) next
    then throws invalid_utf8
    else follow first (j + 1) left (bit_or (point * 2 ^ 6) (bit_and next 0x3f)) rest

-- The test behind the loop.
pub is_overlong : ℕ → ℕ → Bool
is_overlong count point =
    count == 1 && ltb point 0x80
    || count == 2 && ltb point 0x800
    || count == 3 && ltb point 0x10000
    || ltb 0x10ffff point

-- One round of the outer loop: the code point and the bytes behind it.
unfoldable pub next_point : ℕ → Bytes → Decode (ℕ × Bytes)
unfolding lead follow is_overlong
next_point first rest = do
  (start, count) ← lead first
  throw_if (ltb (length rest) count) invalid_utf8
  (point, rest') ← follow first 0 count start rest
  throw_if (is_overlong count point) invalid_utf8
  ok (point, rest')

-- What a code point adds to `text`.
unfoldable pub units : ℕ → JsString
units point =
    if leb point 0xffff
    then point ∷ []
    else (0xd800 + (point - 0x10000) / 2 ^ 10) ∷ (0xdc00 + bit_and (point - 0x10000) 0x3ff) ∷ []

pub decode_from : ℕ → Bytes → JsString → Decode JsString
decode_from fuel [] text = ok text
decode_from zero (first ∷ rest) text = throws no_fuel
decode_from (suc fuel) (first ∷ rest) text = do
  (point, rest') ← next_point first rest
  decode_from fuel rest' (text ++ units point)

-- Each round takes a byte at least, so there are enough rounds.
unfoldable pub decode_utf8 : Bytes → Decode JsString
unfolding decode_from next_point is_bad_next units
decode_utf8 bytes = decode_from (length bytes) bytes []
