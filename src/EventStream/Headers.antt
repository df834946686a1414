-- ===== src/EventStream/Headers.antt =====
-- `decodeHeaders` of eventstream.js, with the host's `util.i64be` and `util.u64be`
-- (internal/plugin/runtime.go). `pos` is kept as the bytes from `pos` on, `bytes.subarray(pos)`.
pub mod Wire
pub mod Values
pub mod RoundTrip
pub mod Total
pub mod WireBytes
use ai_api_proxy.Common.Strings.{JsString, same_string}
use ai_api_proxy.Common.{
  ℕ, zero, suc, ◌+◌, ◌-◌, ◌*◌, ◌^◌, List, [], ◌∷◌, ◌++◌, Bytes, Bool, true, false, ◌&&◌, ◌||◌,
  bit_or, ltb, ◌==◌, if◌then◌else◌, length, get_or, take, drop, ok, throws, ◌>>=◌, ◌>>◌, throw_if,
}
use ai_api_proxy.Common.Words.{ℤ, pos, negsuc, signed, big_endian}
use ai_api_proxy.EventStream.Errors.{
  Decode, DecodeError, invalid_name_length, truncated_int8, truncated_int16, truncated_int32,
  truncated_int64, truncated_value_length, invalid_value_length, truncated_timestamp,
  truncated_uuid, unknown_value_type, duplicate_header, no_fuel,
}
use ai_api_proxy.EventStream.Utf8.{decode_utf8}

-- The JavaScript value of a header.
pub data HeaderValue : Type 0 where
  boolean : Bool → HeaderValue
  number : ℤ → HeaderValue
  bigint : ℤ → HeaderValue
  array_buffer : Bytes → HeaderValue
  string : JsString → HeaderValue

-- The object of headers: its own properties in the order of definition. JavaScript enumerates names
-- that are indices before the others.
abbrev pub Headers : Type 0
Headers = List (JsString × HeaderValue)

-- `Object.prototype.hasOwnProperty.call(headers, name)`
unfoldable pub has_own : Headers → JsString → Bool
has_own [] name = false
has_own ((key, value) ∷ headers) name = same_string key name || has_own headers name

-- `readBigEndian64Bytes`, on 8 bytes.
pub read_big_endian_64 : Bytes → Bool → ℤ
read_big_endian_64 view is_signed =
    if is_signed then signed 64 (big_endian view) else pos (big_endian view)

-- `if (pos + size > bytes.length) throw …; value = …; pos += size`
unfoldable pub read_fixed :
    ℕ → DecodeError → (Bytes → HeaderValue) → Bytes → Decode (HeaderValue × Bytes)
read_fixed size error make rest = do
  throw_if (ltb (length rest) size) error
  ok (make (take size rest), drop size rest)

-- `case 6: case 7:`; the flag is `type === 6`
unfoldable pub read_sized : Bool → Bytes → Decode (HeaderValue × Bytes)
read_sized is_binary rest = do
  throw_if (ltb (length rest) 2) truncated_value_length
  let size = bit_or (get_or rest 0 0 * 2 ^ 8) (get_or rest 1 0)
  let rest' = drop 2 rest
  throw_if (size == 0 || ltb 32767 size || ltb (length rest') size) invalid_value_length
  let content = take size rest'
  let text = do s ← decode_utf8 content; ok (string s)
  value ← (if is_binary then ok (array_buffer content) else text)
  ok (value, drop size rest')

-- `switch (type)`
unfoldable pub read_value : ℕ → Bytes → Decode (HeaderValue × Bytes)
unfolding read_big_endian_64
read_value type rest =
    if type == 0
    then ok (boolean false, rest)
    else if type == 1
    then ok (boolean true, rest)
    else if type == 2
    then read_fixed 1 truncated_int8 (λ bs. number (signed 8 (big_endian bs))) rest
    else if type == 3
    then read_fixed 2 truncated_int16 (λ bs. number (signed 16 (big_endian bs))) rest
    else if type == 4
    then read_fixed 4 truncated_int32 (λ bs. number (signed 32 (big_endian bs))) rest
    else if type == 5
    then read_fixed 8 truncated_int64 (λ bs. bigint (read_big_endian_64 bs true)) rest
    else if type == 6 || type == 7
    then read_sized (type == 6) rest
    else if type == 8
    then read_fixed 8 truncated_timestamp (λ bs. bigint (read_big_endian_64 bs false)) rest
    else if type == 9
    then read_fixed 16 truncated_uuid array_buffer rest
    else throws (unknown_value_type type)

-- One round of the loop behind the byte `nameLength`: name, value, and the bytes behind them.
unfoldable pub read_header : ℕ → Bytes → Decode ((JsString × HeaderValue) × Bytes)
read_header name_length rest = do
  throw_if (name_length == 0 || ltb (length rest) (name_length + 1)) invalid_name_length
  name ← decode_utf8 (take name_length rest)
  let rest' = drop name_length rest
  (value, rest'') ← read_value (get_or rest' 0 0) (drop 1 rest')
  ok ((name, value), rest'')

unfoldable pub headers_from : ℕ → Bytes → Headers → Decode Headers
headers_from fuel [] headers = ok headers
headers_from zero (name_length ∷ rest) headers = throws no_fuel
headers_from (suc fuel) (name_length ∷ rest) headers = do
  ((name, value), rest') ← read_header name_length rest
  throw_if (has_own headers name) (duplicate_header name)
  headers_from fuel rest' (headers ++ (name, value) ∷ [])

-- Each round takes a byte at least, so there are enough rounds.
unfoldable pub decode_headers : Bytes → Decode Headers
unfolding headers_from read_header read_value read_fixed read_sized has_own same_string
decode_headers bytes = headers_from (length bytes) bytes []
