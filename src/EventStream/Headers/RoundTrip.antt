-- ===== src/EventStream/Headers/RoundTrip.antt =====
-- `decodeHeaders` on encoded header blocks.
use ai_api_proxy.Common.Strings.{JsString, same_string_iff}
use ai_api_proxy.Common.{
  ℕ, zero, suc, ◌≤◌, ◌<◌, ◌≡◌, ◌≢◌, refl, ap, ◌∙◌, arith, List, [], ◌∷◌, ◌++◌, map, Bytes, All,
  true, false, ◌||◌, length, length-append, ok, throws, append-nil, append_assoc, if◌then◌else◌,
}
use ai_api_proxy.EventStream.Errors.{duplicate_header}
use ai_api_proxy.EventStream.Headers.{Headers, has_own, headers_from, decode_headers}
use ai_api_proxy.EventStream.Headers.Values.{read_header-encode_header}
use ai_api_proxy.EventStream.Headers.Wire.{
  WireHeader, IsWireHeader, encode_header, encode_headers, decoded,
}
use ai_api_proxy.EventStream.Utf8.Scalars.{utf16_all}

has_own-append :
    (xs ys : Headers) (name : JsString)
    → has_own (xs ++ ys) name ≡ (has_own xs name || has_own ys name)
unfolding has_own
has_own-append [] ys name = refl
has_own-append ((k, v) ∷ xs) ys name = ground (arith, has_own-append xs ys name)

abbrev name_of : WireHeader → JsString
name_of h = utf16_all h.name

-- No header of the list has the name of one of `seen`.
abbrev AreFresh : Headers → List WireHeader → Type 0
AreFresh seen hs = All (λ h. has_own seen (name_of h) ≡ false) hs

abbrev pub HasDistinctNames : List WireHeader → Type 0
HasDistinctNames [] = Unit
HasDistinctNames (h ∷ hs) = All (λ k. utf16_all k.name ≢ utf16_all h.name) hs × HasDistinctNames hs

AreFresh-append :
    (seen : Headers) (h : WireHeader) (hs : List WireHeader)
    → AreFresh seen hs
    → All (λ k. name_of k ≢ name_of h) hs
    → AreFresh (seen ++ decoded h ∷ []) hs
unfolding has_own
AreFresh-append seen h [] f d = tt
AreFresh-append seen h (k ∷ hs) f d = (
  ground (
    arith,
    has_own-append seen (decoded h ∷ []) (name_of k),
    same_string_iff (name_of h) (name_of k),
    f.0,
    d.0,
  ),
  AreFresh-append seen h hs f.1 d.1,
)

AreFresh-nil : (hs : List WireHeader) → AreFresh [] hs
unfolding has_own
AreFresh-nil [] = tt
AreFresh-nil (h ∷ hs) = (refl, AreFresh-nil hs)

-- One round on an encoded header.
headers_from-encode_header :
    (fuel : ℕ) (h : WireHeader) (rest : Bytes) (seen : Headers)
    → IsWireHeader h
    → headers_from (suc fuel) (encode_header h ++ rest) seen ≡ (
        if has_own seen (name_of h)
        then throws (duplicate_header (name_of h))
        else headers_from fuel rest (seen ++ decoded h ∷ []))
unfolding headers_from encode_header
headers_from-encode_header fuel h rest seen k =
    rw (read_header-encode_header h rest k) (ground arith)

length-encode_header : (h : WireHeader) → 0 < length (encode_header h)
unfolding encode_header
length-encode_header h = omega arith

headers_from-encode_headers :
    (hs : List WireHeader) (fuel : ℕ) (rest : Bytes) (seen : Headers)
    → All IsWireHeader hs
    → HasDistinctNames hs
    → AreFresh seen hs
    → length (encode_headers hs ++ rest) ≤ fuel
    → (fuel' : ℕ) × (headers_from fuel (encode_headers hs ++ rest) seen
        ≡ headers_from fuel' rest (seen ++ map decoded hs))
      × (length rest ≤ fuel')
unfolding encode_headers
headers_from-encode_headers [] fuel rest seen w d f n = (fuel, rw append-nil, n)
headers_from-encode_headers (h ∷ hs) zero rest seen w d f n = absurd (
    omega (
      arith,
      length-encode_header h,
      length-append (encode_header h) (encode_headers hs),
      length-append (encode_header h ++ encode_headers hs) rest,
    ))
headers_from-encode_headers (h ∷ hs) (suc fuel) rest seen w d f n =
    let tail = encode_headers hs ++ rest in
    let whole = append_assoc (encode_header h) (encode_headers hs) rest in
    let enough : length tail ≤ fuel =
      omega
        (arith, length-encode_header h, length-append (encode_header h) tail, ap length whole) in
    let (fuel', e, m) =
      headers_from-encode_headers hs fuel rest (seen ++ decoded h ∷ []) w.1 d.1
        (AreFresh-append seen h hs f.1 d.0) enough in
    (
      fuel',
      ap (λ t. headers_from (suc fuel) t seen) whole
          ∙ headers_from-encode_header fuel h tail seen w.0
          ∙ rw f.0 (
              e
              ∙ ap (headers_from fuel' rest) (append_assoc seen (decoded h ∷ []) (map decoded hs))),
      m,
    )

decode_headers_lem : (bs : Bytes) → decode_headers bs ≡ headers_from (length bs) bs []
unfolding decode_headers
decode_headers_lem bs = refl

-- Every block of well-formed headers with distinct names is read back, each value as the JavaScript
-- value that it means, in the order of the block.
pub decode_headers-encode_headers :
    (hs : List WireHeader)
    → All IsWireHeader hs
    → HasDistinctNames hs
    → decode_headers (encode_headers hs) ≡ ok (map decoded hs)
decode_headers-encode_headers hs w d =
    let block = encode_headers hs in
    let plain : length (block ++ []) ≤ length block = omega (arith, length-append block []) in
    let (fuel', e, _) =
      headers_from-encode_headers hs (length block) [] [] w d (AreFresh-nil hs) plain in
    unfold decode_headers in rw append-nil at e

headers_from-duplicate :
    (fuel : ℕ) (h : WireHeader) (more : List WireHeader) (seen : Headers)
    → IsWireHeader h
    → has_own seen (name_of h) ≡ true
    → length (encode_headers (h ∷ more)) ≤ fuel
    → headers_from fuel (encode_headers (h ∷ more)) seen ≡ throws (duplicate_header (name_of h))
unfolding encode_headers
headers_from-duplicate zero h more seen k old n =
    absurd
      (omega (arith, length-encode_header h, length-append (encode_header h) (encode_headers more)))
headers_from-duplicate (suc fuel) h more seen k old n =
    headers_from-encode_header fuel h (encode_headers more) seen k ∙ rw old

-- Behind well-formed headers of distinct names, a well-formed header that repeats one of their
-- names makes the block refused, under that name.
pub decode_headers_duplicate :
    (hs more : List WireHeader) (h : WireHeader)
    → All IsWireHeader hs
    → HasDistinctNames hs
    → IsWireHeader h
    → has_own (map decoded hs) (utf16_all h.name) ≡ true
    → decode_headers (encode_headers hs ++ encode_headers (h ∷ more))
      ≡ throws (duplicate_header (utf16_all h.name))
decode_headers_duplicate hs more h w d k old =
    let rest = encode_headers (h ∷ more) in
    let block = encode_headers hs ++ rest in
    let (fuel', e, n) =
      headers_from-encode_headers hs (length block) rest [] w d (AreFresh-nil hs) (omega arith) in
    decode_headers_lem block ∙ e ∙ headers_from-duplicate fuel' h more (map decoded hs) k old n
