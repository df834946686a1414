-- ===== src/EventStream/Utf8/Decoded.antt =====
-- `decodeUTF8` on whole byte strings, and the encodings of lists of scalar values.
use ai_api_proxy.Common.Strings.{JsString}
use ai_api_proxy.Common.{
  ℕ, zero, suc, ◌-◌, ◌≤◌, ◌<◌, inl, inr, List, [], ◌∷◌, ◌++◌, Bytes, IsByte, All, ThrowsOnly-elim,
  All-append_right, cons_of_length, subst, length, length-append, ok, throws, ◌≡◌, ◌↔◌, refl, ap,
  ◌∙◌, arith, append-nil, append_assoc, >>=-eq-ok, Outcome-cases,
}
use ai_api_proxy.Common.Bits.{mask_3ff}
use ai_api_proxy.EventStream.Errors.{DecodeError, invalid_utf8}
use ai_api_proxy.EventStream.Utf8.{next_point, units, decode_from, decode_utf8}
use ai_api_proxy.EventStream.Utf8.Points.{next_point-utf8, next_point_sound, next_point-ThrowsOnly}
use ai_api_proxy.EventStream.Utf8.Scalars.{IsScalar, utf8, utf16, utf8_all, utf16_all}

units-utf16 : (c : ℕ) → IsScalar c → units c ≡ utf16 c
unfolding units utf16
units-utf16 c h = ground (arith, mask_3ff (c - 0x10000))

utf8-pos : (c : ℕ) → 0 < length (utf8 c)
unfolding utf8
utf8-pos c = ground arith

-- One round of the loop on the encoding of a scalar value.
decode_from-utf8 :
    (c fuel : ℕ) (rest : Bytes) (text : JsString)
    → IsScalar c
    → decode_from (suc fuel) (utf8 c ++ rest) text ≡ decode_from fuel rest (text ++ utf16 c)
unfolding decode_from
decode_from-utf8 c fuel rest text h =
    let (first, more, e) = cons_of_length (utf8 c) (utf8-pos c) in
    rw (e, next_point-utf8 c first more rest h e, units-utf16 c h)

decode_from-utf8_all :
    (cs : List ℕ) (fuel : ℕ) (text : JsString)
    → All IsScalar cs
    → length (utf8_all cs) ≤ fuel
    → decode_from fuel (utf8_all cs) text ≡ ok (text ++ utf16_all cs)
unfolding utf8_all utf16_all
decode_from-utf8_all [] fuel text h f = rw append-nil (unfold decode_from in refl)
decode_from-utf8_all (c ∷ cs) zero text h f =
    absurd (omega (arith, utf8-pos c, length-append (utf8 c) (utf8_all cs)))
decode_from-utf8_all (c ∷ cs) (suc fuel) text h f =
    let shorter : length (utf8_all cs) ≤ fuel =
      omega (arith, utf8-pos c, length-append (utf8 c) (utf8_all cs)) in
    decode_from-utf8 c fuel (utf8_all cs) text h.0
    ∙ decode_from-utf8_all cs fuel (text ++ utf16 c) h.1 shorter
    ∙ ap ok (append_assoc text (utf16 c) (utf16_all cs))

-- One round that succeeds: what it read, and what is left.
round_sound :
    (b : ℕ) (bs : Bytes) {c : ℕ} {rest : Bytes}
    → All IsByte (b ∷ bs)
    → next_point b bs ≡ ok (c, rest)
    → IsScalar c × (b ∷ bs ≡ utf8 c ++ rest) × All IsByte rest × (length rest ≤ length bs)
round_sound b bs {c} {rest} h read =
    let (hc, split) = next_point_sound b bs h.1 read in
    let left = All-append_right IsByte (utf8 c) rest (subst (All IsByte) split h) in
    (hc, split, left, omega (arith, utf8-pos c, length-append (utf8 c) rest, ap length split))

decode_from_sound :
    (fuel : ℕ) (bs : Bytes) (text : JsString) {out : JsString}
    → All IsByte bs
    → decode_from fuel bs text ≡ ok out
    → (cs : List ℕ) × All IsScalar cs × (bs ≡ utf8_all cs) × (out ≡ text ++ utf16_all cs)
unfolding decode_from utf8_all utf16_all
decode_from_sound fuel [] text h e = ([], tt, refl, rw append-nil (ground arith))
decode_from_sound zero (b ∷ bs) text h e = cc
decode_from_sound (suc fuel) (b ∷ bs) text h e =
    let ((c, rest), read, later) = >>=-eq-ok (next_point b bs) _ e in
    let (hc, split, left, _) = round_sound b bs h read in
    let (cs, hcs, same, out) = decode_from_sound fuel rest (text ++ units c) left later in
    (
      c ∷ cs,
      (hc, hcs),
      split ∙ ap (λ t. utf8 c ++ t) same,
      out ∙ rw (append_assoc text (units c) (utf16_all cs), units-utf16 c hc),
    )

decode_from-error :
    (fuel : ℕ) (bs : Bytes) (text : JsString) {err : DecodeError}
    → All IsByte bs
    → length bs ≤ fuel
    → decode_from fuel bs text ≡ throws err
    → err ≡ invalid_utf8
unfolding decode_from
decode_from-error fuel [] text h f e = cc
decode_from-error zero (b ∷ bs) text h f e = absurd (omega arith)
decode_from-error (suc fuel) (b ∷ bs) text h f e = elim (Outcome-cases (next_point b bs)) [
  | inl ((c, rest), read) ↦
      let (_, _, left, shorter) = round_sound b bs h read in
      decode_from-error fuel rest (text ++ units c) left (omega arith) (rw read at e)
  | inr (err', failed) ↦ ground (
    arith,
    ThrowsOnly-elim (λ (x : DecodeError). x ≡ invalid_utf8) _ (next_point-ThrowsOnly b bs) failed,
  )
]

pub decode_utf8-utf8_all :
    (cs : List ℕ) → All IsScalar cs → decode_utf8 (utf8_all cs) ≡ ok (utf16_all cs)
unfolding decode_utf8
decode_utf8-utf8_all cs h = decode_from-utf8_all cs (length (utf8_all cs)) [] h (omega arith)

-- `decodeUTF8` accepts exactly the UTF-8 encodings (RFC 3629) of lists of Unicode scalar values,
-- so no overlong form, surrogate or value above 0x10ffff, and returns their UTF-16 form.
pub decode_utf8_iff :
    (bs : Bytes) (text : JsString)
    → All IsByte bs
    → (decode_utf8 bs ≡ ok text)
      ↔ ((cs : List ℕ) × All IsScalar cs × (bs ≡ utf8_all cs) × (text ≡ utf16_all cs))
unfolding decode_utf8
decode_utf8_iff bs text h = (
  λ e. decode_from_sound (length bs) bs [] h e,
  λ (cs, hcs, split, out). rw (split, out) (unfold decode_utf8 in decode_utf8-utf8_all cs hcs),
)

-- On any bytes, the only error that `decodeUTF8` throws is "invalid UTF-8".
pub decode_utf8-error :
    (bs : Bytes) {err : DecodeError}
    → All IsByte bs
    → decode_utf8 bs ≡ throws err
    → err ≡ invalid_utf8
unfolding decode_utf8
decode_utf8-error bs h e = decode_from-error (length bs) bs [] h (omega arith) e
