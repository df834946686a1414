-- ===== src/EventStream/Headers/Total.antt =====
-- The rounds of the loop of `decodeHeaders`.
use ai_api_proxy.Common.{
  Outcome-cases, inl, inr, ◌>>◌, bit_or, ◌*◌, ◌^◌, ℕ, zero, suc, ◌≤◌, ◌≡◌, ◌≢◌, refl, arith, [],
  ◌∷◌, ◌++◌, Bytes, IsByte, All, All-drop, All-take, Bool, true, false, length, length-drop, take,
  drop, get_or, ok, throws, ◌>>=◌, ThrowsOnly, ThrowsOnly->>=, ThrowsOnly-throw_if, ThrowsOnly-elim,
  ThrowsOnly-of, if◌then◌else◌, throw_if, ◌==◌, ◌||◌,
}
use ai_api_proxy.Common.Words.{signed, big_endian}
use ai_api_proxy.EventStream.Errors.{
  Decode, DecodeError, truncated_value_length, invalid_value_length, invalid_name_length,
  truncated_int8, truncated_int16, truncated_int32, truncated_int64, truncated_timestamp,
  truncated_uuid, unknown_value_type, duplicate_header, no_fuel,
}
use ai_api_proxy.EventStream.Headers.{
  HeaderValue, string, number, boolean, bigint, read_big_endian_64, array_buffer, Headers, has_own,
  read_fixed, read_sized, read_value, read_header, headers_from, decode_headers,
}
use ai_api_proxy.EventStream.Utf8.{decode_utf8}
use ai_api_proxy.EventStream.Utf8.Decoded.{decode_utf8-error}

-- A read from bytes `rest` leaves bytes, no more than there were, and never runs out of fuel.
data Consumes {ℓ} {A : Type ℓ} (rest : Bytes) : Decode (A × Bytes) → Type ℓ where
  reads :
      (a : A) (left : Bytes)
      → length left ≤ length rest
      → All IsByte left
      → Consumes rest (ok (a, left))
  fails : (e : DecodeError) → e ≢ no_fuel → Consumes rest (throws e)

abbrev IsReal : DecodeError → Type 0
IsReal e = e ≢ no_fuel

module _ {ℓ} {A : Type ℓ} (rest : Bytes) where
  Consumes-if :
      (b : Bool) (m n : Decode (A × Bytes))
      → Consumes rest m
      → Consumes rest n
      → Consumes rest (if b then m else n)
  Consumes-if true m n h k = h
  Consumes-if false m n h k = k

  Consumes-throw_if :
      (b : Bool) (e : DecodeError) (m : Decode (A × Bytes))
      → e ≢ no_fuel
      → Consumes rest m
      → Consumes rest (throw_if b e >> m)
  Consumes-throw_if true e m real h = fails e real
  Consumes-throw_if false e m real h = h

  Consumes-ok :
      (m : Decode A) (left : Bytes)
      → ThrowsOnly IsReal m
      → length left ≤ length rest
      → All IsByte left
      → Consumes rest (m >>= λ a. ok (a, left))
  Consumes-ok (ok a) left real short bytes = reads a left short bytes
  Consumes-ok (throws e) left real short bytes = fails e real

  Consumes-left :
      {m : Decode (A × Bytes)} {a : A} {left : Bytes}
      → Consumes rest m
      → m ≡ ok (a, left)
      → (length left ≤ length rest) × All IsByte left
  Consumes-left {left = l} (reads a left short bytes) e =
      let same : left ≡ l = cc in rw (← same) (short, bytes)
  Consumes-left (fails x real) e = cc

  Consumes-error :
      {m : Decode (A × Bytes)} {e : DecodeError} → Consumes rest m → m ≡ throws e → e ≢ no_fuel
  Consumes-error (reads a left short bytes) e = cc
  Consumes-error (fails x real) e = ground arith

module _ {ℓ κ} {A : Type ℓ} {B : Type κ} (rest : Bytes) where
  Consumes->>= :
      (m : Decode B) (f : B → Decode (A × Bytes))
      → ThrowsOnly IsReal m
      → ((b : B) → Consumes rest (f b))
      → Consumes rest (m >>= f)
  Consumes->>= (ok b) f real h = h b
  Consumes->>= (throws e) f real h = fails e real

  -- A read from a later point, whose value is wrapped.
  Consumes-later :
      (later : Bytes) {m : Decode (B × Bytes)} (f : B → A)
      → length later ≤ length rest
      → Consumes later m
      → Consumes rest (m >>= λ (b, left). ok (f b, left))
  Consumes-later later f short (reads b left shorter bytes) = reads (f b) left (omega arith) bytes
  Consumes-later later f short (fails e real) = fails e real

decode_utf8-IsReal : (bs : Bytes) → All IsByte bs → ThrowsOnly IsReal (decode_utf8 bs)
decode_utf8-IsReal bs h =
    ThrowsOnly-of IsReal (decode_utf8 bs)
      λ e failed. rw (decode_utf8-error bs h failed) (ground arith)

text-IsReal :
    (bs : Bytes) → All IsByte bs → ThrowsOnly IsReal (do s ← decode_utf8 bs; ok (string s))
text-IsReal bs h =
    ThrowsOnly->>= IsReal (decode_utf8 bs) (λ s. ok (string s)) (decode_utf8-IsReal bs h) λ s _. tt

read_fixed-Consumes :
    (size : ℕ) (error : DecodeError) (make : Bytes → HeaderValue) (rest : Bytes)
    → error ≢ no_fuel
    → All IsByte rest
    → Consumes rest (read_fixed size error make rest)
unfolding read_fixed
read_fixed-Consumes size error make rest real h = Consumes-throw_if rest _ _ _ real (
    Consumes-ok rest (ok (make (take size rest))) (drop size rest) tt
      (omega (arith, length-drop size rest)) (All-drop IsByte size rest h))

sized_value-IsReal :
    (is_binary : Bool) (bs : Bytes)
    → All IsByte bs
    → ThrowsOnly IsReal (
        let text = (do s ← decode_utf8 bs; ok (string s)) in
        if is_binary then ok (array_buffer bs) else text)
sized_value-IsReal true bs h = tt
sized_value-IsReal false bs h = text-IsReal bs h

read_sized-Consumes :
    (is_binary : Bool) (rest : Bytes) → All IsByte rest → Consumes rest (read_sized is_binary rest)
unfolding read_sized
read_sized-Consumes is_binary rest h =
    let size = bit_or (get_or rest 0 0 * 2 ^ 8) (get_or rest 1 0) in
    let rest' = drop 2 rest in
    let h' = All-drop IsByte 2 rest h in
    Consumes-throw_if rest _ truncated_value_length _ (ground arith) (
      Consumes-throw_if rest _ invalid_value_length _ (ground arith) (
        Consumes-ok rest _ (drop size rest')
          (sized_value-IsReal is_binary (take size rest') (All-take IsByte size rest' h'))
          (omega (arith, length-drop size rest', length-drop 2 rest))
          (All-drop IsByte size rest' h')))

read_value-Consumes :
    (type : ℕ) (rest : Bytes) → All IsByte rest → Consumes rest (read_value type rest)
unfolding read_value
read_value-Consumes type rest h =
    Consumes-if rest (type == 0) _ _ (reads (boolean false) rest (omega arith) h) (
      Consumes-if rest (type == 1) _ _ (reads (boolean true) rest (omega arith) h) (
        Consumes-if rest (type == 2) _ _
          (read_fixed-Consumes 1 truncated_int8 (λ bs. number (signed 8 (big_endian bs))) rest
            (ground arith) h)
          (Consumes-if rest (type == 3) _ _
            (read_fixed-Consumes 2 truncated_int16 (λ bs. number (signed 16 (big_endian bs))) rest
              (ground arith) h)
            (Consumes-if rest (type == 4) _ _
              (read_fixed-Consumes 4 truncated_int32 (λ bs. number (signed 32 (big_endian bs))) rest
                (ground arith) h)
              (Consumes-if rest (type == 5) _ _
                (read_fixed-Consumes 8 truncated_int64 (λ bs. bigint (read_big_endian_64 bs true))
                  rest (ground arith) h)
                (Consumes-if rest (type == 6 || type == 7) _ _
                  (read_sized-Consumes (type == 6) rest h)
                  (Consumes-if rest (type == 8) _ _
                    (read_fixed-Consumes 8 truncated_timestamp
                      (λ bs. bigint (read_big_endian_64 bs false)) rest (ground arith) h)
                    (Consumes-if rest (type == 9) _ _
                      (read_fixed-Consumes 16 truncated_uuid array_buffer rest (ground arith) h)
                      (fails (unknown_value_type type) (ground arith))))))))))

read_header-Consumes :
    (name_length : ℕ) (rest : Bytes)
    → All IsByte rest
    → Consumes rest (read_header name_length rest)
unfolding read_header
read_header-Consumes n rest h =
    let rest' = drop n rest in
    let h' = All-drop IsByte 1 rest' (All-drop IsByte n rest h) in
    Consumes-throw_if rest _ invalid_name_length _ (ground arith) (
      Consumes->>= rest (decode_utf8 (take n rest)) _
        (decode_utf8-IsReal (take n rest) (All-take IsByte n rest h))
        λ name.
          Consumes-later rest (drop 1 rest') (λ value. (name, value))
            (omega (arith, length-drop n rest, length-drop 1 rest'))
            (read_value-Consumes (get_or rest' 0 0) (drop 1 rest') h'))

headers_from-IsReal :
    (fuel : ℕ) (bs : Bytes) (seen : Headers)
    → All IsByte bs
    → length bs ≤ fuel
    → ThrowsOnly IsReal (headers_from fuel bs seen)
unfolding headers_from
headers_from-IsReal fuel [] seen h n = tt
headers_from-IsReal zero (b ∷ bs) seen h n = absurd (omega arith)
headers_from-IsReal (suc fuel) (b ∷ bs) seen h n =
    let consumed = read_header-Consumes b bs h.1 in
    elim (Outcome-cases (read_header b bs)) [
      | inl (((name, value), rest), read) ↦
          let (short, bytes) = Consumes-left bs consumed read in
          rw read (
            ThrowsOnly->>= IsReal (throw_if (has_own seen name) (duplicate_header name)) _
              (ThrowsOnly-throw_if IsReal _ _ (ground arith))
              λ _ _. headers_from-IsReal fuel rest (seen ++ (name, value) ∷ []) bytes (omega arith))
      | inr (e, failed) ↦ rw failed (Consumes-error bs consumed failed)
    ]

-- `decodeHeaders` ends on all bytes: the rounds of the model, one for each byte, are enough.
pub decode_headers-ne-no_fuel : (bs : Bytes) → All IsByte bs → decode_headers bs ≢ throws no_fuel
unfolding decode_headers
decode_headers-ne-no_fuel bs h e =
    ThrowsOnly-elim IsReal (headers_from (length bs) bs [])
      (headers_from-IsReal (length bs) bs [] h (omega arith)) e refl
