-- ===== src/EventStream/Crc/Flat.antt =====
-- `crc32` over segments, and a checksum of one byte string.
use ai_api_proxy.Common.{
  ℕ, zero, suc, ◌-◌, List, [], ◌∷◌, ◌++◌, Bytes, bit_xor, ◌==◌, ◌≡◌, refl, sym, ap, arith, length,
  take, concat, Bool-cases, inl, inr, take-append_le, take-append_ge, take-nil, take_all,
}
use ai_api_proxy.EventStream.Crc.{all_ones, crc_byte, crc_part, crc_parts, crc32}

-- The checksum of one run of bytes.
unfoldable pub crc_run : ℕ → Bytes → ℕ
crc_run crc [] = crc
crc_run crc (b ∷ bs) = crc_run (crc_byte crc b) bs

unfoldable pub checksum : Bytes → ℕ
unfolding crc_run
checksum bs = bit_xor (crc_run all_ones bs) all_ones

pub crc_run-append :
    (crc : ℕ) (xs ys : Bytes) → crc_run crc (xs ++ ys) ≡ crc_run (crc_run crc xs) ys
unfolding crc_run
crc_run-append crc [] ys = refl
crc_run-append crc (x ∷ xs) ys = crc_run-append (crc_byte crc x) xs ys

crc_part_lem :
    (part : Bytes) (n crc : ℕ) → crc_part part n crc ≡ (crc_run crc (take n part), n - length part)
unfolding crc_part crc_run
crc_part_lem [] n crc = rw (take-nil n) (ground arith)
crc_part_lem (b ∷ part) zero crc = ground arith
crc_part_lem (b ∷ part) (suc n) crc = ground (arith, crc_part_lem part n (crc_byte crc b))

crc_parts-crc_run :
    (parts : List Bytes) (n crc : ℕ) → crc_parts parts n crc ≡ crc_run crc (take n (concat parts))
unfolding crc_parts
crc_parts-crc_run [] n crc = rw (take-nil n) (unfold crc_run in refl)
crc_parts-crc_run (p ∷ ps) n crc =
    rw (crc_part_lem p n crc) (elim (Bool-cases (n - length p == 0)) [
      | inl done ↦ rw done (ap (crc_run crc) (sym (take-append_le n p (concat ps) (ground arith))))
      | inr more ↦
          rw
            (
              more,
              take_all n p (ground arith),
              take-append_ge n p (concat ps) (ground arith),
              crc_run-append crc p (take (n - length p) (concat ps)),
            )
            (crc_parts-crc_run ps (n - length p) (crc_run crc p))
    ])

-- The checksum over a list of parts is that of the bytes in front of the cut, however the bytes
-- are spread over the parts.
pub crc32-checksum : (parts : List Bytes) (n : ℕ) → crc32 parts n ≡ checksum (take n (concat parts))
unfolding crc32 checksum
crc32-checksum parts n = ap (λ c. bit_xor c all_ones) (crc_parts-crc_run parts n all_ones)
