-- ===== src/EventStream/Crc.antt =====
-- `crc32` of eventstream.js (CRC-32/IEEE over the first bytes of a list of parts).
-- JavaScript's 32-bit integers are kept as their bit pattern, a number below 2 ^ 32: `>>>` reads
-- the pattern without a sign, and `^` acts on the pattern.
pub mod Flat
pub mod Detects
use ai_api_proxy.Common.{
  ℕ, zero, suc, ◌/◌, List, [], ◌∷◌, Bytes, bit_and, bit_xor, ◌==◌, if◌then◌else◌,
}

abbrev pub polynomial : ℕ
polynomial = 0xedb88320

abbrev pub all_ones : ℕ
all_ones = 0xffffffff

-- `crc = (crc >>> 1) ^ ((crc & 1) ? 0xedb88320 : 0)`
pub crc_bit : ℕ → ℕ
crc_bit crc = bit_xor (crc / 2) (if bit_and crc 1 == 0 then 0 else polynomial)

-- `for (let bit = 0; bit < 8; bit++)`: the rounds that are left
pub crc_bits : ℕ → ℕ → ℕ
crc_bits zero crc = crc
crc_bits (suc rounds) crc = crc_bits rounds (crc_bit crc)

unfoldable pub crc_byte : ℕ → ℕ → ℕ
unfolding crc_bits crc_bit
crc_byte crc byte = crc_bits 8 (bit_xor crc byte)

-- The loop over one part; it ends with the part or with `remaining`.
pub crc_part : Bytes → ℕ → ℕ → ℕ × ℕ
crc_part [] remaining crc = (crc, remaining)
crc_part (byte ∷ part) zero crc = (crc, zero)
crc_part (byte ∷ part) (suc remaining) crc = crc_part part remaining (crc_byte crc byte)

-- The loop over the parts, left when nothing remains.
pub crc_parts : List Bytes → ℕ → ℕ → ℕ
crc_parts [] remaining crc = crc
crc_parts (part ∷ parts) remaining crc =
    let (crc', remaining') = crc_part part remaining crc in
    let more = crc_parts parts remaining' crc' in if remaining' == 0 then crc' else more

unfoldable pub crc32 : List Bytes → ℕ → ℕ
unfolding crc_parts crc_part crc_byte
crc32 parts size = bit_xor (crc_parts parts size all_ones) all_ones
