-- ===== src/EventStream/Utf8/Scalars.antt =====
-- Unicode's own description, with no decoder in sight: the scalar values, their UTF-8 form (RFC
-- 3629) and their UTF-16 form.
use ai_api_proxy.Common.{
  ℕ, ◌+◌, ◌-◌, ◌/◌, ◌%◌, ◌≤◌, ◌<◌, ◌⊎◌, List, [], ◌∷◌, ◌++◌, Bytes, ltb, if◌then◌else◌,
}

abbrev pub IsScalar : ℕ → Type 0
IsScalar c = (c < 0xd800) ⊎ ((0xe000 ≤ c) × (c < 0x110000))

unfoldable pub utf8 : ℕ → Bytes
utf8 c =
    if ltb c 0x80
    then c ∷ []
    else if ltb c 0x800
    then (0xc0 + c / 64) ∷ (0x80 + c % 64) ∷ []
    else if ltb c 0x10000
    then (0xe0 + c / 4096) ∷ (0x80 + c / 64 % 64) ∷ (0x80 + c % 64) ∷ []
    else (0xf0 + c / 262144) ∷ (0x80 + c / 4096 % 64) ∷ (0x80 + c / 64 % 64) ∷ (0x80 + c % 64) ∷ []

unfoldable pub utf16 : ℕ → List ℕ
utf16 c =
    if ltb c 0x10000
    then c ∷ []
    else (0xd800 + (c - 0x10000) / 1024) ∷ (0xdc00 + (c - 0x10000) % 1024) ∷ []

unfoldable pub utf8_all : List ℕ → Bytes
utf8_all [] = []
utf8_all (c ∷ cs) = utf8 c ++ utf8_all cs

unfoldable pub utf16_all : List ℕ → List ℕ
utf16_all [] = []
utf16_all (c ∷ cs) = utf16 c ++ utf16_all cs
