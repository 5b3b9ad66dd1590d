-- ===== src/Keys/Stoull.antt =====
-- `std::stoull(s, 0, 16)` of the standard library, as `DecodePrimaryKey` calls it.
use identt.Prelude.{
  ℕ, ◌+◌, ◌-◌, ◌*◌, ◌%◌, ◌^◌, Bytes, [], ◌∷◌, none, some, Bool, ◌&&◌, ◌||◌, ltb, leb, ◌==◌,
  if◌then◌else◌,
}
use identt.Exception.{Result, ok, err, invalid_argument, out_of_range}
use identt.Keys.Hex.{hex_value}

-- `isspace` of the C locale.
unfoldable pub is_space : ℕ → Bool
is_space c = c == 32 || leb 9 c && leb c 13

unfoldable pub skip_space : Bytes → Bytes
unfolding is_space
skip_space [] = []
skip_space (c ∷ s) = let rest = skip_space s in if is_space c then rest else c ∷ s

-- The digits that a text begins with, read onto `acc`.
unfoldable pub read_digits : ℕ → Bytes → ℕ
unfolding hex_value
read_digits acc [] = acc
read_digits acc (c ∷ s) = elim (hex_value c) [ none ↦ acc | some d ↦ read_digits (acc * 16 + d) s ]

-- An optional "0x" is skipped if a digit follows it.
unfoldable pub skip_prefix : Bytes → Bytes
unfolding hex_value
skip_prefix (a ∷ b ∷ c ∷ s) =
    if a == 48 && (b == 120 || b == 88)
    then elim (hex_value c) [ none ↦ a ∷ b ∷ c ∷ s | some _ ↦ c ∷ s ]
    else a ∷ b ∷ c ∷ s
skip_prefix s = s

-- No conversion is an invalid argument, more than 64 bits are out of range.
unfoldable pub magnitude : Bytes → Result ℕ
unfolding read_digits hex_value
magnitude [] = err invalid_argument
magnitude (c ∷ s) = elim (hex_value c) [
  | none ↦ err invalid_argument
  | some _ ↦ let n = read_digits 0 (c ∷ s) in if ltb n (2 ^ 64) then ok n else err out_of_range
]

-- A minus sign negates modulo 2^64.
unfoldable pub negated : Result ℕ → Result ℕ
negated (ok n) = ok ((2 ^ 64 - n) % 2 ^ 64)
negated (err e) = err e

unfoldable pub signed : Bytes → Result ℕ
unfolding magnitude negated skip_prefix
signed [] = err invalid_argument
signed (c ∷ s) =
    if c == 45
    then negated (magnitude (skip_prefix s))
    else if c == 43
    then magnitude (skip_prefix s)
    else magnitude (skip_prefix (c ∷ s))

unfoldable pub stoull : Bytes → Result ℕ
unfolding signed skip_space
stoull s = signed (skip_space s)
