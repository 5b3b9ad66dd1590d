-- ===== src/Bin2Ascii/Hex.antt =====
-- `hex2bin` and `bin2hex` of include/query/bin2ascii.h.
use identt.Prelude.{
  ◌+◌, ◌*◌, ◌/◌, ◌%◌, ◌<◌, ◌≡◌, refl, Bytes, [], ◌∷◌, none, some, length, true, ◌==◌, arith,
  if◌then◌else◌,
}
use identt.Exception.{Result, ok, err, runtime_error, ◌>>=◌}
use identt.Keys.Hex.{hex_digit, hex_value, hex_value-hex_digit}

unfoldable pub bin2hex : Bytes → Bytes
bin2hex [] = []
bin2hex (b ∷ s) = hex_digit (b / 16) ∷ hex_digit (b % 16) ∷ bin2hex s

-- The loop over pairs; `hex_value` is the table `lookup`, with `none` for 0x80. The
-- text of the exception leaves out the digits that it quotes.
unfoldable pub hex_pairs : Bytes → Result Bytes
hex_pairs [] = ok []
hex_pairs (a ∷ []) = ok []
hex_pairs (a ∷ b ∷ s) = elim (hex_value a) [
  | none ↦ err (runtime_error "Invalid hex data: ")
  | some hi ↦ elim (hex_value b) [
    | none ↦ err (runtime_error "Invalid hex data: ")
    | some lo ↦ hex_pairs s >>= λ r. ok ((hi * 16 + lo) ∷ r)
  ]
]

unfoldable pub hex2bin : Bytes → Result Bytes
hex2bin s = if length s % 2 == 0 then hex_pairs s else err (runtime_error "Odd hex data size")

-- Every byte is below 256.
abbrev pub AllBytes : Bytes → Type 0
AllBytes [] = Unit {0}
AllBytes (b ∷ s) = (b < 256) × AllBytes s

hex_pairs-bin2hex : (s : Bytes) → AllBytes s → hex_pairs (bin2hex s) ≡ ok s
unfolding hex_pairs bin2hex
hex_pairs-bin2hex [] h = refl
hex_pairs-bin2hex (b ∷ s) h =
    let whole : b / 16 * 16 + b % 16 ≡ b = omega arith in
    rw
      (
        hex_value-hex_digit (b / 16) (omega (arith, h.0)),
        hex_value-hex_digit (b % 16) (omega arith),
        hex_pairs-bin2hex s h.1,
        whole,
        hex_pairs,
        bin2hex,
      )
      refl

length-bin2hex : (s : Bytes) → length (bin2hex s) ≡ length s * 2
unfolding bin2hex
length-bin2hex [] = refl
length-bin2hex (b ∷ s) = omega (arith, length-bin2hex s)

-- The bytes whose hexadecimal digits `bin2hex` writes are what `hex2bin` reads.
pub hex2bin-bin2hex : (s : Bytes) → AllBytes s → hex2bin (bin2hex s) ≡ ok s
unfolding hex2bin
hex2bin-bin2hex s h =
    let even : (length (bin2hex s) % 2 == 0) ≡ true = ground (arith, length-bin2hex s) in
    rw even (hex_pairs-bin2hex s h)
