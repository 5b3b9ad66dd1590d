-- ===== src/Services/Numbers.antt =====
-- The conversions of numbers and texts of the standard library and of Boost that the actions use.
use identt.Prelude.{
  ℕ, zero, suc, ◌+◌, ◌-◌, ◌*◌, ◌/◌, ◌%◌, ◌^◌, Bytes, List, [], ◌∷◌, ◌++◌, Bool, ◌&&◌, ltb, leb,
  ◌==◌, length, replicate, if◌then◌else◌,
}
use identt.Exception.{Result, ok, err, invalid_argument, out_of_range, ◌>>=◌}
use identt.Keys.Stoull.{skip_space, negated}

unfoldable pub is_digit : ℕ → Bool
is_digit c = leb 48 c && leb c 57

-- The decimal digits that a text begins with, read onto `acc`.
unfoldable pub read_decimal : ℕ → Bytes → ℕ
unfolding is_digit
read_decimal acc [] = acc
read_decimal acc (c ∷ s) =
    let rest = read_decimal (acc * 10 + (c - 48)) s in if is_digit c then rest else acc

unfoldable pub decimal_magnitude : Bytes → Result ℕ
unfolding read_decimal is_digit
decimal_magnitude [] = err invalid_argument
decimal_magnitude (c ∷ s) =
    if is_digit c
    then (let n = read_decimal 0 (c ∷ s) in if ltb n (2 ^ 64) then ok n else err out_of_range)
    else err invalid_argument

unfoldable pub decimal_signed : Bytes → Result ℕ
unfolding decimal_magnitude negated
decimal_signed [] = err invalid_argument
decimal_signed (c ∷ s) =
    if c == 45
    then negated (decimal_magnitude s)
    else if c == 43
    then decimal_magnitude s
    else decimal_magnitude (c ∷ s)

-- `std::stoul`, base 10, where a long has 64 bits.
unfoldable pub stoul : Bytes → Result ℕ
unfolding decimal_signed skip_space
stoul s = decimal_signed (skip_space s)

-- The number that a text of decimal digits stands for, as a natural number.
unfoldable pub decimal_number : Bytes → Result ℕ
unfolding read_decimal is_digit
decimal_number [] = err invalid_argument
decimal_number (c ∷ s) = if is_digit c then ok (read_decimal 0 (c ∷ s)) else err invalid_argument

-- The range of an int32: the bit pattern of `n`, or of `-n`.
unfoldable pub int_of : ℕ → Result ℕ
int_of n = if ltb n (2 ^ 31) then ok n else err out_of_range

unfoldable pub int_negated : ℕ → Result ℕ
int_negated n = if leb n (2 ^ 31) then ok ((2 ^ 32 - n) % 2 ^ 32) else err out_of_range

unfoldable pub int_signed : Bytes → Result ℕ
unfolding decimal_number int_of int_negated
int_signed [] = err invalid_argument
int_signed (c ∷ s) =
    if c == 45
    then decimal_number s >>= int_negated
    else if c == 43
    then decimal_number s >>= int_of
    else decimal_number (c ∷ s) >>= int_of

-- `std::stoi`, base 10; the int32 is given by its bit pattern.
unfoldable pub stoi : Bytes → Result ℕ
unfolding int_signed skip_space
stoi s = int_signed (skip_space s)

-- The decimal digits of `n`, of which `fuel` bounds the number.
unfoldable pub decimal : ℕ → ℕ → Bytes
decimal zero n = []
decimal (suc fuel) n =
    let rest = decimal fuel (n / 10) in
    if ltb n 10 then (48 + n) ∷ [] else rest ++ (48 + n % 10) ∷ []

-- `std::to_string` of a uint64, which has at most 20 digits.
unfoldable pub to_string : ℕ → Bytes
unfolding decimal
to_string n = decimal 20 n

-- `std::setfill('1') << std::setw(6)`
unfoldable pub pad_ones : Bytes → Bytes
pad_ones s = replicate (6 - length s) 49 ++ s

-- `::tolower` of the C locale.
unfoldable pub tolower : ℕ → ℕ
tolower c = if leb 65 c && leb c 90 then c + 32 else c

-- `a > b` of two int32, given by their bit patterns.
unfoldable pub int_gt : ℕ → ℕ → Bool
int_gt a b = ltb ((b + 2 ^ 31) % 2 ^ 32) ((a + 2 ^ 31) % 2 ^ 32)

-- `a - b` of two uint64.
unfoldable pub minus : ℕ → ℕ → ℕ
minus a b = (a + 2 ^ 64 - b) % 2 ^ 64

-- `boost::algorithm::split` at ":": the part before the first ":" gets `c` in front.
unfoldable pub add_front : ℕ → List Bytes → List Bytes
add_front c [] = (c ∷ []) ∷ []
add_front c (p ∷ ps) = (c ∷ p) ∷ ps

unfoldable pub split : Bytes → List Bytes
unfolding add_front
split [] = [] ∷ []
split (c ∷ s) = let rest = split s in if c == 58 then [] ∷ rest else add_front c rest
