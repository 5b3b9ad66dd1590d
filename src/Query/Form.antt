-- ===== src/Query/Form.antt =====
-- src/query/ProtoForm.cc: the coding of forms in a url.
pub mod Digits
pub mod Coding
use identt.Prelude.{
  ℕ, ◌+◌, ◌*◌, ◌%◌, ◌/◌, Bytes, List, [], ◌∷◌, ◌++◌, Bool, true, false, ◌&&◌, ◌||◌, Option, none,
  some, beq, leb, ltb, suc, zero, ◌==◌, not, if◌then◌else◌,
}
use identt.Services.Numbers.{is_digit, tolower}

-- The bits of `a` or `b`, for the lowest bits.
unfoldable pub bit_or : ℕ → ℕ → ℕ → ℕ
bit_or zero a b = 0
bit_or (suc bits) a b =
    let higher = bit_or bits (a / 2) (b / 2) in
    (if a % 2 == 1 || b % 2 == 1 then 1 else 0) + 2 * higher

-- from_hex, as the byte of a `char`.
unfoldable pub from_hex : ℕ → ℕ
from_hex c = (if is_digit c then c + 208 else tolower c + 169) % 256

-- `h = from_hex(i[1]) << 4 | from_hex(i[2])`
unfoldable pub hex_pair : ℕ → ℕ → ℕ
unfolding from_hex bit_or
hex_pair c d = bit_or 8 (from_hex c * 16 % 256) (from_hex d)

-- `m[name] = value`
unfoldable pub assign : Bytes → Bytes → List (Bytes × Bytes) → List (Bytes × Bytes)
assign name value [] = (name, value) ∷ []
assign name value ((k, v) ∷ m) =
    let rest = assign name value m in if beq name k then (k, value) ∷ m else (k, v) ∷ rest

-- The variables of the loop: the map, `name` if `name_set`, its last value if not, and `escaped`.
pub record Decoding : Type 0 where
  pub m : List (Bytes × Bytes)
  pub name : Bytes
  pub name_set : Bool
  pub escaped : Bytes

-- `escaped << c`
unfoldable pub escape : ℕ → Decoding → Decoding
escape c s = record s { escaped = s.escaped ++ c ∷ [] }

-- At "=", "&" and the end.
unfoldable pub name_ends : Decoding → Decoding
name_ends s = record s { name = s.escaped; escaped = []; name_set = true }

unfoldable pub value_ends : Decoding → Decoding
unfolding assign
value_ends s = record s {
  m = if s.name_set then assign s.name s.escaped s.m else s.m;
  escaped = [];
  name_set = false;
}

unfoldable pub form_ends : Decoding → List (Bytes × Bytes)
unfolding assign
form_ends s = if s.name_set then assign s.name s.escaped s.m else assign s.escaped [] s.m

-- One character that is not "%".
unfoldable pub decode_char : ℕ → Decoding → Decoding
unfolding escape name_ends value_ends
decode_char c s =
    if c == 43
    then escape 32 s
    else if c == 61
    then name_ends s
    else if c == 38
    then value_ends s
    else escape c s

-- The loop. The text is read up to the NUL behind its end, so two characters have to follow a "%".
unfoldable pub decode_loop : Bytes → Decoding → Decoding
unfolding decode_char hex_pair escape
decode_loop [] s = s
decode_loop (c ∷ []) s = if c == 37 then s else decode_char c s
decode_loop (c ∷ d ∷ []) s = decode_loop (d ∷ []) (if c == 37 then s else decode_char c s)
decode_loop (c ∷ d ∷ e ∷ rest) s = elim (c == 37 && not (d == 0) && not (e == 0)) [
  | true ↦ decode_loop rest (escape (hex_pair d e) s)
  | false ↦ decode_loop (d ∷ e ∷ rest) (if c == 37 then s else decode_char c s)
]

-- urldecode
unfoldable pub urldecode : Bytes → List (Bytes × Bytes)
unfolding decode_loop form_ends
urldecode text =
    form_ends (decode_loop text (record { m = []; name = []; name_set = false; escaped = [] }))

-- `std::isalnum(c) || c == '-' || c == '_' || c == '.' || c == '~'`. From 128 on `c` is a negative
-- `char`, of which C++ leaves `std::isalnum` undefined: `above` is what it gives there.
unfoldable pub is_kept : (ℕ → Bool) → ℕ → Bool
is_kept above c =
    (if ltb c 128 then is_digit c || (leb 65 c && leb c 90) || (leb 97 c && leb c 122) else above c)
    || c == 45
    || c == 95
    || c == 46
    || c == 126

-- A digit of `std::hex` with `std::uppercase`.
unfoldable pub upper_hex : ℕ → ℕ
upper_hex n = if ltb n 10 then 48 + n else 55 + n

unfoldable pub encode_char : (ℕ → Bool) → ℕ → Bytes
unfolding is_kept upper_hex
encode_char above c =
    if is_kept above c then c ∷ [] else 37 ∷ upper_hex (c / 16) ∷ upper_hex (c % 16) ∷ []

-- urlencode
unfoldable pub urlencode : (ℕ → Bool) → Bytes → Bytes
unfolding encode_char
urlencode above [] = []
urlencode above (c ∷ value) = encode_char above c ++ urlencode above value
