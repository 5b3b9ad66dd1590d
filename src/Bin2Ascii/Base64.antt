-- ===== src/Bin2Ascii/Base64.antt =====
-- The base 64 functions of include/query/bin2ascii.h.
use mathlib.Core.List.{append-nil}
use identt.Prelude.{
  ℕ, suc, ◌+◌, ◌-◌, ◌*◌, ◌/◌, ◌%◌, ◌<◌, ◌≡◌, refl, Bytes, [], ◌∷◌, ◌++◌, Bool, true, false, ◌&&◌,
  Option, none, some, length, replicate, ltb, leb, ◌==◌, arith, if◌then◌else◌,
}
use identt.Exception.{Result, ok, err, runtime_error, ◌>>=◌}
use identt.Bin2Ascii.Hex.{AllBytes}

-- `lookup` of `b64_encode`.
unfoldable pub b64_char : ℕ → ℕ
b64_char n =
    if ltb n 26
    then 65 + n
    else if ltb n 52
    then 71 + n
    else if ltb n 62
    then n - 4
    else if n == 62
    then 43
    else 47

-- `lookup` of `b64_decode`, with `none` for 0x80; "=" counts as 0.
unfoldable pub b64_value : ℕ → Option ℕ
b64_value c =
    if leb 65 c && leb c 90
    then some (c - 65)
    else if leb 97 c && leb c 122
    then some (c - 71)
    else if leb 48 c && leb c 57
    then some (c + 4)
    else if c == 43
    then some 62
    else if c == 47
    then some 63
    else if c == 61
    then some 0
    else none

-- The loop of `b64_encode`: three bytes, of which the last two may be missing.
unfoldable pub b64_groups : Bytes → Bytes
b64_groups [] = []
b64_groups (a ∷ []) = b64_char (a / 4) ∷ b64_char (a % 4 * 16) ∷ []
b64_groups (a ∷ b ∷ []) =
    b64_char (a / 4) ∷ b64_char (a % 4 * 16 + b / 16) ∷ b64_char (b % 16 * 4) ∷ []
b64_groups (a ∷ b ∷ c ∷ s) =
    b64_char (a / 4)
    ∷ b64_char (a % 4 * 16 + b / 16)
    ∷ b64_char (b % 16 * 4 + c / 64)
    ∷ b64_char (c % 64)
    ∷ b64_groups s

unfoldable pub b64_encode : Bytes → Bool → Bytes
b64_encode s strip = b64_groups s ++ (if strip then [] else replicate ((3 - length s % 3) % 3) 61)

-- b64_encode_strip
unfoldable pub b64_encode_strip : Bytes → Bytes
b64_encode_strip s = b64_encode s true

-- b64_sanit pads with "=" to a multiple of four.
unfoldable pub b64_sanit : Bytes → Bytes
b64_sanit s = s ++ replicate (3 - (length s + 3) % 4) 61

-- The text of an exception leaves out the characters that it quotes. The bytes of a group of four, of which the last two are missing where "=" stands.
unfoldable pub b64_bytes : ℕ → ℕ → ℕ → ℕ → ℕ → ℕ → Bytes
b64_bytes n0 n1 n2 n3 c2 c3 =
    (n0 * 4 + n1 / 16)
    ∷ ((if c2 == 61 then [] else (n1 % 16 * 16 + n2 / 4) ∷ [])
        ++ (if c3 == 61 then [] else (n2 % 4 * 64 + n3) ∷ []))

unfoldable pub b64_group : ℕ → ℕ → ℕ → ℕ → Result Bytes
b64_group c0 c1 c2 c3 = elim (b64_value c0) [
  | none ↦ err (runtime_error "Invalid hex data: ")
  | some n0 ↦ elim (b64_value c1) [
    | none ↦ err (runtime_error "Invalid hex data: ")
    | some n1 ↦ elim (b64_value c2) [
      | none ↦ err (runtime_error "Invalid hex data: ")
      | some n2 ↦ elim (b64_value c3) [
        | none ↦ err (runtime_error "Invalid hex data: ")
        | some n3 ↦ ok (b64_bytes n0 n1 n2 n3 c2 c3)
      ]
    ]
  ]
]

-- The loop of `b64_decode`, over groups of four.
unfoldable pub b64_quads : Bytes → Result Bytes
b64_quads (c0 ∷ c1 ∷ c2 ∷ c3 ∷ s) =
    b64_group c0 c1 c2 c3 >>= λ bytes. b64_quads s >>= λ rest. ok (bytes ++ rest)
b64_quads _ = ok []

unfoldable pub b64_decode : Bytes → Result Bytes
b64_decode s =
    if length s % 4 == 0 then b64_quads s else err (runtime_error "Invalid base64 data size")

-- b64_sanit_decode
unfoldable pub b64_sanit_decode : Bytes → Result Bytes
b64_sanit_decode s = b64_decode (b64_sanit s)

pub b64_value-b64_char : (n : ℕ) → n < 64 → b64_value (b64_char n) ≡ some n
unfolding b64_value b64_char
b64_value-b64_char n h = ground arith

b64_char_ne_pad : (n : ℕ) → n < 64 → (b64_char n == 61) ≡ false
unfolding b64_char
b64_char_ne_pad n h = ground arith

-- A group of four characters gives back the bytes that they encode.
group_three :
    (a b c : ℕ)
    → a < 256
    → b < 256
    → c < 256
    → b64_group
        (b64_char (a / 4))
        (b64_char (a % 4 * 16 + b / 16))
        (b64_char (b % 16 * 4 + c / 64))
        (b64_char (c % 64))
      ≡ ok (a ∷ b ∷ c ∷ [])
unfolding b64_group b64_bytes
group_three a b c h k l =
    let one : a / 4 * 4 + (a % 4 * 16 + b / 16) / 16 ≡ a = omega arith in
    let two : (a % 4 * 16 + b / 16) % 16 * 16 + (b % 16 * 4 + c / 64) / 4 ≡ b = omega arith in
    let three : (b % 16 * 4 + c / 64) % 4 * 64 + c % 64 ≡ c = omega arith in
    rw
      (
        b64_value-b64_char (a / 4) (omega arith),
        b64_value-b64_char (a % 4 * 16 + b / 16) (omega arith),
        b64_value-b64_char (b % 16 * 4 + c / 64) (omega arith),
        b64_value-b64_char (c % 64) (omega arith),
        b64_char_ne_pad (b % 16 * 4 + c / 64) (omega arith),
        b64_char_ne_pad (c % 64) (omega arith),
        one,
        two,
        three,
        b64_group,
        b64_bytes,
      )
      refl

group_two :
    (a b : ℕ)
    → a < 256
    → b < 256
    → b64_group (b64_char (a / 4)) (b64_char (a % 4 * 16 + b / 16)) (b64_char (b % 16 * 4)) 61
      ≡ ok (a ∷ b ∷ [])
unfolding b64_group b64_bytes b64_value
group_two a b h k =
    let one : a / 4 * 4 + (a % 4 * 16 + b / 16) / 16 ≡ a = omega arith in
    let two : (a % 4 * 16 + b / 16) % 16 * 16 + b % 16 * 4 / 4 ≡ b = omega arith in
    rw
      (
        b64_value-b64_char (a / 4) (omega arith),
        b64_value-b64_char (a % 4 * 16 + b / 16) (omega arith),
        b64_value-b64_char (b % 16 * 4) (omega arith),
        b64_char_ne_pad (b % 16 * 4) (omega arith),
        one,
        two,
        b64_group,
        b64_bytes,
      )
      refl

group_one :
    (a : ℕ) → a < 256 → b64_group (b64_char (a / 4)) (b64_char (a % 4 * 16)) 61 61 ≡ ok (a ∷ [])
unfolding b64_group b64_bytes b64_value
group_one a h =
    let one : a / 4 * 4 + a % 4 * 16 / 16 ≡ a = omega arith in
    rw
      (
        b64_value-b64_char (a / 4) (omega arith),
        b64_value-b64_char (a % 4 * 16) (omega arith),
        one,
        b64_group,
        b64_bytes,
      )
      refl

abbrev padding : Bytes → Bytes
padding s = replicate ((3 - length s % 3) % 3) 61

quads-groups : (s : Bytes) → AllBytes s → b64_quads (b64_groups s ++ padding s) ≡ ok s
unfolding b64_quads b64_groups
quads-groups [] h = refl
quads-groups (a ∷ []) h = rw (group_one a h.0) refl
quads-groups (a ∷ b ∷ []) h = rw (group_two a b h.0 h.1.0) refl
quads-groups (a ∷ b ∷ c ∷ s) h =
    let same : (3 - suc (suc (suc (length s))) % 3) % 3 ≡ (3 - length s % 3) % 3 = omega arith in
    rw (same, group_three a b c h.0 h.1.0 h.1.1.0, quads-groups s h.1.1.1) refl

length-groups : (s : Bytes) → length (b64_groups s ++ padding s) % 4 ≡ 0
unfolding b64_groups
length-groups [] = refl
length-groups (a ∷ []) = refl
length-groups (a ∷ b ∷ []) = refl
length-groups (a ∷ b ∷ c ∷ s) =
    let same : (3 - suc (suc (suc (length s))) % 3) % 3 ≡ (3 - length s % 3) % 3 = omega arith in
    rw same (omega (arith, length-groups s))

-- Decoding what was encoded with its padding gives the bytes back.
pub b64_decode-b64_encode : (s : Bytes) → AllBytes s → b64_decode (b64_encode s false) ≡ ok s
unfolding b64_decode b64_encode
b64_decode-b64_encode s h =
    let whole : (length (b64_groups s ++ padding s) % 4 == 0) ≡ true =
      ground (arith, length-groups s) in
    rw whole (quads-groups s h)

length-b64_groups : (s : Bytes) → (3 - (length (b64_groups s) + 3) % 4) ≡ (3 - length s % 3) % 3
unfolding b64_groups
length-b64_groups [] = refl
length-b64_groups (a ∷ []) = refl
length-b64_groups (a ∷ b ∷ []) = refl
length-b64_groups (a ∷ b ∷ c ∷ s) = omega (arith, length-b64_groups s)

-- `b64_sanit` restores the padding that was left out, so that what was encoded without it is
-- decoded to the same bytes.
pub b64_sanit_decode-b64_encode_strip :
    (s : Bytes) → AllBytes s → b64_sanit_decode (b64_encode_strip s) ≡ ok s
unfolding b64_sanit_decode b64_encode_strip b64_sanit b64_encode
b64_sanit_decode-b64_encode_strip s h =
    rw (append-nil (b64_groups s), length-b64_groups s) (b64_decode-b64_encode s h)
