-- ===== src/Query/Form/Digits.antt =====
-- Proofs on from_hex of src/query/ProtoForm.cc.
use identt.Prelude.{ℕ, ◌+◌, ◌*◌, ◌/◌, ◌%◌, ◌<◌, ◌≡◌, ap, ◌∙◌, suc, false, ◌==◌, arith}
use identt.Services.Numbers.{is_digit, tolower}
use identt.Query.Form.{bit_or, from_hex, hex_pair, upper_hex}

from_hex-upper_hex : (n : ℕ) → n < 16 → from_hex (upper_hex n) ≡ n
unfolding from_hex upper_hex is_digit tolower
from_hex-upper_hex n h = ground arith

-- One bit, if the first number is even.
bit_or_even : (bits a b : ℕ) → bit_or (suc bits) (2 * a) b ≡ b % 2 + 2 * bit_or bits a (b / 2)
unfolding bit_or
bit_or_even bits a b =
    let half : 2 * a / 2 ≡ a = omega arith in
    let even : (2 * a % 2 == 1) ≡ false = ground arith in rw (half, even) (ground arith)

bit_or_none : (bits a : ℕ) → bit_or (suc bits) a 0 ≡ a % 2 + 2 * bit_or bits (a / 2) 0
unfolding bit_or
bit_or_none bits a = ground arith

bit_or_four : (x : ℕ) → x < 16 → bit_or 4 x 0 ≡ x
unfolding bit_or
bit_or_four x h =
    rw
      (
        bit_or_none 3 x,
        bit_or_none 2 (x / 2),
        bit_or_none 1 (x / 2 / 2),
        bit_or_none 0 (x / 2 / 2 / 2),
      )
      (omega arith)

bit_or_pair : (x y : ℕ) → x < 16 → y < 16 → bit_or 8 (x * 16) y ≡ x * 16 + y
bit_or_pair x y h k =
    let twice : x * 16 ≡ 2 * (2 * (2 * (2 * x))) = omega arith in
    let none : y / 2 / 2 / 2 / 2 ≡ 0 = omega arith in
    rw
      (
        ap (λ a. bit_or 8 a y) twice,
        bit_or_even 7 (2 * (2 * (2 * x))) y,
        bit_or_even 6 (2 * (2 * x)) (y / 2),
        bit_or_even 5 (2 * x) (y / 2 / 2),
        bit_or_even 4 x (y / 2 / 2 / 2),
        ap (λ b. bit_or 4 x b) none,
        bit_or_four x h,
      )
      (omega arith)

pub hex_pair-upper_hex : (c : ℕ) → c < 256 → hex_pair (upper_hex (c / 16)) (upper_hex (c % 16)) ≡ c
unfolding hex_pair
hex_pair-upper_hex c h =
    let small : c / 16 * 16 % 256 ≡ c / 16 * 16 = omega arith in
    let whole : c / 16 * 16 + c % 16 ≡ c = omega arith in
    rw (from_hex-upper_hex (c / 16) (omega arith), from_hex-upper_hex (c % 16) (omega arith), small)
      (bit_or_pair (c / 16) (c % 16) (omega arith) (omega arith) ∙ whole)
