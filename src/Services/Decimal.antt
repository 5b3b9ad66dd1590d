-- ===== src/Services/Decimal.antt =====
-- Proofs on `std::to_string` and `std::stoi`.
use identt.Prelude.{
  ◌-◌, subst, ℕ, zero, suc, ◌+◌, ◌*◌, ◌/◌, ◌%◌, ◌^◌, ◌<◌, ◌≡◌, ap, sym, ◌∙◌, Bytes, [], ◌∷◌, ◌++◌,
  true, ltb, leb, ◌&&◌, arith, Bool-cases, inl, inr,
}
use mathlib.Core.List.{append_assoc, append-nil}
use identt.Exception.{ok}
use identt.Keys.Stoull.{skip_space, is_space}
use identt.Services.Numbers.{
  is_digit, read_decimal, decimal_number, int_of, int_signed, stoi, decimal, to_string,
}

read_digit :
    (acc d : ℕ) (s : Bytes)
    → d < 10
    → read_decimal acc ((48 + d) ∷ s) ≡ read_decimal (acc * 10 + d) s
unfolding read_decimal is_digit
read_digit acc d s h =
    let same : acc * 10 + (48 + d - 48) ≡ acc * 10 + d = omega arith in
    let digit : (leb 48 (48 + d) && leb (48 + d) 57) ≡ true = ground arith in
    rw digit (ap (λ n. read_decimal n s) same)

-- A text that begins with a digit has no space and no sign in front.
read_first_int :
    (c : ℕ) (s : Bytes) (n : ℕ)
    → leb 48 c ≡ true
    → leb c 57 ≡ true
    → read_decimal 0 (c ∷ s) ≡ n
    → n < 2 ^ 31
    → stoi (c ∷ s) ≡ ok n
unfolding stoi skip_space is_space int_signed decimal_number int_of is_digit
read_first_int c s n low high read small = ground arith

-- The digits of a number are read as the number, whatever follows.
read_decimal-decimal :
    (fuel n : ℕ) (s : Bytes)
    → n < 10 ^ fuel
    → 0 < fuel
    → read_decimal 0 (decimal fuel n ++ s) ≡ read_decimal n s
unfolding decimal
read_decimal-decimal zero n s h p = absurd (omega arith)
read_decimal-decimal (suc zero) n s h p =
    let small : ltb n 10 ≡ true = ground arith in
    rw small (read_digit 0 n s (omega arith) ∙ ap (λ m. read_decimal m s) (omega arith))
read_decimal-decimal (suc (suc fuel)) n s h p = elim (Bool-cases (ltb n 10)) [
  | inl small ↦
      rw small (read_digit 0 n s (ground arith) ∙ ap (λ m. read_decimal m s) (omega arith))
  | inr large ↦
      let less : n / 10 < 10 ^ suc fuel = omega arith in
      rw large (
        ap (read_decimal 0) (append_assoc (decimal (suc fuel) (n / 10)) ((48 + n % 10) ∷ []) s)
        ∙ read_decimal-decimal (suc fuel) (n / 10) ((48 + n % 10) ∷ s) less (omega arith)
        ∙ read_digit (n / 10) (n % 10) s (omega arith)
        ∙ ap (λ m. read_decimal m s) (omega arith))
]

-- The digits of a number begin with a digit.
pub record Begins (s : Bytes) : Type 0 where
  pub first : ℕ
  pub rest : Bytes
  pub split : s ≡ first ∷ rest
  pub low : leb 48 first ≡ true
  pub high : leb first 57 ≡ true

decimal-Begins : (fuel n : ℕ) (s : Bytes) → n < 10 ^ fuel → 0 < fuel → Begins (decimal fuel n ++ s)
unfolding decimal
decimal-Begins zero n s h p = absurd (omega arith)
decimal-Begins (suc zero) n s h p =
    let small : ltb n 10 ≡ true = ground arith in
    record { first = 48 + n; rest = s; split = rw small; low = ground arith; high = ground arith }
decimal-Begins (suc (suc fuel)) n s h p = elim (Bool-cases (ltb n 10)) [
  | inl small ↦ record {
    first = 48 + n;
    rest = s;
    split = rw small;
    low = ground arith;
    high = ground arith;
  }
  | inr large ↦
      let less : n / 10 < 10 ^ suc fuel = omega arith in
      let b = decimal-Begins (suc fuel) (n / 10) ((48 + n % 10) ∷ s) less (omega arith) in
      record {
        first = b.first;
        rest = b.rest;
        split =
            rw large (append_assoc (decimal (suc fuel) (n / 10)) ((48 + n % 10) ∷ []) s ∙ b.split);
        low = b.low;
        high = b.high;
      }
]

to_string-Begins : (n : ℕ) → n < 2 ^ 64 → Begins (to_string n)
unfolding to_string
to_string-Begins n h =
    subst Begins (append-nil (decimal 20 n)) (decimal-Begins 20 n [] (omega arith) (omega arith))

read-to_string : (n : ℕ) → n < 2 ^ 64 → read_decimal 0 (to_string n) ≡ n
unfolding to_string read_decimal
read-to_string n h =
    ap (read_decimal 0) (sym (append-nil (decimal 20 n)))
    ∙ read_decimal-decimal 20 n [] (omega arith) (omega arith)

-- The text of an int32 that is not negative is read back by `std::stoi`.
pub stoi-to_string : (n : ℕ) → n < 2 ^ 31 → stoi (to_string n) ≡ ok n
stoi-to_string n h =
    let b = to_string-Begins n (omega arith) in
    ap stoi b.split
    ∙ read_first_int b.first b.rest n b.low b.high
        (ap (read_decimal 0) (sym b.split) ∙ read-to_string n (omega arith)) h
