-- ===== src/Keys/Order.antt =====
-- Proofs on the keys of src/store/StoreBase.cc: their order in the database.
use identt.Prelude.{
  true, sym, starts_with, ℕ, zero, suc, ◌^◌, ◌/◌, ◌%◌, ◌<◌, ◌≡◌, refl, ◌∙◌, Bytes, [], ◌∷◌, ◌++◌,
  ◌&&◌, ◌||◌, ltb, ◌==◌, length, beq, blt, beq_iff, arith,
}
use identt.Keys.{KeyType, encode_key_type, encode_primary_key, uint_only}
use identt.Keys.Hex.{hex, hex_digit, length-hex}
use identt.Keys.Distinct.{hex_inj}

blt-cancel : (p a b : Bytes) → blt (p ++ a) (p ++ b) ≡ blt a b
unfolding blt
blt-cancel [] a b = refl
blt-cancel (x ∷ p) a b = ground (arith, blt-cancel p a b)

-- Texts of one length are compared first by what comes first.
blt-append :
    (a b : Bytes) (x y : ℕ)
    → length a ≡ length b
    → blt (a ++ x ∷ []) (b ++ y ∷ []) ≡ (blt a b || beq a b && ltb x y)
unfolding blt beq
blt-append [] [] x y l = ground arith
blt-append [] (z ∷ b) x y l = absurd (omega arith)
blt-append (z ∷ a) [] x y l = absurd (omega arith)
blt-append (z ∷ a) (u ∷ b) x y l =
    let shorter : length a ≡ length b = omega arith in ground (arith, blt-append a b x y shorter)

ltb-hex_digit : (d e : ℕ) → d < 16 → e < 16 → ltb (hex_digit d) (hex_digit e) ≡ ltb d e
unfolding hex_digit
ltb-hex_digit d e h k = ground arith

-- The digits of a number in the order of their weights.
ltb-div :
    (m n : ℕ) → ltb m n ≡ (ltb (m / 16) (n / 16) || (m / 16) == (n / 16) && ltb (m % 16) (n % 16))
ltb-div m n = ground arith

pub beq-hex : (w m n : ℕ) → m < 16 ^ w → n < 16 ^ w → beq (hex w m) (hex w n) ≡ (m == n)
beq-hex w m n h k = ground (arith, beq_iff (hex w m) (hex w n), hex_inj w m n h k)

pub blt-hex : (w m n : ℕ) → m < 16 ^ w → n < 16 ^ w → blt (hex w m) (hex w n) ≡ ltb m n
unfolding hex blt
blt-hex zero m n h k = ground arith
blt-hex (suc w) m n h k =
    let up : m / 16 < 16 ^ w = omega arith in
    let vp : n / 16 < 16 ^ w = omega arith in
    rw
      (
        blt-append (hex w (m / 16)) (hex w (n / 16)) (hex_digit (m % 16)) (hex_digit (n % 16))
            (omega (arith, length-hex w (m / 16), length-hex w (n / 16))),
        blt-hex w (m / 16) (n / 16) up vp,
        beq-hex w (m / 16) (n / 16) up vp,
        ltb-hex_digit (m % 16) (n % 16) (omega arith) (omega arith),
        ltb-div m n,
      )
      refl

-- The bytewise order of two primary keys of one type is the order of their ids, uint64.
pub blt-encode_primary_key :
    (k : KeyType) (m n : ℕ)
    → m < 2 ^ 64
    → n < 2 ^ 64
    → blt (encode_primary_key k m) (encode_primary_key k n) ≡ ltb m n
unfolding encode_primary_key uint_only
blt-encode_primary_key k m n h l =
    blt-cancel (encode_key_type k) (hex 16 m) (hex 16 n)
    ∙ blt-hex 16 m n (omega arith) (omega arith)

pub blt-append_rest : (a b r : Bytes) → length a ≡ length b → blt (a ++ r) b ≡ blt a b
unfolding blt
blt-append_rest [] [] [] l = refl
blt-append_rest [] [] (x ∷ r) l = refl
blt-append_rest [] (y ∷ b) r l = absurd (omega arith)
blt-append_rest (x ∷ a) [] r l = absurd (omega arith)
blt-append_rest (x ∷ a) (y ∷ b) r l =
    let shorter : length a ≡ length b = omega arith in ground (arith, blt-append_rest a b r shorter)

pub starts_with-append_rest :
    (a b r : Bytes) → length a ≡ length b → starts_with (a ++ r) b ≡ beq a b
unfolding starts_with beq
starts_with-append_rest [] [] [] l = refl
starts_with-append_rest [] [] (x ∷ r) l = refl
starts_with-append_rest [] (y ∷ b) r l = absurd (omega arith)
starts_with-append_rest (x ∷ a) [] r l = absurd (omega arith)
starts_with-append_rest (x ∷ a) (y ∷ b) r l =
    let shorter : length a ≡ length b = omega arith in
    ground (arith, starts_with-append_rest a b r shorter)

-- A key is before the first keys of a type if its own type is before it.
pub blt-encode_key_type :
    (j k : KeyType) (r : Bytes)
    → j < 256
    → k < 256
    → blt (encode_key_type j ++ r) (encode_key_type k) ≡ ltb j k
unfolding encode_key_type
blt-encode_key_type j k r h l =
    blt-append_rest (hex 2 j) (hex 2 k) r (length-hex 2 j ∙ sym (length-hex 2 k))
    ∙ blt-hex 2 j k (omega arith) (omega arith)

pub starts_with-encode_key_type :
    (j k : KeyType) (r : Bytes)
    → j < 256
    → k < 256
    → starts_with (encode_key_type j ++ r) (encode_key_type k) ≡ (j == k)
unfolding encode_key_type
starts_with-encode_key_type j k r h l =
    starts_with-append_rest (hex 2 j) (hex 2 k) r (length-hex 2 j ∙ sym (length-hex 2 k))
    ∙ beq-hex 2 j k (omega arith) (omega arith)

blt-append_both :
    (a b r s : Bytes) → length a ≡ length b → blt a b ≡ true → blt (a ++ r) (b ++ s) ≡ true
unfolding blt
blt-append_both [] [] r s l h = cc
blt-append_both [] (y ∷ b) r s l h = absurd (omega arith)
blt-append_both (x ∷ a) [] r s l h = absurd (omega arith)
blt-append_both (x ∷ a) (y ∷ b) r s l h =
    let shorter : length a ≡ length b = omega arith in
    ground (arith, blt-append_both a b r s shorter)

-- Keys of a smaller type come before those of a greater one.
pub blt_types :
    (j k : KeyType) (r s : Bytes)
    → j < 256
    → k < 256
    → j < k
    → blt (encode_key_type j ++ r) (encode_key_type k ++ s) ≡ true
unfolding encode_key_type
blt_types j k r s h l o =
    blt-append_both (hex 2 j) (hex 2 k) r s (length-hex 2 j ∙ sym (length-hex 2 k))
      (blt-hex 2 j k (omega arith) (omega arith) ∙ ground arith)
