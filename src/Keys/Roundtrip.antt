-- ===== src/Keys/Roundtrip.antt =====
-- Proofs on EncodePrimaryKey and DecodePrimaryKey of src/store/StoreBase.cc.
use mathlib.Core.Path.{◌≡⟨◌⟩◌, ◌∎}
use mathlib.Core.List.{append_assoc, append-nil}
use native.Mathlib.Nat.{pow-suc}
use identt.Prelude.{
  ℕ, zero, suc, ◌+◌, ◌*◌, ◌/◌, ◌%◌, ◌^◌, ◌<◌, ◌≡◌, refl, ap, sym, ◌∙◌, Bytes, [], ◌∷◌, ◌++◌, some,
  false, ◌==◌, length, length-append, take, drop, take-append, drop-append, arith, lt→ltb, le→ltb,
  take-length, subst,
}
use identt.Exception.{ok}
use identt.Keys.{
  encode_key_type, encode_primary_key, decode_primary_key, uint_only, keyid_len, node_len,
}
use identt.Keys.Hex.{hex, hex_digit, hex_value, hex_value-hex_digit, length-hex}
use identt.Keys.Stoull.{stoull, read_digits, is_space, skip_space, skip_prefix, magnitude, signed}

-- Every byte is a hexadecimal digit.
abbrev pub AllHex : Bytes → Type 0
AllHex [] = Unit {0}
AllHex (c ∷ s) = ((d : ℕ) × (hex_value c ≡ some d)) × AllHex s

AllHex-append : (s t : Bytes) → AllHex s → AllHex t → AllHex (s ++ t)
AllHex-append [] t h k = k
AllHex-append (c ∷ s) t h k = (h.0, AllHex-append s t h.1 k)

AllHex-hex : (w n : ℕ) → AllHex (hex w n)
unfolding hex
AllHex-hex zero n = tt
AllHex-hex (suc w) n =
    AllHex-append (hex w (n / 16)) _ (AllHex-hex w (n / 16))
      ((n % 16, hex_value-hex_digit (n % 16) (omega arith)), tt)

read_digit :
    (acc d : ℕ) (s : Bytes)
    → d < 16
    → read_digits acc (hex_digit d ∷ s) ≡ read_digits (acc * 16 + d) s
unfolding read_digits
read_digit acc d s h = rw (hex_value-hex_digit d h, read_digits)

-- Reading the digits of `n` shifts the accumulator by as many digits and adds `n`.
read_digits-hex :
    (w n acc : ℕ) (s : Bytes)
    → n < 16 ^ w
    → read_digits acc (hex w n ++ s) ≡ read_digits (acc * 16 ^ w + n) s
unfolding hex
read_digits-hex zero n acc s h = ap (λ k. read_digits k s) (omega arith)
read_digits-hex (suc w) n acc s h =
    read_digits acc ((hex w (n / 16) ++ hex_digit (n % 16) ∷ []) ++ s)
    ≡⟨ ap (read_digits acc) (append_assoc (hex w (n / 16)) _ s) ⟩
      read_digits acc (hex w (n / 16) ++ hex_digit (n % 16) ∷ s)
    ≡⟨ read_digits-hex w (n / 16) acc (hex_digit (n % 16) ∷ s) (omega (arith, pow-suc 16 w)) ⟩
      read_digits (acc * 16 ^ w + n / 16) (hex_digit (n % 16) ∷ s)
    ≡⟨ read_digit (acc * 16 ^ w + n / 16) (n % 16) s (omega arith) ⟩
      read_digits ((acc * 16 ^ w + n / 16) * 16 + n % 16) s
    ≡⟨ ap (λ k. read_digits k s) (omega (arith, ap (λ (t : ℕ). acc * t) (pow-suc 16 w))) ⟩
      read_digits (acc * 16 ^ suc w + n) s ∎

-- No digit is a space, a sign or the mark of a prefix.
hex_range :
    (c d : ℕ)
    → hex_value c ≡ some d
    → (is_space c ≡ false)
      × ((c == 45) ≡ false)
      × ((c == 43) ≡ false)
      × ((c == 120) ≡ false)
      × ((c == 88) ≡ false)
unfolding hex_value is_space
hex_range c d h = ground arith

skip_prefix-AllHex : (s : Bytes) → AllHex s → skip_prefix s ≡ s
unfolding skip_prefix
skip_prefix-AllHex [] h = refl
skip_prefix-AllHex (a ∷ []) h = refl
skip_prefix-AllHex (a ∷ b ∷ []) h = refl
skip_prefix-AllHex (a ∷ b ∷ c ∷ s) (_, ((d, e), _)) = ground (arith, hex_range b d e)

magnitude-AllHex :
    (c : ℕ) (s : Bytes)
    → AllHex (c ∷ s)
    → read_digits 0 (c ∷ s) < 2 ^ 64
    → magnitude (c ∷ s) ≡ ok (read_digits 0 (c ∷ s))
unfolding magnitude
magnitude-AllHex c s ((d, e), _) k = rw (e, magnitude) (rw (lt→ltb _ _ k))

-- Of a text of digits `stoull` reads the whole.
stoull-AllHex :
    (c : ℕ) (s : Bytes)
    → AllHex (c ∷ s)
    → read_digits 0 (c ∷ s) < 2 ^ 64
    → stoull (c ∷ s) ≡ ok (read_digits 0 (c ∷ s))
unfolding stoull skip_space signed
stoull-AllHex c s ((d, e), r) k =
    let p = hex_range c d e in
    rw (p.0, skip_space, signed)
      (rw (p.1, p.2)
        (rw (skip_prefix-AllHex (c ∷ s) ((d, e), r)) (magnitude-AllHex c s ((d, e), r) k)))

pub read_all-hex : (w n : ℕ) → n < 16 ^ w → read_digits 0 (hex w n) ≡ n
unfolding read_digits
read_all-hex w n h =
    ap (read_digits 0) (sym (append-nil (hex w n))) ∙ read_digits-hex w n 0 [] h ∙ omega arith

stoull_of_read :
    (s : Bytes) (n : ℕ)
    → AllHex s
    → 0 < length s
    → n < 2 ^ 64
    → read_digits 0 s ≡ n
    → stoull s ≡ ok n
stoull_of_read [] n a l h r = absurd (omega arith)
stoull_of_read (c ∷ s) n a l h r = stoull-AllHex c s a (rw r h) ∙ ap ok r

-- Two digits hold a key type below 256 and sixteen a uint64.
stoull-key : (n : ℕ) → n < 256 → stoull (hex 2 n) ≡ ok n
stoull-key n h =
    stoull_of_read (hex 2 n) n (AllHex-hex 2 n) (omega (arith, length-hex 2 n)) (omega arith)
      (read_all-hex 2 n h)

stoull-uint : (n : ℕ) → n < 2 ^ 64 → stoull (hex 16 n) ≡ ok n
stoull-uint n h =
    stoull_of_read (hex 16 n) n (AllHex-hex 16 n) (omega (arith, length-hex 16 n)) h
      (read_all-hex 16 n h)

take-encoded : (k u : Bytes) → length k ≡ keyid_len → take keyid_len (k ++ u) ≡ k
take-encoded k u h = subst (λ n. take n (k ++ u) ≡ k) h (take-append k u)

drop-encoded : (k u : Bytes) → length k ≡ keyid_len → drop keyid_len (k ++ u) ≡ u
drop-encoded k u h = subst (λ n. drop n (k ++ u) ≡ u) h (drop-append k u)

take-node : (u : Bytes) → length u ≡ node_len → take node_len u ≡ u
take-node u h = subst (λ n. take n u ≡ u) h (take-length u)

-- IDENTT_KEYID_LEN digits hold every key type of `KeyTypeE`, and IDENTT_NODE_LEN digits every
-- uint64: decoding an encoded primary key returns the key type and the id.
pub decode_primary_key-encode_primary_key :
    (keytype id : ℕ)
    → keytype < 256
    → id < 2 ^ 64
    → decode_primary_key (encode_primary_key keytype id) ≡ ok (keytype, id)
unfolding decode_primary_key encode_primary_key encode_key_type uint_only
decode_primary_key-encode_primary_key keytype id h k =
    rw
      (le→ltb (length (hex 2 keytype ++ hex 16 id)) (keyid_len + node_len) (
        omega (
          arith,
          length-append (hex 2 keytype) (hex 16 id),
          length-hex 2 keytype,
          length-hex 16 id,
        )))
      (rw (take-encoded (hex 2 keytype) (hex 16 id) (length-hex 2 keytype), stoull-key keytype h)
        (rw (
          drop-encoded (hex 2 keytype) (hex 16 id) (length-hex 2 keytype),
          take-node (hex 16 id) (length-hex 16 id),
          stoull-uint id k,
        )))
