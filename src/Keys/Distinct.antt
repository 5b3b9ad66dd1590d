-- ===== src/Keys/Distinct.antt =====
-- Proofs on the keys of src/store/StoreBase.cc: when two keys are equal.
use identt.Prelude.{ℕ, ◌^◌, ◌<◌, ◌≡◌, ◌≢◌, refl, ap, sym, ◌∙◌, Bytes, ◌++◌, arith, append_cancel}
use identt.Keys.{KeyType, encode_key_type, encode_primary_key, uint_only}
use identt.Keys.Hex.{hex, length-hex}
use identt.Keys.Roundtrip.{read_all-hex}
use identt.Keys.Stoull.{read_digits}

pub hex_inj : (w m n : ℕ) → m < 16 ^ w → n < 16 ^ w → hex w m ≡ hex w n → m ≡ n
hex_inj w m n h k e = sym (read_all-hex w m h) ∙ ap (read_digits 0) e ∙ read_all-hex w n k

pub uint_only_inj : (m n : ℕ) → m < 2 ^ 64 → n < 2 ^ 64 → uint_only m ≡ uint_only n → m ≡ n
unfolding uint_only
uint_only_inj m n h k e = hex_inj 16 m n (omega arith) (omega arith) e

-- Whatever follows, the two digits of the key type tell two keys apart.
pub key_type_ne :
    (j k : KeyType) (s t : Bytes)
    → j < 256
    → k < 256
    → j ≢ k
    → encode_key_type j ++ s ≢ encode_key_type k ++ t
unfolding encode_key_type
key_type_ne j k s t h l ne e = ne (
    hex_inj 2 j k h l
      (append_cancel (hex 2 j) (hex 2 k) s t (omega (arith, length-hex 2 j, length-hex 2 k)) e).0)

-- Under one key type the rest of the key is determined.
pub key_type_cancel :
    (k : KeyType) (s t : Bytes) → encode_key_type k ++ s ≡ encode_key_type k ++ t → s ≡ t
key_type_cancel k s t e = (append_cancel (encode_key_type k) (encode_key_type k) s t refl e).1

-- Two primary keys of one type are equal only if their ids, uint64, are.
pub encode_primary_key_inj :
    (k : KeyType) (m n : ℕ)
    → m < 2 ^ 64
    → n < 2 ^ 64
    → encode_primary_key k m ≡ encode_primary_key k n
    → m ≡ n
unfolding encode_primary_key
encode_primary_key_inj k m n h l e =
    uint_only_inj m n h l (key_type_cancel k (uint_only m) (uint_only n) e)
