-- ===== src/Keys/Separator.antt =====
-- When the separator ":" of secondary keys keeps the parts apart, and when it does not.
use mathlib.Core.List.{append_assoc}
use identt.Prelude.{
  ℕ, ◌≡◌, ◌≢◌, refl, ap, ◌∙◌, Bytes, [], ◌∷◌, ◌++◌, true, starts_with, starts_with-append,
  starts_with-cancel,
}
use identt.Keys.{
  KeyType, encode_key_type, encode_secondary_key, joined, part_bytes, uint_only, uint, strn, sep,
}
use identt.Keys.Distinct.{key_type_cancel}

-- The text has no ":" in it.
abbrev pub NoSep : Bytes → Type 0
NoSep [] = Unit {0}
NoSep (c ∷ s) = (c ≢ 58) × NoSep s

-- The first ":" ends the first part.
split_at_sep :
    (a b s t : Bytes) → NoSep a → NoSep b → a ++ (sep ++ s) ≡ b ++ (sep ++ t) → (a ≡ b) × (s ≡ t)
split_at_sep [] [] s t h k e = (refl, cc e)
split_at_sep [] (y ∷ b) s t h k e = absurd (k.0 (cc e))
split_at_sep (x ∷ a) [] s t h k e = absurd (h.0 (cc e))
split_at_sep (x ∷ a) (y ∷ b) s t h k e =
    let rest = split_at_sep a b s t h.1 k.1 (cc e) in (cc (rest.0, e), rest.1)

-- A key of two texts determines both, if the first has no ":".
pub encode_secondary_key_inj_two :
    (k : KeyType) (m a n b : Bytes)
    → NoSep m
    → NoSep n
    → encode_secondary_key k (strn m ∷ strn a ∷ []) ≡ encode_secondary_key k (strn n ∷ strn b ∷ [])
    → (m ≡ n) × (a ≡ b)
unfolding encode_secondary_key joined part_bytes
encode_secondary_key_inj_two k m a n b h l e = split_at_sep m n a b h l (key_type_cancel k _ _ e)

-- A key of three texts determines them, if the first two have no ":".
pub encode_secondary_key_inj_three :
    (k : KeyType) (m a c n b d : Bytes)
    → NoSep m
    → NoSep n
    → NoSep a
    → NoSep b
    → encode_secondary_key k (strn m ∷ strn a ∷ strn c ∷ [])
      ≡ encode_secondary_key k (strn n ∷ strn b ∷ strn d ∷ [])
    → (m ≡ n) × (a ≡ b) × (c ≡ d)
unfolding encode_secondary_key joined part_bytes
encode_secondary_key_inj_three k m a c n b d h l p q e =
    let one = split_at_sep m n (a ++ (sep ++ c)) (b ++ (sep ++ d)) h l (key_type_cancel k _ _ e) in
    let two = split_at_sep a b c d p q one.1 in (one.0, two.0, two.1)

-- A ":" moves between the second and the third part and the key stays the same: an address that
-- ends in ":x" with the secret `c` has the key of the address before it with the secret "x:c".
pub secondary_key_clash :
    (k : KeyType) (m a x c : Bytes)
    → encode_secondary_key k (strn m ∷ strn (a ++ (sep ++ x)) ∷ strn c ∷ [])
      ≡ encode_secondary_key k (strn m ∷ strn a ∷ strn (x ++ (sep ++ c)) ∷ [])
unfolding encode_secondary_key joined part_bytes
secondary_key_clash k m a x c =
    ap (λ r. encode_key_type k ++ (m ++ (sep ++ r))) (append_assoc a (sep ++ x) (sep ++ c))

-- The prefix by which an index is scanned for an address is a prefix of the index key of every
-- longer address that begins with it.
pub index_prefix_matches :
    (k : KeyType) (m a x : Bytes) (id : ℕ)
    → starts_with
        (encode_secondary_key k (strn m ∷ strn (a ++ x) ∷ uint id ∷ []))
        (encode_secondary_key k (strn m ∷ strn a ∷ []))
      ≡ true
unfolding encode_secondary_key joined part_bytes
index_prefix_matches k m a x id =
    starts_with-cancel (encode_key_type k) (m ++ 58 ∷ ((a ++ x) ++ 58 ∷ uint_only id)) (m ++ 58 ∷ a)
    ∙ starts_with-cancel m (58 ∷ ((a ++ x) ++ 58 ∷ uint_only id)) (58 ∷ a)
    ∙ starts_with-cancel (58 ∷ []) ((a ++ x) ++ 58 ∷ uint_only id) a
    ∙ ap (λ r. starts_with r a) (append_assoc a x (58 ∷ uint_only id))
    ∙ starts_with-append a (x ++ 58 ∷ uint_only id)
