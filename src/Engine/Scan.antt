-- ===== src/Engine/Scan.antt =====
-- What an iteration over a prefix sees, and how writes change it.
use identt.Prelude.{
  ◌≡◌, refl, ap, sym, Bytes, [], ◌∷◌, true, false, blt, beq_iff, blt_irrefl, starts_with,
  if◌then◌else◌, arith, Bool-cases, inl, inr,
}
use identt.Engine.Ordered.{Entries, insert, erase, from}
use identt.Engine.Sorted.{
  Above, IsSorted, Above-trans, with_prefix, while_prefix, prefix_interval, not_below,
}

module _ {Value : Type 0} where
  Above-with_prefix : (k p : Bytes) (m : Entries Value) → Above k m → Above k (with_prefix p m)
  unfolding with_prefix
  Above-with_prefix k p [] a = tt
  Above-with_prefix k p ((j, v) ∷ m) a = ground (arith, Above-with_prefix k p m a.1)

  pub insert_first :
      (k : Bytes) (v : Value) (m : Entries Value) → Above k m → insert k v m ≡ (k, v) ∷ m
  unfolding insert
  insert_first k v [] a = refl
  insert_first k v ((j, w) ∷ m) a = ground (arith, beq_iff j k, blt_irrefl k)

  -- A write of a key without the prefix is not seen; one with it is made in what is seen.
  pub with_prefix-insert :
      (p k : Bytes) (v : Value) (m : Entries Value)
      → IsSorted m
      → with_prefix p (insert k v m)
        ≡ (if starts_with k p then insert k v (with_prefix p m) else with_prefix p m)
  unfolding with_prefix insert
  with_prefix-insert p k v [] s = refl
  with_prefix-insert p k v ((j, w) ∷ m) s = ground (
    arith,
    beq_iff j k,
    with_prefix-insert p k v m s.1,
    λ (b : blt k j ≡ true).
        insert_first k v (with_prefix p m) (Above-with_prefix k p m (Above-trans k j m b s.0)),
  )

  pub with_prefix-erase :
      (p k : Bytes) (m : Entries Value)
      → with_prefix p (erase k m)
        ≡ (if starts_with k p then erase k (with_prefix p m) else with_prefix p m)
  unfolding with_prefix erase
  with_prefix-erase p k [] = ground arith
  with_prefix-erase p k ((j, w) ∷ m) = ground (arith, beq_iff j k, with_prefix-erase p k m)

  none_later :
      (p s j : Bytes) (m : Entries Value)
      → starts_with s p ≡ true
      → blt j s ≡ false
      → starts_with j p ≡ false
      → Above j m
      → with_prefix p m ≡ []
  unfolding with_prefix
  none_later p s j [] a b c d = refl
  none_later p s j ((k, v) ∷ m) a b c d =
      rw (prefix_interval p s j k a b c d.0) (none_later p s j m a b c d.1)

  all_later :
      (p s j : Bytes) (m : Entries Value)
      → starts_with s p ≡ true
      → blt j s ≡ false
      → Above j m
      → IsSorted m
      → while_prefix p m ≡ with_prefix p m
  unfolding while_prefix with_prefix
  all_later p s j [] a b d o = refl
  all_later p s j ((k, v) ∷ m) a b d o = elim (Bool-cases (starts_with k p)) [
    | inl h ↦ rw h (ap (◌∷◌ (k, v)) (all_later p s k m a (not_below j k s d.0 b) o.0 o.1))
    | inr h ↦ rw h (sym (none_later p s k m a (not_below j k s d.0 b) h o.0))
  ]

  -- An iteration from a start that has the prefix sees the entries with the prefix at or after
  -- the start, all of them and no other.
  pub while_prefix-from :
      (p s : Bytes) (m : Entries Value)
      → starts_with s p ≡ true
      → IsSorted m
      → while_prefix p (from s m) ≡ from s (with_prefix p m)
  unfolding while_prefix with_prefix from
  while_prefix-from p s [] a o = refl
  while_prefix-from p s ((j, v) ∷ m) a o = elim (Bool-cases (blt j s)) [
    | inl below ↦ ground (arith, below, while_prefix-from p s m a o.1)
    | inr here ↦ ground (
      arith,
      here,
      all_later p s j m a here o.0 o.1,
      λ (h : starts_with j p ≡ false). none_later p s j m a here h o.0,
    )
  ]
