-- ===== src/Engine/Sorted.antt =====
-- Ordered maps whose keys rise, and the iteration over the keys with a prefix.
use identt.Prelude.{
  ◌≡◌, refl, subst, Bytes, List, [], ◌∷◌, true, false, beq, blt, beq_iff, blt_trans, blt_connex,
  starts_with, if◌then◌else◌, arith, Bool-cases, inl, inr,
}
use identt.Engine.Ordered.{Entries, Op, put_op, delete_op, insert, erase, apply_op, apply}

not_above : (j k : Bytes) → beq j k ≡ false → blt k j ≡ false → blt j k ≡ true
not_above j k d a = elim (Bool-cases (blt j k)) [
  | inl h ↦ h
  | inr h ↦ ground (arith, beq_iff j k, blt_connex j k h a)
]

pub not_below : (j k s : Bytes) → blt j k ≡ true → blt j s ≡ false → blt k s ≡ false
not_below j k s h a = elim (Bool-cases (blt k s)) [
  | inl b ↦ cc (blt_trans j k s h b, a)
  | inr b ↦ b
]

module _ {Value : Type 0} where
  -- Every key of the entries is above `k`.
  abbrev pub Above : Bytes → Entries Value → Type 0
  Above k [] = Unit {0}
  Above k ((j, v) ∷ m) = (blt k j ≡ true) × Above k m

  abbrev pub IsSorted : Entries Value → Type 0
  IsSorted [] = Unit {0}
  IsSorted ((j, v) ∷ m) = Above j m × IsSorted m

  pub Above-trans : (j k : Bytes) (m : Entries Value) → blt j k ≡ true → Above k m → Above j m
  Above-trans j k [] h a = tt
  Above-trans j k ((i, v) ∷ m) h a = (blt_trans j k i h a.0, Above-trans j k m h a.1)

  Above-insert :
      (j k : Bytes) (v : Value) (m : Entries Value)
      → blt j k ≡ true
      → Above j m
      → Above j (insert k v m)
  unfolding insert
  Above-insert j k v [] h a = (h, tt)
  Above-insert j k v ((i, w) ∷ m) h a = ground (arith, Above-insert j k v m h a.1)

  Above-erase : (j k : Bytes) (m : Entries Value) → Above j m → Above j (erase k m)
  unfolding erase
  Above-erase j k [] a = tt
  Above-erase j k ((i, w) ∷ m) a = ground (arith, Above-erase j k m a.1)

  pub insert-IsSorted :
      (k : Bytes) (v : Value) (m : Entries Value) → IsSorted m → IsSorted (insert k v m)
  unfolding insert
  insert-IsSorted k v [] s = (tt, tt)
  insert-IsSorted k v ((j, w) ∷ m) s = elim (Bool-cases (beq j k)) [
    | inl same ↦
        let e : j ≡ k = (beq_iff j k).0 same in rw same (subst (λ i. Above i m × IsSorted m) e s)
    | inr differ ↦ elim (Bool-cases (blt k j)) [
      | inl below ↦ rw (differ, below) ((below, Above-trans k j m below s.0), (s.0, s.1))
      | inr above ↦
          rw (differ, above)
            (Above-insert j k v m (not_above j k differ above) s.0, insert-IsSorted k v m s.1)
    ]
  ]

  pub erase-IsSorted : (k : Bytes) (m : Entries Value) → IsSorted m → IsSorted (erase k m)
  unfolding erase
  erase-IsSorted k [] s = tt
  erase-IsSorted k ((j, w) ∷ m) s = ground (arith, erase-IsSorted k m s.1, Above-erase j k m s.0)

  pub apply-IsSorted :
      (ops : List (Op Value)) (m : Entries Value) → IsSorted m → IsSorted (apply ops m)
  unfolding apply apply_op
  apply-IsSorted [] m s = s
  apply-IsSorted (put_op k v ∷ ops) m s =
      apply-IsSorted ops (insert k v m) (insert-IsSorted k v m s)
  apply-IsSorted (delete_op k ∷ ops) m s = apply-IsSorted ops (erase k m) (erase-IsSorted k m s)

  -- The entries whose key begins with `p`.
  unfoldable pub with_prefix : Bytes → Entries Value → Entries Value
  with_prefix p [] = []
  with_prefix p ((j, v) ∷ m) =
      let rest = with_prefix p m in if starts_with j p then (j, v) ∷ rest else rest

  -- `for (it->Seek(start); it->Valid() && it->key().starts_with(match); it->Next())`: the entries
  -- that the loop sees, from those at or after the start.
  unfoldable pub while_prefix : Bytes → Entries Value → Entries Value
  while_prefix p [] = []
  while_prefix p ((j, v) ∷ m) =
      let rest = while_prefix p m in if starts_with j p then (j, v) ∷ rest else []

-- The keys with a prefix are together: above one of them, the first without it ends them.
pub prefix_interval :
    (p s j k : Bytes)
    → starts_with s p ≡ true
    → blt j s ≡ false
    → starts_with j p ≡ false
    → blt j k ≡ true
    → starts_with k p ≡ false
unfolding starts_with blt
prefix_interval [] s j k a b c d = cc
prefix_interval (x ∷ p) [] j k a b c d = cc
prefix_interval (x ∷ p) (y ∷ s) [] k a b c d = cc
prefix_interval (x ∷ p) (y ∷ s) (z ∷ j) [] a b c d = refl
prefix_interval (x ∷ p) (y ∷ s) (z ∷ j) (w ∷ k) a b c d = ground (arith, prefix_interval p s j k)
