-- ===== src/Engine/Ordered.antt =====
-- An ordered map as a list of keys and values: what the engine promises.
use identt.Prelude.{
  ◌≡◌, refl, Bytes, Option, none, some, List, [], ◌∷◌, beq, blt, beq_iff, if◌then◌else◌, arith,
}

abbrev pub Entries : Type 0 → Type 0
Entries Value = List (Bytes × Value)

-- One operation of a write batch.
pub data Op (Value : Type 0) : Type 0 where
  put_op : Bytes → Value → Op Value
  delete_op : Bytes → Op Value

module _ {Value : Type 0} where
  unfoldable pub lookup : Bytes → Entries Value → Option Value
  lookup k [] = none
  lookup k ((j, v) ∷ m) = if beq j k then some v else lookup k m

  unfoldable pub insert : Bytes → Value → Entries Value → Entries Value
  insert k v [] = (k, v) ∷ []
  insert k v ((j, w) ∷ m) =
      let rest = insert k v m in
      if beq j k then (k, v) ∷ m else if blt k j then (k, v) ∷ (j, w) ∷ m else (j, w) ∷ rest

  unfoldable pub erase : Bytes → Entries Value → Entries Value
  erase k [] = []
  erase k ((j, w) ∷ m) = let rest = erase k m in if beq j k then rest else (j, w) ∷ rest

  unfoldable pub apply_op : Op Value → Entries Value → Entries Value
  apply_op (put_op k v) m = insert k v m
  apply_op (delete_op k) m = erase k m

  unfoldable pub apply : List (Op Value) → Entries Value → Entries Value
  apply [] m = m
  apply (op ∷ ops) m = apply ops (apply_op op m)

  -- The entries at or after a key.
  unfoldable pub from : Bytes → Entries Value → Entries Value
  from k [] = []
  from k ((j, v) ∷ m) = if blt j k then from k m else (j, v) ∷ m

  -- The entries before a key.
  unfoldable pub until : Bytes → Entries Value → Entries Value
  until k [] = []
  until k ((j, v) ∷ m) = let rest = until k m in if blt j k then (j, v) ∷ rest else []

  pub lookup-insert :
      (k j : Bytes) (v : Value) (m : Entries Value)
      → lookup j (insert k v m) ≡ (if beq k j then some v else lookup j m)
  unfolding lookup insert
  lookup-insert k j v [] = refl
  lookup-insert k j v ((i, w) ∷ m) =
      ground (arith, beq_iff k j, beq_iff i k, beq_iff i j, lookup-insert k j v m)

  pub lookup-erase :
      (k j : Bytes) (m : Entries Value)
      → lookup j (erase k m) ≡ (if beq k j then none else lookup j m)
  unfolding lookup erase
  lookup-erase k j [] = ground arith
  lookup-erase k j ((i, w) ∷ m) =
      ground (arith, beq_iff k j, beq_iff i k, beq_iff i j, lookup-erase k j m)

  -- What a batch leaves under a key: its last operation on the key decides.
  unfoldable pub after_op : Op Value → Bytes → Option Value → Option Value
  after_op (put_op k v) j old = if beq k j then some v else old
  after_op (delete_op k) j old = if beq k j then none else old

  unfoldable pub after_ops : List (Op Value) → Bytes → Option Value → Option Value
  after_ops [] j old = old
  after_ops (op ∷ ops) j old = after_ops ops j (after_op op j old)

  lookup-apply_op :
      (op : Op Value) (j : Bytes) (m : Entries Value)
      → lookup j (apply_op op m) ≡ after_op op j (lookup j m)
  unfolding apply_op after_op
  lookup-apply_op (put_op k v) j m = lookup-insert k j v m
  lookup-apply_op (delete_op k) j m = lookup-erase k j m

  pub lookup-apply :
      (ops : List (Op Value)) (j : Bytes) (m : Entries Value)
      → lookup j (apply ops m) ≡ after_ops ops j (lookup j m)
  unfolding apply after_ops
  lookup-apply [] j m = refl
  lookup-apply (op ∷ ops) j m = rw (lookup-apply ops j (apply_op op m), lookup-apply_op op j m)
