-- ===== src/Startup/Last.antt =====
-- Where an iterator stands after `Seek` and `Prev`, on entries in key order.
use identt.Prelude.{
  ◌≡◌, ap, sym, ◌∙◌, subst, Bytes, [], ◌∷◌, true, false, none, some, beq, blt, beq_iff, beq_refl,
  blt_irrefl, blt_trans, arith, Bool-cases, Option-cases, inl, inr,
}
use identt.Engine.Ordered.{Entries, lookup, from, until}
use identt.Engine.Sorted.{Above, IsSorted}
use identt.Trans.{is_empty}
use identt.Startup.{last}

blt_asym : (a b : Bytes) → blt a b ≡ true → blt b a ≡ false
blt_asym a b h = elim (Bool-cases (blt b a)) [
  | inr n ↦ n
  | inl back ↦ cc (blt_trans a b a h back, blt_irrefl a)
]

-- What is above a key is another key.
above_ne : (i j : Bytes) → blt i j ≡ true → beq i j ≡ false
above_ne i j h = ground (arith, beq_iff i j, blt_irrefl i)

module _ {Value : Type 0} where
  Above-lookup :
      (i j : Bytes) (v : Value) (m : Entries Value)
      → Above i m
      → lookup j m ≡ some v
      → blt i j ≡ true
  unfolding lookup
  Above-lookup i j v [] a h = cc
  Above-lookup i j v ((k, u) ∷ m) a h = ground (arith, beq_iff k j, Above-lookup i j v m a.1)

  -- The iterator stands on the entry `e`, below `q`.
  pub record Stands (q : Bytes) (m : Entries Value) (e : Bytes × Value) : Type 0 where
    pub is_last : last (until q m) ≡ some e
    pub below : blt e.0 q ≡ true
    pub stored : lookup e.0 m ≡ some e.1

  Stands-later :
      (q i : Bytes) (u : Value) (m : Entries Value) (e : Bytes × Value)
      → Above i m
      → blt i q ≡ true
      → Stands q m e
      → Stands q ((i, u) ∷ m) e
  unfolding last until lookup
  Stands-later q i u m e a h s = record {
    is_last = rw h (rw (s.is_last, last));
    below = s.below;
    stored = rw (above_ne i e.0 (Above-lookup i e.0 e.1 m a s.stored)) s.stored;
  }

  Stands-here :
      (q i : Bytes) (u : Value) (m : Entries Value)
      → blt i q ≡ true
      → last (until q m) ≡ none
      → Stands q ((i, u) ∷ m) (i, u)
  unfolding last until lookup
  Stands-here q i u m h e = record {
    is_last = rw h (rw (e, last));
    below = h;
    stored = rw (beq_refl i);
  }

  -- The last entry below `q` is below it and is stored.
  pub last-Stands :
      (q : Bytes) (m : Entries Value) (e : Bytes × Value)
      → IsSorted m
      → last (until q m) ≡ some e
      → Stands q m e
  unfolding last until
  last-Stands q [] e o h = cc
  last-Stands q ((i, u) ∷ m) e o h = elim (Bool-cases (blt i q)) [
    | inr above ↦ absurd (ground arith)
    | inl under ↦ elim (Option-cases (last (until q m))) [
      | inr (f, found) ↦
          let same : f ≡ e = ground arith in
          Stands-later q i u m e o.0 under (last-Stands q m e o.1 (found ∙ ap (λ x. some x) same))
      | inl nothing ↦
          let same : (i, u) ≡ e = ground arith in
          subst (Stands q ((i, u) ∷ m)) same (Stands-here q i u m under nothing)
    ]
  ]

  -- From a stored key below `q`, the iterator comes to it or to a later one.
  pub Stands-exists :
      (q j : Bytes) (v : Value) (m : Entries Value)
      → IsSorted m
      → lookup j m ≡ some v
      → blt j q ≡ true
      → (e : Bytes × Value) × Stands q m e × (blt e.0 j ≡ false)
  unfolding last until lookup
  Stands-exists q j v [] o h b = cc
  Stands-exists q j v ((i, u) ∷ m) o h b = elim (Bool-cases (beq i j)) [
    | inr differ ↦
        let later : lookup j m ≡ some v = ground arith in
        let (e, s, n) = Stands-exists q j v m o.1 later b in
        (e, Stands-later q i u m e o.0 (blt_trans i j q (Above-lookup i j v m o.0 later) b) s, n)
    | inl same ↦
        let it : i ≡ j = (beq_iff i j).0 same in
        let under : blt i q ≡ true = ap (λ x. blt x q) it ∙ b in
        elim (Option-cases (last (until q m))) [
          | inl nothing ↦
              ((i, u), Stands-here q i u m under nothing, ap (λ x. blt x j) it ∙ blt_irrefl j)
          | inr (e, found) ↦
              let s = last-Stands q m e o.1 found in
              let above : blt i e.0 ≡ true = Above-lookup i e.0 e.1 m o.0 s.stored in
              (e, Stands-later q i u m e o.0 under s, ap (blt e.0) (sym it) ∙ blt_asym i e.0 above)
        ]
  ]

  -- A stored key at or after `q` makes a `Seek` to it valid.
  pub from_not_empty :
      (q j : Bytes) (v : Value) (m : Entries Value)
      → lookup j m ≡ some v
      → blt j q ≡ false
      → is_empty (from q m) ≡ false
  unfolding from lookup
  from_not_empty q j v [] h b = cc
  from_not_empty q j v ((i, u) ∷ m) h b = ground (arith, beq_iff i j, from_not_empty q j v m)
