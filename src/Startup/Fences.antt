-- ===== src/Startup/Fences.antt =====
-- The fixed records that the start puts, and the entries of a store: in key order, every key with
-- its type, and a primary key for each type up to K_MAXNODE.
use identt.Prelude.{
  ℕ, zero, suc, ◌^◌, ◌<◌, ◌≤◌, ◌≡◌, refl, ap, sym, ◌∙◌, subst, Bytes, [], ◌∷◌, ◌++◌, ◌+◌, ◌==◌, ◌≢◌,
  beq_refl, Bool, true, false, none, some, beq, beq_iff, arith, Bool-cases, Option-cases, inl, inr,
}
use identt.Keys.{KeyType, k_maxnode, encode_key_type, encode_primary_key, uint_only}
use identt.Engine.Ordered.{Entries, lookup, insert, lookup-insert}
use identt.Engine.Sorted.{IsSorted, insert-IsSorted}
use identt.Server.{World}
use identt.Startup.{put_fence, fence, fences}

pub record IsKeyed (key : Bytes) : Type 0 where
  pub keytype : KeyType
  pub small : keytype < 256
  pub rest : Bytes
  pub split : key ≡ encode_key_type keytype ++ rest
  pub primary :
      keytype ≤ k_maxnode → (id : ℕ) × (id < 2 ^ 64) × (key ≡ encode_primary_key keytype id)

pub primary-IsKeyed :
    (k : KeyType) (id : ℕ) → k ≤ k_maxnode → id < 2 ^ 64 → IsKeyed (encode_primary_key k id)
unfolding encode_primary_key
primary-IsKeyed k id h l = record {
  keytype = k;
  small = omega arith;
  rest = uint_only id;
  split = refl;
  primary = λ p. (id, l, refl);
}

abbrev pub AllKeyed : {Value : Type 0} → Entries Value → Type 0
AllKeyed [] = Unit {0}
AllKeyed ((j, v) ∷ m) = IsKeyed j × AllKeyed m

module _ {Value : Type 0} where
  pub insert-AllKeyed :
      (k : Bytes) (v : Value) (m : Entries Value) → IsKeyed k → AllKeyed m → AllKeyed (insert k v m)
  unfolding insert
  insert-AllKeyed k v [] h a = (h, tt)
  insert-AllKeyed k v ((j, w) ∷ m) h a = ground (arith, insert-AllKeyed k v m h a.1)

  pub AllKeyed-lookup :
      (k : Bytes) (v : Value) (m : Entries Value) → AllKeyed m → lookup k m ≡ some v → IsKeyed k
  unfolding lookup
  AllKeyed-lookup k v [] a h = cc
  AllKeyed-lookup k v ((j, w) ∷ m) a h = elim (Bool-cases (beq j k)) [
    | inl same ↦ subst IsKeyed ((beq_iff j k).0 same) a.0
    | inr differ ↦ AllKeyed-lookup k v m a.1 (ground arith)
  ]

  pub record IsStore (m : Entries Value) : Type 0 where
    pub sorted : IsSorted m
    pub keyed : AllKeyed m

  -- Every entry of the first is in the second.
  abbrev pub Within : Entries Value → Entries Value → Type 0
  Within m n = (j : Bytes) (v : Value) → lookup j m ≡ some v → lookup j n ≡ some v

module _ {Value Db : Type 0} (w : World Value Db) where
  -- What a round of the loop has done.
  pub data Fenced (k : KeyType) (d : Db) (s : Bool × Db) : Type 0 where
    there :
        (v : Value)
        → w.engine.get d (encode_primary_key k 0) ≡ some v
        → s ≡ (true, d)
        → Fenced k d s
    put :
        (e : Db)
        → w.engine.get d (encode_primary_key k 0) ≡ none
        → w.engine.put d (encode_primary_key k 0) w.engine.empty ≡ some e
        → s ≡ (true, e)
        → Fenced k d s
    failed :
        w.engine.get d (encode_primary_key k 0) ≡ none
        → w.engine.put d (encode_primary_key k 0) w.engine.empty ≡ none
        → s ≡ (false, d)
        → Fenced k d s

  pub fence-Fenced : (k : KeyType) (d : Db) → Fenced k d (fence w k d)
  unfolding fence put_fence
  fence-Fenced k d = elim (Option-cases (w.engine.get d (encode_primary_key k 0))) [
    | inr (v, found) ↦ there v found (rw (found, fence))
    | inl missing ↦ elim (Option-cases (w.engine.put d (encode_primary_key k 0) w.engine.empty)) [
      | inr (e, done) ↦ put e missing done (rw (missing, fence) (rw (done, put_fence)))
      | inl refused ↦ failed missing refused (rw (missing, fence) (rw (refused, put_fence)))
    ]
  ]

  -- The entries are still a store, and what was there is still there.
  pub record Grown (d e : Db) : Type 0 where
    pub store : IsStore (w.engine.view d) → IsStore (w.engine.view e)
    pub within : Within (w.engine.view d) (w.engine.view e)

  Grown-refl : (d : Db) → Grown d d
  Grown-refl d = record { store = λ s. s; within = λ j v h. h }

  Grown-trans : (d e f : Db) → Grown d e → Grown e f → Grown d f
  Grown-trans d e f a b = record {
    store = λ s. b.store (a.store s);
    within = λ j v h. b.within j v (a.within j v h);
  }

  put-Grown :
      (d e : Db) (k : Bytes) (v : Value)
      → IsKeyed k
      → w.engine.get d k ≡ none
      → w.engine.put d k v ≡ some e
      → Grown d e
  put-Grown d e k v keyed missing done = record {
    store = λ s. subst IsStore (sym (w.engine.put-view d e k v done)) (record {
      sorted = insert-IsSorted k v (w.engine.view d) s.sorted;
      keyed = insert-AllKeyed k v (w.engine.view d) keyed s.keyed;
    });
    within = λ j u h.
        ap (lookup j) (w.engine.put-view d e k v done)
        ∙ lookup-insert k j v (w.engine.view d)
        ∙ ground (arith, beq_iff k j, w.engine.get-view d k, missing, h);
  }

  pub fence-Grown : (k : KeyType) (d : Db) → k ≤ k_maxnode → Grown d (fence w k d).1
  fence-Grown k d h = elim (fence-Fenced k d) [
    | there v found s ↦ subst (λ x. Grown d x.1) (sym s) (Grown-refl d)
    | put e missing done s ↦
        subst (λ x. Grown d x.1) (sym s)
          (put-Grown d e (encode_primary_key k 0) w.engine.empty
            (primary-IsKeyed k 0 h (omega arith)) missing done)
    | failed missing refused s ↦ subst (λ x. Grown d x.1) (sym s) (Grown-refl d)
  ]

  pub fences-Grown :
      (n : ℕ) (k : KeyType) (s : Bool × Db) → k + n ≤ suc k_maxnode → Grown s.1 (fences w n k s).1
  unfolding fences
  fences-Grown zero k s h = Grown-refl s.1
  fences-Grown (suc n) k s h =
      Grown-trans s.1 (fence w k s.1).1 (fences w n (suc k) (fence w k s.1)).1
        (fence-Grown k s.1 (omega arith)) (fences-Grown n (suc k) (fence w k s.1) (omega arith))

  -- The writes of the engine succeed.
  abbrev pub Puts : Type 0
  Puts = (d : Db) (k : Bytes) (v : Value) → w.engine.put d k v ≢ none

  fence_there :
      Puts
      → (k : KeyType) (d : Db)
      → (fence w k d ≡ (true, (fence w k d).1))
        × ((v : Value) × (lookup (encode_primary_key k 0) (w.engine.view (fence w k d).1) ≡ some v))
  fence_there puts k d = elim (fence-Fenced k d) [
    | there v found s ↦ (
      s ∙ ap (λ x. (true, x.1)) (sym s),
      (
        v,
        ap (λ x. lookup (encode_primary_key k 0) (w.engine.view x.1)) s
            ∙ sym (w.engine.get-view d (encode_primary_key k 0))
            ∙ found,
      ),
    )
    | put e missing done s ↦ (
      s ∙ ap (λ x. (true, x.1)) (sym s),
      (
        w.engine.empty,
        ap (λ x. lookup (encode_primary_key k 0) (w.engine.view x.1)) s
            ∙ ap (lookup (encode_primary_key k 0))
                (w.engine.put-view d e (encode_primary_key k 0) w.engine.empty done)
            ∙ lookup-insert (encode_primary_key k 0) (encode_primary_key k 0) w.engine.empty
                (w.engine.view d)
            ∙ rw (beq_refl (encode_primary_key k 0)),
      ),
    )
    | failed missing refused s ↦ absurd (puts d (encode_primary_key k 0) w.engine.empty refused)
  ]

  -- After the loop there is a fixed record of each type.
  pub fences_there :
      Puts
      → (n : ℕ) (k : KeyType) (s : Bool × Db) → k + n ≤ suc k_maxnode
      → (i : KeyType) → k ≤ i
      → i < k + n
      → (v : Value) × (lookup (encode_primary_key i 0) (w.engine.view (fences w n k s).1) ≡ some v)
  unfolding fences
  fences_there puts zero k s h i a b = absurd (omega arith)
  fences_there puts (suc n) k s h i a b = elim (Bool-cases (k == i)) [
    | inl same ↦
        let (v, stored) = (fence_there puts k s.1).1 in
        (
          v,
          (fences-Grown n (suc k) (fence w k s.1) (omega arith)).within (encode_primary_key i 0) v (
              ap (λ x. lookup (encode_primary_key x 0) (w.engine.view (fence w k s.1).1))
                (ground arith)
              ∙ stored),
        )
    | inr differ ↦
        fences_there puts n (suc k) (fence w k s.1) (omega arith) i (ground arith) (omega arith)
  ]

  fence_ok : Puts → (k : KeyType) (d : Db) → (fence w k d).0 ≡ true
  fence_ok puts k d = ap (λ x. x.0) (fence_there puts k d).0

  pub fences_ok :
      Puts → (n : ℕ) (k : KeyType) (s : Bool × Db) → s.0 ≡ true → (fences w n k s).0 ≡ true
  unfolding fences
  fences_ok puts zero k s h = h
  fences_ok puts (suc n) k s h = fences_ok puts n (suc k) (fence w k s.1) (fence_ok puts k s.1)
