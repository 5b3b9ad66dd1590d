-- ===== src/Startup/LogKept.antt =====
-- Proofs on the fixed records of src/store/StoreLevel.cc and the log.
use identt.Prelude.{
  ℕ, zero, suc, ◌+◌, ◌<◌, ◌≤◌, ◌^◌, ◌≡◌, ◌≢◌, refl, ap, sym, ◌∙◌, subst, Bytes, List, [], ◌∷◌, Bool,
  true, false, none, some, ◌==◌, beq, beq_iff, beq_refl, starts_with, arith, Bool-cases, inl, inr,
  length,
}
use identt.Keys.{KeyType, k_maxnode, k_lognode, encode_primary_key, uint_only}
use identt.Keys.Order.{starts_with-encode_key_type}
use identt.Keys.Distinct.{encode_primary_key_inj}
use identt.Engine.Ordered.{Entries, lookup, insert}
use identt.Engine.Sorted.{with_prefix}
use identt.Engine.Scan.{with_prefix-insert}
use identt.Messages.{Transaction}
use identt.Server.{World}
use identt.Startup.{fence, fences}
use identt.Startup.Fences.{IsStore, fence-Fenced, fence-Grown, there, put, failed, Puts}
use identt.Trans.Log.{log_prefix, log_key, log_key_prefix, log_entries, Numbered}

module _ {Value : Type 0} where
  pub lookup_first : (k : Bytes) (v : Value) (m : Entries Value) → lookup k ((k, v) ∷ m) ≡ some v
  unfolding lookup
  lookup_first k v m = rw (beq_refl k)

  pub lookup-with_prefix :
      (p k : Bytes) (m : Entries Value)
      → starts_with k p ≡ true
      → lookup k (with_prefix p m) ≡ lookup k m
  unfolding lookup with_prefix
  lookup-with_prefix p k [] h = refl
  lookup-with_prefix p k ((j, v) ∷ m) h = ground (arith, beq_iff j k, lookup-with_prefix p k m)

module _ {Value Db : Type 0} (w : World Value Db) where
  -- A log of numbered transactions has the ids from the first on, and no other.
  pub log_ids :
      (n id : ℕ) (v : Value) (ts : List (Transaction Value))
      → Numbered n ts
      → n + length ts ≤ 2 ^ 64
      → id < 2 ^ 64
      → lookup (log_key id) (log_entries w ts) ≡ some v
      → id < n + length ts
  unfolding lookup log_entries
  log_ids n id v [] h l f g = cc
  log_ids n id v (t ∷ ts) h l f g = elim (Bool-cases (beq (log_key t.id) (log_key id))) [
    | inl same ↦
        let it : t.id ≡ id =
          encode_primary_key_inj k_lognode t.id id (omega (arith, h.0)) f
            ((beq_iff (log_key t.id) (log_key id)).0 same) in
        omega (arith, it, h.0)
    | inr differ ↦ omega (arith, log_ids (suc n) id v ts h.1 (omega arith) f (ground arith))
  ]

  pub log_has :
      (n id : ℕ) (ts : List (Transaction Value))
      → Numbered n ts
      → n ≤ id
      → id < n + length ts
      → (v : Value) × (lookup (log_key id) (log_entries w ts) ≡ some v)
  unfolding lookup log_entries
  log_has n id [] h a b = absurd (omega arith)
  log_has n id (t ∷ ts) h a b = elim (Bool-cases (beq (log_key t.id) (log_key id))) [
    | inl same ↦ (w.transaction.serialize t, rw same)
    | inr differ ↦
        let other : id ≢ n =
          λ e. ground (arith, beq_iff (log_key t.id) (log_key id), ap log_key (h.0 ∙ sym e)) in
        let (v, stored) = log_has (suc n) id ts h.1 (omega (arith, other)) (omega arith) in
        (v, rw differ stored)
  ]

  not_log_key :
      (k : KeyType)
      → k < 256
      → k ≢ k_lognode
      → starts_with (encode_primary_key k 0) log_prefix ≡ false
  unfolding encode_primary_key
  not_log_key k h n =
      starts_with-encode_key_type k k_lognode (uint_only 0) h (omega arith) ∙ ground arith

  put_other :
      (d e : Db) (k : KeyType)
      → k < 256
      → k ≢ k_lognode
      → IsStore (w.engine.view d)
      → w.engine.put d (encode_primary_key k 0) w.engine.empty ≡ some e
      → with_prefix log_prefix (w.engine.view e) ≡ with_prefix log_prefix (w.engine.view d)
  put_other d e k small n store done =
      ap (with_prefix log_prefix)
        (w.engine.put-view d e (encode_primary_key k 0) w.engine.empty done)
      ∙ with_prefix-insert log_prefix (encode_primary_key k 0) w.engine.empty (w.engine.view d)
          store.sorted
      ∙ rw (not_log_key k small n)

  -- A round of another type, or with the fence of the log there, leaves the log.
  fence_keeps_log :
      (k : KeyType) (d : Db)
      → k ≤ k_maxnode
      → IsStore (w.engine.view d)
      → (k ≡ k_lognode → w.engine.get d (log_key 0) ≢ none)
      → with_prefix log_prefix (w.engine.view (fence w k d).1)
        ≡ with_prefix log_prefix (w.engine.view d)
  fence_keeps_log k d h store has = elim (fence-Fenced w k d) [
    | there v found s ↦ ap (λ x. with_prefix log_prefix (w.engine.view x.1)) s
    | failed missing refused s ↦ ap (λ x. with_prefix log_prefix (w.engine.view x.1)) s
    | put e missing done s ↦
        ap (λ x. with_prefix log_prefix (w.engine.view x.1)) s
        ∙ put_other d e k (omega (arith, h))
            (λ same.
              has same (ap (λ x. w.engine.get d (encode_primary_key x 0)) (sym same) ∙ missing))
            store done
  ]

  pub fences_keep_log :
      (n : ℕ) (k : KeyType) (s : Bool × Db) (f : Value)
      → k + n ≤ suc k_maxnode
      → IsStore (w.engine.view s.1)
      → lookup (log_key 0) (w.engine.view s.1) ≡ some f
      → with_prefix log_prefix (w.engine.view (fences w n k s).1)
        ≡ with_prefix log_prefix (w.engine.view s.1)
  unfolding fences
  fences_keep_log zero k s f h store has = refl
  fences_keep_log (suc n) k s f h store has =
      let grown = fence-Grown w k s.1 (omega arith) in
      fences_keep_log n (suc k) (fence w k s.1) f (omega arith) (grown.store store)
        (grown.within (log_key 0) f has)
      ∙ fence_keeps_log k s.1 (omega arith) store
          (λ same missing. cc (w.engine.get-view s.1 (log_key 0), missing, has))

  fence_begins :
      Puts w
      → (d : Db) → IsStore (w.engine.view d)
      → with_prefix log_prefix (w.engine.view d) ≡ []
      → with_prefix log_prefix (w.engine.view (fence w k_lognode d).1)
        ≡ (log_key 0, w.engine.empty) ∷ []
  unfolding lookup insert
  fence_begins puts d store new = elim (fence-Fenced w k_lognode d) [
    | there v found s ↦ absurd (
        cc (
          sym (lookup-with_prefix log_prefix (log_key 0) (w.engine.view d) (log_key_prefix 0))
              ∙ ap (lookup (log_key 0)) new,
          w.engine.get-view d (log_key 0),
          found,
        ))
    | failed missing refused s ↦ absurd (puts d (log_key 0) w.engine.empty refused)
    | put e missing done s ↦
        ap (λ x. with_prefix log_prefix (w.engine.view x.1)) s
        ∙ ap (with_prefix log_prefix) (w.engine.put-view d e (log_key 0) w.engine.empty done)
        ∙ with_prefix-insert log_prefix (log_key 0) w.engine.empty (w.engine.view d) store.sorted
        ∙ rw (log_key_prefix 0, new)
  ]

  pub fences_begin :
      Puts w
      → (n : ℕ) (k : KeyType) (s : Bool × Db) → k + n ≤ suc k_maxnode
      → k ≤ k_lognode
      → k_lognode < k + n
      → IsStore (w.engine.view s.1)
      → with_prefix log_prefix (w.engine.view s.1) ≡ []
      → with_prefix log_prefix (w.engine.view (fences w n k s).1) ≡ (log_key 0, w.engine.empty) ∷ []
  unfolding fences
  fences_begin puts zero k s h a b store new = absurd (omega arith)
  fences_begin puts (suc n) k s h a b store new = elim (Bool-cases (k == k_lognode)) [
    | inl same ↦
        let it : k ≡ k_lognode = ground arith in
        let begun : with_prefix log_prefix (w.engine.view (fence w k s.1).1)
            ≡ (log_key 0, w.engine.empty) ∷ [] =
          subst
            (λ x.
              with_prefix log_prefix (w.engine.view (fence w x s.1).1)
              ≡ (log_key 0, w.engine.empty) ∷ [])
            (sym it) (fence_begins puts s.1 store new) in
        fences_keep_log n (suc k) (fence w k s.1) w.engine.empty (omega arith)
          ((fence-Grown w k s.1 (omega arith)).store store)
          (sym (
              lookup-with_prefix log_prefix (log_key 0) (w.engine.view (fence w k s.1).1)
                (log_key_prefix 0))
            ∙ ap (lookup (log_key 0)) begun
            ∙ lookup_first (log_key 0) w.engine.empty [])
        ∙ begun
    | inr differ ↦
        fences_begin puts n (suc k) (fence w k s.1) (omega arith) (ground arith) (omega arith)
          ((fence-Grown w k s.1 (omega arith)).store store)
          (fence_keeps_log k s.1 (omega arith) store (λ same. absurd (ground arith)) ∙ new)
  ]
