-- ===== src/Startup/Restored.antt =====
-- Proofs on Initialize of src/store/StoreLevel.cc: the log counter and the log.
use identt.Prelude.{
  ℕ, zero, suc, ◌+◌, ◌-◌, ◌<◌, ◌≤◌, ◌^◌, ◌≡◌, refl, ap, sym, ◌∙◌, subst, List, ◌∷◌, true, false,
  some, beq, beq_iff, beq_ne, if◌then◌else◌, arith, Bool-cases, inl, inr, length, ltb,
}
use identt.Exception.{ok, ◌>>=◌}
use identt.Keys.{KeyType, k_nonode, k_maxnode, k_lognode, encode_primary_key}
use identt.Keys.Distinct.{encode_primary_key_inj}
use identt.Engine.Ordered.{lookup}
use identt.Engine.Sorted.{with_prefix}
use identt.Messages.{Transaction}
use identt.Server.{World}
use identt.Startup.{initialize, read_counters, fences, last_id, last_ids, counter_of}
use identt.Startup.Fences.{IsStore, fences-Grown, fences_there, fences_ok, Puts}
use identt.Startup.Counters.{last_id_bound, last_id-ok}
use identt.Startup.LogKept.{lookup-with_prefix, log_ids, log_has}
use identt.Trans.Log.{log_prefix, log_key, log_key_prefix, log_entries, Numbered}

less_one : (k : ℕ) → k ≡ suc k - 1
less_one k = omega arith

module _ {Value Db : Type 0} (w : World Value Db) where
  -- A fixed record of each type.
  abbrev HasFences : Db → Type 0
  HasFences d =
      (k : KeyType)
      → k_nonode ≤ k
      → k ≤ k_maxnode
      → (v : Value) × (lookup (encode_primary_key k 0) (w.engine.view d) ≡ some v)

  last_ids_step :
      (d : Db) (n k l m r : ℕ)
      → last_id w "Some fixed records missing" "Some zero records missing" d (suc k) k l ≡ ok m
      → last_ids w d n k m ≡ ok r
      → last_ids w d (suc n) (suc k) l ≡ ok r
  unfolding last_ids
  last_ids_step d n k l m r first rest =
      subst
        (λ x.
          (last_id w "Some fixed records missing" "Some zero records missing" d (suc k) x l
            >>= λ id. last_ids w d n x id)
          ≡ ok r)
        (less_one k) (rw first rest)

  last_ids-ok :
      (d : Db) (n k l : ℕ)
      → IsStore (w.engine.view d)
      → HasFences d
      → k_nonode + n ≤ k
      → k ≤ k_lognode
      → (r : ℕ) × (last_ids w d n k l ≡ ok r)
  unfolding last_ids
  last_ids-ok d zero k l store has a b = (l, refl)
  last_ids-ok d (suc n) zero l store has a b = absurd (omega arith)
  last_ids-ok d (suc n) (suc k) l store has a b =
      let (id, small, stored, read) =
        last_id-ok w "Some fixed records missing" "Some zero records missing" d k l
          (has k (omega arith) (omega arith)).0 (has (suc k) (omega arith) (omega arith)).0
          (omega arith) store (has k (omega arith) (omega arith)).1
          (has (suc k) (omega arith) (omega arith)).1 in
      let (r, rest) =
        last_ids-ok d n k (if ltb l id then id else l) store has (omega arith) (omega arith) in
      (r, last_ids_step d n k l (if ltb l id then id else l) r read rest)

  -- The counters of a store with its fixed records are read, and the log's is that of its last id.
  counters_read :
      (d : Db)
      → IsStore (w.engine.view d)
      → HasFences d
      → (pkey lkey : ℕ) × (lkey < 2 ^ 64)
        × ((x : Value) × (lookup (log_key lkey) (w.engine.view d) ≡ some x))
        × ((id : ℕ) (v : Value)
            → id < 2 ^ 64
            → lookup (log_key id) (w.engine.view d) ≡ some v
            → id ≤ lkey)
        × (read_counters w (true, d) 0 0 ≡ ok (d, pkey, lkey))
  unfolding read_counters
  counters_read d store has =
      let (id, small, stored, read) =
        last_id-ok w "Fixed record K_MAXNODE missing" "Zero record before K_MAXNODE missing" d
          k_lognode 0 (has k_lognode (omega arith) (omega arith)).0
          (has k_maxnode (omega arith) (omega arith)).0 (omega arith) store
          (has k_lognode (omega arith) (omega arith)).1
          (has k_maxnode (omega arith) (omega arith)).1 in
      let same : (if ltb 0 id then id else 0) ≡ id = ground arith in
      let read' : last_id w "Fixed record K_MAXNODE missing" "Zero record before K_MAXNODE missing"
            d k_maxnode k_lognode 0
          ≡ ok id =
        read ∙ ap (λ x. ok x) same in
      let (pkey, ids) = last_ids-ok d 13 k_lognode 0 store has (omega arith) (omega arith) in
      (
        pkey,
        id,
        small,
        stored,
        (last_id_bound w "Fixed record K_MAXNODE missing" "Zero record before K_MAXNODE missing" d
            k_lognode 0 id (omega arith) store read').1,
        rw (read', ids),
      )

  -- A store with a fixed record of each type is read once the fences are written.
  pub started :
      (d : Db)
      → Puts w
      → IsStore (w.engine.view d)
      → let e : Db = (fences w 15 k_nonode (true, d)).1 in
        (pkey lkey : ℕ) × (lkey < 2 ^ 64)
        × ((x : Value) × (lookup (log_key lkey) (w.engine.view e) ≡ some x))
        × ((id : ℕ) (v : Value)
            → id < 2 ^ 64
            → lookup (log_key id) (w.engine.view e) ≡ some v
            → id ≤ lkey)
        × (initialize w (some d) 0 0 ≡ ok (e, pkey, lkey))
  unfolding initialize
  started d puts store =
      let status : (fences w 15 k_nonode (true, d)).0 ≡ true =
        fences_ok w puts 15 k_nonode (true, d) refl in
      let grown = fences-Grown w 15 k_nonode (true, d) (omega arith) in
      let (pkey, lkey, small, stored, ids, read) =
        counters_read (fences w 15 k_nonode (true, d)).1 (grown.store store)
          (λ k a b. fences_there w puts 15 k_nonode (true, d) (omega arith) k a (omega arith)) in
      (pkey, lkey, small, stored, ids, rw status read)

  module _ (d : Db) (f : Value) (ts : List (Transaction Value))
      (entries : with_prefix log_prefix (w.engine.view d) ≡ (log_key 0, f) ∷ log_entries w ts)
      (numbered : Numbered 2 ts) (fits : 2 + length ts ≤ 2 ^ 64) where
    seen :
        (id : ℕ)
        → lookup (log_key id) (w.engine.view d)
          ≡ lookup (log_key id) ((log_key 0, f) ∷ log_entries w ts)
    seen id =
        sym (lookup-with_prefix log_prefix (log_key id) (w.engine.view d) (log_key_prefix id))
        ∙ ap (lookup (log_key id)) entries

    log_upper :
        (id : ℕ) (x : Value)
        → id < 2 ^ 64
        → lookup (log_key id) (w.engine.view d) ≡ some x
        → id < 2 + length ts
    unfolding lookup
    log_upper id x small stored = elim (Bool-cases (beq (log_key 0) (log_key id))) [
      | inl same ↦
          let it : 0 ≡ id =
            encode_primary_key_inj k_lognode 0 id (omega arith) small
              ((beq_iff (log_key 0) (log_key id)).0 same) in
          omega (arith, it)
      | inr differ ↦ log_ids w 2 id x ts numbered fits small (ground (arith, seen id))
    ]

    log_stored :
        (id : ℕ)
        → 2 ≤ id
        → id < 2 + length ts
        → (v : Value) × (lookup (log_key id) (w.engine.view d) ≡ some v)
    unfolding lookup
    log_stored id a b =
        let (v, stored) = log_has w 2 id ts numbered a b in
        let differ : beq (log_key 0) (log_key id) ≡ false = beq_ne (log_key 0) (log_key id) (λ e.
          omega (arith, encode_primary_key_inj k_lognode 0 id (omega arith) (omega arith) e)) in
        (v, seen id ∙ rw differ stored)

    -- The id of the greatest log key is that of the last entry of the log.
    pub last_log_id :
        (lkey : ℕ) (x : Value)
        → lkey < 2 ^ 64
        → lookup (log_key lkey) (w.engine.view d) ≡ some x
        → ((id : ℕ) (v : Value)
            → id < 2 ^ 64
            → lookup (log_key id) (w.engine.view d) ≡ some v
            → id ≤ lkey)
        → counter_of w lkey ≡ 1 + length ts
    unfolding counter_of
    last_log_id lkey x small stored ids = elim (Bool-cases (ltb 0 (length ts))) [
      | inl more ↦
          let (v, there) = log_stored (1 + length ts) (ground arith) (omega arith) in
          let lower = ids (1 + length ts) v (omega (arith, fits)) there in
          let upper = log_upper lkey x small stored in ground arith
      | inr none_ ↦ let upper = log_upper lkey x small stored in ground arith
    ]
