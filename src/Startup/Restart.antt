-- ===== src/Startup/Restart.antt =====
-- Proofs on Initialize of src/store/StoreLevel.cc: the counters and the ids of the store.
use identt.Prelude.{subst, ℕ, ◌^◌, ◌<◌, ◌≤◌, ◌≡◌, Bool, true, false, some, arith}
use identt.Exception.{Result, ok, ◌>>=◌, >>=-eq-ok}
use identt.Keys.{k_nonode, k_maxnode, k_lognode, encode_primary_key}
use identt.Engine.Ordered.{lookup}
use identt.Server.{World}
use identt.Startup.{initialize, read_counters, fences, last_id, last_ids}
use identt.Startup.Fences.{IsStore, Within, fences-Grown}
use identt.Startup.Counters.{last_id_bound, last_ids_bound}

ok_triple :
    {A : Type 0} (f e : A) (p q l m : ℕ)
    → ◌≡◌ {A = Result (A × ℕ × ℕ)} (ok (f, p, l)) (ok (e, q, m))
    → ◌≡◌ {A = A × ℕ × ℕ} (f, p, l) (e, q, m)
ok_triple f e p q l m h = cc h

module _ {Value Db : Type 0} (w : World Value Db) where
  -- What the start has found in the database `d`.
  pub record Started (d e : Db) (pkey lkey : ℕ) : Type 0 where
    pub store : IsStore (w.engine.view e)
    pub within : Within (w.engine.view d) (w.engine.view e)
    pub ids :
        (k id : ℕ) (v : Value)
        → k_nonode ≤ k
        → k < k_lognode
        → id < 2 ^ 64
        → lookup (encode_primary_key k id) (w.engine.view e) ≡ some v
        → id ≤ pkey
    pub log_ids :
        (id : ℕ) (v : Value)
        → id < 2 ^ 64
        → lookup (encode_primary_key k_lognode id) (w.engine.view e) ≡ some v
        → id ≤ lkey

  found_Started :
      (d e : Db) (pkey lkey : ℕ)
      → IsStore (w.engine.view e)
      → Within (w.engine.view d) (w.engine.view e)
      → last_id w "Fixed record K_MAXNODE missing" "Zero record before K_MAXNODE missing" e
          k_maxnode k_lognode 0
        ≡ ok lkey
      → last_ids w e 13 k_lognode 0 ≡ ok pkey
      → Started d e pkey lkey
  found_Started d e pkey lkey store within log ids = record {
    store = store;
    within = within;
    ids = λ k id v lo hi fits stored.
        (last_ids_bound w e 13 k_lognode 0 pkey (omega arith) (omega arith) store ids).1 k id v
          (omega arith) hi fits stored;
    log_ids =
        (last_id_bound w "Fixed record K_MAXNODE missing" "Zero record before K_MAXNODE missing" e
          k_lognode 0 lkey (omega arith) store log).1;
  }

  counters_Started :
      (d e : Db) (s : Bool × Db) (pkey lkey : ℕ)
      → IsStore (w.engine.view s.1)
      → Within (w.engine.view d) (w.engine.view s.1)
      → read_counters w s 0 0 ≡ ok (e, pkey, lkey)
      → Started d e pkey lkey
  unfolding read_counters
  counters_Started d e (false, f) pkey lkey store within h = cc h
  counters_Started d e (true, f) pkey lkey store within h =
      let (l, log, rest) =
        >>=-eq-ok
          (last_id w "Fixed record K_MAXNODE missing" "Zero record before K_MAXNODE missing" f
            k_maxnode k_lognode 0)
          (λ l. last_ids w f 13 k_lognode 0 >>= λ p. ok (f, p, l)) h in
      let (p, ids, end) = >>=-eq-ok (last_ids w f 13 k_lognode 0) (λ p. ok (f, p, l)) rest in
      let same : ◌≡◌ {A = Db × ℕ × ℕ} (f, p, l) (e, pkey, lkey) = ok_triple f e p pkey l lkey end in
      subst (λ t. Started d t.0 t.1 t.2) same (found_Started d f p l store within log ids)

  -- If the start succeeds on a store, then it is still one, nothing is lost, and the counters that
  -- it gives are at least every id under a key of a record, and under a key of the log.
  pub initialize-Started :
      (d e : Db) (pkey lkey : ℕ)
      → IsStore (w.engine.view d)
      → initialize w (some d) 0 0 ≡ ok (e, pkey, lkey)
      → Started d e pkey lkey
  unfolding initialize
  initialize-Started d e pkey lkey store h =
      let grown = fences-Grown w 15 k_nonode (true, d) (omega arith) in
      counters_Started d e (fences w 15 k_nonode (true, d)) pkey lkey (grown.store store)
        grown.within h
