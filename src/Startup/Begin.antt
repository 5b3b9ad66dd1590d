-- ===== src/Startup/Begin.antt =====
-- Proofs on the start of a server (src/main/WorkServer.cc): its log.
use identt.Prelude.{
  ℕ, ◌+◌, ◌<◌, ◌≤◌, ◌^◌, ◌≡◌, ap, sym, ◌∙◌, subst, Bytes, List, [], ◌∷◌, true, false, Option, some,
  arith, length,
}
use identt.Exception.{Result, ok}
use identt.Keys.{k_nonode}
use identt.Engine.Ordered.{lookup}
use identt.Engine.Sorted.{with_prefix}
use identt.Messages.{Transaction}
use identt.Server.{World, Server}
use identt.Services.Numbers.{stoul}
use identt.Startup.{init, initialize, set_counters, after_counters, fences, counter_of}
use identt.Startup.Fences.{IsStore, fences-Grown, Puts}
use identt.Startup.LogKept.{lookup_first, lookup-with_prefix, fences_keep_log, fences_begin}
use identt.Startup.Restored.{started, last_log_id}
use identt.Trans.{is_empty}
use identt.Trans.Log.{IsLog, log_prefix, log_key, log_key_prefix, log_entries, Numbered}

module _ {Value Db : Type 0} (w : World Value Db) (open_db : Bytes → ℕ → Option Db)
    (create_key : Bytes → Result (Unit {0})) where
  -- The parameters open the database `d`, and the key can be made.
  pub record Opens (datadir cachesize hostseed : Bytes) (d : Db) : Type 0 where
    pub size : ℕ
    pub size_read : stoul cachesize ≡ ok size
    pub named : is_empty datadir ≡ false
    pub opened : open_db datadir size ≡ some d
    pub key_made : create_key hostseed ≡ ok tt

  module _ (datadir cachesize hostseed : Bytes) (d : Db)
      (given : Opens datadir cachesize hostseed d) (s : Server Value Db)
      (no_cache : s.lookup_uses_local ≡ false) where
    -- The server after its start.
    abbrev pub begun : Server Value Db
    begun = (init w open_db create_key (datadir ∷ cachesize ∷ hostseed ∷ []) s).1

    init_lem :
        (e : Db) (pkey lkey : ℕ)
        → initialize w (some d) 0 0 ≡ ok (e, pkey, lkey)
        → init w open_db create_key (datadir ∷ cachesize ∷ hostseed ∷ []) s ≡ (
          ok tt,
          record s { db = e; maincounter = counter_of w pkey; logcounter = counter_of w lkey },
        )
    unfolding init set_counters after_counters
    init_lem e pkey lkey h =
        rw (given.size_read, init)
          (rw (given.named)
            (rw (given.opened, given.key_made) (rw (h, set_counters) (rw no_cache))))

    -- The log of a store with the counters that the start reads off it.
    IsLog-kept :
        (f : Value) (ts : List (Transaction Value))
        → Puts w
        → IsStore (w.engine.view d)
        → with_prefix log_prefix (w.engine.view (fences w 15 k_nonode (true, d)).1)
          ≡ (log_key 0, f) ∷ log_entries w ts
        → Numbered 2 ts
        → 2 + length ts ≤ 2 ^ 64
        → ((init w open_db create_key (datadir ∷ cachesize ∷ hostseed ∷ []) s).0 ≡ ok tt)
          × IsLog w f 2 ts begun
          × (begun.logcounter ≡ 1 + length ts)
    IsLog-kept f ts puts store entries numbered fits =
        let (pkey, lkey, small, stored, ids, read) = started w d puts store in
        let e : Db = (fences w 15 k_nonode (true, d)).1 in
        let same = init_lem e pkey lkey read in
        let counter : counter_of w lkey ≡ 1 + length ts =
          last_log_id w e f ts entries numbered fits lkey stored.0 small stored.1 ids in
        let after : Server Value Db = record s {
          db = e;
          maincounter = counter_of w pkey;
          logcounter = counter_of w lkey;
        } in
        let kept : IsLog w f 2 ts after = record {
          sorted = ((fences-Grown w 15 k_nonode (true, d) (omega arith)).store store).sorted;
          entries = entries;
          numbered = numbered;
          positive = omega arith;
          counter = omega (arith, counter);
        } in
        (
          ap (λ x. x.0) same,
          subst (IsLog w f 2 ts) (ap (λ x. x.1) (sym same)) kept,
          ap (λ x. x.1.logcounter) same ∙ counter,
        )

    -- A server starts on the database that a server has left, whose log begins with the first id
    -- that there is, on an engine whose writes succeed and without a cache: the start succeeds, and
    -- the log and the log counter are those that were left.
    pub init-IsLog :
        (f : Value) (ts : List (Transaction Value)) (t : Server Value Db)
        → Puts w
        → d ≡ t.db
        → IsStore (w.engine.view d)
        → IsLog w f 2 ts t
        → t.logcounter < 2 ^ 64
        → ((init w open_db create_key (datadir ∷ cachesize ∷ hostseed ∷ []) s).0 ≡ ok tt)
          × IsLog w f 2 ts begun
          × (begun.logcounter ≡ t.logcounter)
    init-IsLog f ts t puts left store log fits =
        let entries : with_prefix log_prefix (w.engine.view d) ≡ (log_key 0, f) ∷ log_entries w ts =
          ap (λ x. with_prefix log_prefix (w.engine.view x)) left ∙ log.entries in
        let fence : lookup (log_key 0) (w.engine.view d) ≡ some f =
          sym (lookup-with_prefix log_prefix (log_key 0) (w.engine.view d) (log_key_prefix 0))
          ∙ ap (lookup (log_key 0)) entries
          ∙ lookup_first (log_key 0) f (log_entries w ts) in
        let (done, kept, counter) =
          IsLog-kept f ts puts store
            (fences_keep_log w 15 k_nonode (true, d) f (omega arith) store fence ∙ entries)
            log.numbered (omega (arith, fits, log.counter)) in
        (done, kept, counter ∙ omega (arith, log.counter))

    -- On a database with no entry the start succeeds too, with a log that holds no transaction.
    pub init_new-IsLog :
        Puts w
        → w.engine.view d ≡ []
        → ((init w open_db create_key (datadir ∷ cachesize ∷ hostseed ∷ []) s).0 ≡ ok tt)
          × IsLog w w.engine.empty 2 [] begun
          × (begun.logcounter ≡ 1)
    unfolding with_prefix log_entries
    init_new-IsLog puts new =
        let store : IsStore (w.engine.view d) =
          subst IsStore (sym new) (record { sorted = tt; keyed = tt }) in
        let entries =
          fences_begin w puts 15 k_nonode (true, d) (omega arith) (omega arith) (omega arith) store
            (ap (with_prefix log_prefix) new) in
        IsLog-kept w.engine.empty [] puts store entries tt (omega arith)
