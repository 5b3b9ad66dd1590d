-- ===== src/Startup/NewIds.antt =====
-- Proofs on the start of a server (src/main/WorkServer.cc): the ids that come next.
use identt.Prelude.{
  ℕ, ◌<◌, ◌≤◌, ◌^◌, ◌≡◌, refl, ap, sym, ◌∙◌, Bytes, [], ◌∷◌, Option, none, some, arith, Bool-cases,
  Option-cases, inl, inr,
}
use identt.Exception.{Result, ok, err, Result-cases}
use identt.Keys.{KeyType, k_nonode, k_lognode, encode_primary_key}
use identt.Server.{World, Server}
use identt.Services.Numbers.{stoul}
use identt.Startup.{init, initialize, set_counters, after_counters, fill_cache, counter_of}
use identt.Startup.Fences.{IsStore}
use identt.Startup.Restart.{Started, initialize-Started}
use identt.Trans.{is_empty}
use identt.Trans.Log.{log_key}

module _ {Value Db : Type 0} (w : World Value Db) (open_db : Bytes → ℕ → Option Db)
    (create_key : Bytes → Result (Unit {0})) where
  -- No key of the store of a server, of a record or of the log, has an id above its counter.
  pub record FreshIds (s : Server Value Db) : Type 0 where
    pub record_id :
        (k : KeyType) (i : ℕ)
        → k_nonode ≤ k
        → k < k_lognode
        → s.maincounter < i
        → i < 2 ^ 64
        → w.engine.get s.db (encode_primary_key k i) ≡ none
    pub log_id : (i : ℕ) → s.logcounter < i → i < 2 ^ 64 → w.engine.get s.db (log_key i) ≡ none

  counter_of-le : (n : ℕ) → n ≤ counter_of w n
  unfolding counter_of
  counter_of-le n = ground arith

  Started-FreshIds :
      (d e : Db) (pkey lkey : ℕ) (s : Server Value Db)
      → Started w d e pkey lkey
      → s.db ≡ e
      → s.maincounter ≡ counter_of w pkey
      → s.logcounter ≡ counter_of w lkey
      → FreshIds s
  Started-FreshIds d e pkey lkey s st same main log = record {
    record_id = λ k i lo hi above fits.
        elim (Option-cases (w.engine.get s.db (encode_primary_key k i))) [
          | inl nothing ↦ nothing
          | inr (v, there) ↦ absurd (
              omega (
                arith,
                counter_of-le pkey,
                main,
                st.ids k i v lo hi fits (
                    sym (w.engine.get-view e (encode_primary_key k i))
                    ∙ ap (λ x. w.engine.get x (encode_primary_key k i)) (sym same)
                    ∙ there),
              ))
        ];
    log_id = λ i above fits. elim (Option-cases (w.engine.get s.db (log_key i))) [
      | inl nothing ↦ nothing
      | inr (v, there) ↦ absurd (
          omega (
            arith,
            counter_of-le lkey,
            log,
            st.log_ids i v fits (
                sym (w.engine.get-view e (log_key i))
                ∙ ap (λ x. w.engine.get x (log_key i)) (sym same)
                ∙ there),
          ))
    ];
  }

  -- What a start that has succeeded has set.
  pub record CountersSet (found : Result (Db × ℕ × ℕ)) (s' : Server Value Db) : Type 0 where
    pub e : Db
    pub pkey : ℕ
    pub lkey : ℕ
    pub read : found ≡ ok (e, pkey, lkey)
    pub same_db : s'.db ≡ e
    pub main : s'.maincounter ≡ counter_of w pkey
    pub log : s'.logcounter ≡ counter_of w lkey

  counters_CountersSet :
      (key : Result (Unit {0})) (found : Result (Db × ℕ × ℕ)) (s s' : Server Value Db)
      → after_counters w key (set_counters w found s) ≡ (ok tt, s')
      → CountersSet found s'
  unfolding after_counters set_counters fill_cache
  counters_CountersSet key (err x) s s' h = cc (ap (λ x. x.0) h)
  counters_CountersSet (err x) (ok (e, pkey, lkey)) s s' h = cc (ap (λ x. x.0) h)
  counters_CountersSet (ok u) (ok (e, pkey, lkey)) s s' h = elim (Bool-cases s.lookup_uses_local) [
    | inl cached ↦
        let g = rw cached at h in
        record {
          e = e;
          pkey = pkey;
          lkey = lkey;
          read = refl;
          same_db = sym (ap (λ x. x.1.db) g);
          main = sym (ap (λ x. x.1.maincounter) g);
          log = sym (ap (λ x. x.1.logcounter) g);
        }
    | inr plain ↦
        let g = rw plain at h in
        record {
          e = e;
          pkey = pkey;
          lkey = lkey;
          read = refl;
          same_db = sym (ap (λ x. x.1.db) g);
          main = sym (ap (λ x. x.1.maincounter) g);
          log = sym (ap (λ x. x.1.logcounter) g);
        }
  ]

  opened-FreshIds :
      (key : Result (Unit {0})) (opened : Option Db) (s s' : Server Value Db)
      → ((d : Db) → opened ≡ some d → IsStore (w.engine.view d))
      → after_counters w key (set_counters w (initialize w opened 0 0) s) ≡ (ok tt, s')
      → FreshIds s'
  unfolding initialize
  opened-FreshIds key none s s' stores h =
      let c = counters_CountersSet key (initialize w none 0 0) s s' h in cc c.read
  opened-FreshIds key (some d) s s' stores h =
      let c = counters_CountersSet key (initialize w (some d) 0 0) s s' h in
      Started-FreshIds d c.e c.pkey c.lkey s'
        (initialize-Started w d c.e c.pkey c.lkey (stores d refl) c.read) c.same_db c.main c.log

  -- After a start that succeeds on a store, with or without a cache, no primary key of a record has
  -- an id above the main counter and no key of the log one above the log counter: what the database
  -- holds under such a key, for any id of 64 bits, is nothing.
  pub init-FreshIds :
      (datadir cachesize hostseed : Bytes) (s s' : Server Value Db)
      → ((size : ℕ) (d : Db) → open_db datadir size ≡ some d → IsStore (w.engine.view d))
      → init w open_db create_key (datadir ∷ cachesize ∷ hostseed ∷ []) s ≡ (ok tt, s')
      → FreshIds s'
  unfolding init
  init-FreshIds datadir cachesize hostseed s s' stores h = elim (Result-cases (stoul cachesize)) [
    | inr (x, bad) ↦ cc (ap (λ x. x.0) (rw (bad, init) at h))
    | inl (size, good) ↦ elim (Bool-cases (is_empty datadir)) [
      | inl nameless ↦ cc (ap (λ x. x.0) (rw nameless at rw (good, init) at h))
      | inr named ↦
          opened-FreshIds (create_key hostseed) (open_db datadir size) s s' (stores size)
            (rw named at rw (good, init) at h)
    ]
  ]
