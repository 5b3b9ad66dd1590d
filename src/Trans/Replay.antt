-- ===== src/Trans/Replay.antt =====
-- What a commit does to the contents of the database: the log entry, then the items. A slave that
-- commits what its master has logged comes to the same contents.
use identt.Prelude.{
  ◌≡◌, refl, ap, ◌∙◌, Bytes, List, [], ◌∷◌, Bool, true, false, Option, none, some, arith,
  Option-cases, Bool-cases, inl, inr,
}
use identt.Exception.{ok, err, bad_data}
use identt.Keys.{k_lognode, encode_primary_key}
use identt.Engine.Ordered.{Entries, Op, insert, apply}
use identt.Messages.{Transaction}
use identt.Table.{batch}
use identt.Server.{World, Server, next}
use identt.Trans.{
  commit, commit_log, commit_data, commit_next, commit_logged, log_written, update_cache, push,
  stamped, is_empty,
}

module _ {Value Db : Type 0} (w : World Value Db) where
  -- The contents after a logged transaction.
  unfoldable pub replayed : Transaction Value → Entries Value → Entries Value
  replayed trans m =
      apply (batch trans.item)
        (insert (encode_primary_key k_lognode trans.id) (w.transaction.serialize trans) m)

  unfoldable pub replay : List (Transaction Value) → Entries Value → Entries Value
  replay [] m = m
  replay (t ∷ ts) m = replay ts (replayed t m)

  push-db : (b : Bool) (t : Transaction Value) (s : Server Value Db) → (push w b t s).db ≡ s.db
  unfolding push
  push-db b t s = ground arith

  push-logcounter :
      (b : Bool) (t : Transaction Value) (s : Server Value Db)
      → (push w b t s).logcounter ≡ s.logcounter
  unfolding push
  push-logcounter b t s = ground arith

  update_cache-db : (t : Transaction Value) (s : Server Value Db) → (update_cache w t s).1.db ≡ s.db
  unfolding update_cache
  update_cache-db t s = ground arith

  update_cache-logcounter :
      (t : Transaction Value) (s : Server Value Db)
      → (update_cache w t s).1.logcounter ≡ s.logcounter
  unfolding update_cache
  update_cache-logcounter t s = ground arith

  module _ (b : Bool) (t : Transaction Value) (s : Server Value Db)
      (items : is_empty t.item ≡ false) where
    -- The transaction as it is logged.
    abbrev logged : Transaction Value
    logged = stamped w b (next s.logcounter) t

    abbrev put_log : Option Db
    put_log =
        w.engine.put s.db (encode_primary_key k_lognode (next s.logcounter))
          (w.transaction.serialize logged)

    -- `Commit` when both writes succeed.
    commit_written :
        (d e : Db)
        → put_log ≡ some d
        → w.engine.write d (batch t.item) ≡ some e
        → commit w b t s
          ≡ update_cache w logged
              (push w b logged (record s { logcounter = next s.logcounter; db = e }))
    unfolding commit commit_log commit_data commit_next commit_logged log_written stamped
    commit_written d e p q = rw (items, p, items, q) refl

    log_failed : put_log ≡ none → (commit w b t s).0 ≡ err (bad_data "Insert failed for log")
    unfolding commit commit_log commit_next log_written stamped
    log_failed p = rw (items, p) refl

    data_failed :
        (d : Db)
        → put_log ≡ some d
        → w.engine.write d (batch t.item) ≡ none
        → (commit w b t s).0 ≡ err (bad_data "Insert failed for data")
    unfolding commit commit_log commit_data commit_next commit_logged log_written stamped
    data_failed d p q = rw (items, p, items, q) refl

    -- A commit that succeeds has written both.
    pub commit_writes :
        (s' : Server Value Db)
        → commit w b t s ≡ (ok tt, s')
        → (d : Db) × (put_log ≡ some d) × (w.engine.write d (batch t.item) ≡ some s'.db)
    commit_writes s' c = elim (Option-cases put_log) [
      | inl p ↦ cc (log_failed p, c)
      | inr (d, p) ↦ elim (Option-cases (w.engine.write d (batch t.item))) [
        | inl q ↦ cc (data_failed d p q, c)
        | inr (e, q) ↦ (
          d,
          p,
          cc (
            q,
            c,
            commit_written d e p q,
            update_cache-db logged
                (push w b logged (record s { logcounter = next s.logcounter; db = e })),
            push-db b logged (record s { logcounter = next s.logcounter; db = e }),
          ),
        )
      ]
    ]

  -- A commit that succeeds does to the contents of the database what the logged transaction says,
  -- and takes the next log id.
  pub commit-replayed :
      (b : Bool) (t : Transaction Value) (s s' : Server Value Db)
      → is_empty t.item ≡ false
      → commit w b t s ≡ (ok tt, s')
      → (w.engine.view s'.db ≡ replayed (stamped w b (next s.logcounter) t) (w.engine.view s.db))
        × (s'.logcounter ≡ next s.logcounter)
  unfolding replayed stamped
  commit-replayed b t s s' items c =
      let (d, p, q) = commit_writes b t s items s' c in
      let x = stamped w b (next s.logcounter) t in
      let written = record s { logcounter = next s.logcounter; db = s'.db } in
      (
        w.engine.write-view d s'.db (batch t.item) q
            ∙ ap (apply (batch t.item)) (w.engine.put-view s.db d _ _ p),
        cc (
          c,
          commit_written b t s items d s'.db p q,
          update_cache-logcounter x (push w b x written),
          push-logcounter b x written,
        ),
      )

  -- An engine that does not fail.
  abbrev pub Reliable : Type 0
  Reliable =
      ((d : Db) (k : Bytes) (v : Value) → (e : Db) × (w.engine.put d k v ≡ some e))
      × ((d : Db) (ops : List (Op Value)) → (e : Db) × (w.engine.write d ops ≡ some e))

  -- On an engine that does not fail, and without a cache, a commit succeeds.
  pub commit-ok :
      (b : Bool) (t : Transaction Value) (s : Server Value Db)
      → Reliable
      → s.lookup_uses_local ≡ false
      → (commit w b t s).0 ≡ ok tt
  unfolding commit update_cache push
  commit-ok b t s r off = elim (Bool-cases (is_empty t.item)) [
    | inl none_there ↦ rw none_there refl
    | inr items ↦
        let (d, p) =
          r.0 s.db (encode_primary_key k_lognode (next s.logcounter))
            (w.transaction.serialize (stamped w b (next s.logcounter) t)) in
        let (e, q) = r.1 d (batch t.item) in
        ap (λ x. x.0) (commit_written b t s items d e p q) ∙ ground (arith, off)
  ]

-- A master commits a transaction, and a slave with the same contents and the same log counter
-- commits what the master has logged. If both succeed they have the same contents and log counter
-- again, whatever engines they run on.
pub commit-slave :
    {Value Db Eb : Type 0} (v : World Value Db) (w : World Value Eb) (t : Transaction Value)
    (m m' : Server Value Db) (s s' : Server Value Eb)
    → ((u : Transaction Value) → v.transaction.serialize u ≡ w.transaction.serialize u)
    → v.engine.view m.db ≡ w.engine.view s.db
    → m.logcounter ≡ s.logcounter
    → is_empty t.item ≡ false
    → commit v true t m ≡ (ok tt, m')
    → commit w false (stamped v true (next m.logcounter) t) s ≡ (ok tt, s')
    → (v.engine.view m'.db ≡ w.engine.view s'.db) × (m'.logcounter ≡ s'.logcounter)
unfolding replayed stamped
commit-slave v w t m m' s s' codec same counter items c c' =
    let x = stamped v true (next m.logcounter) t in
    let there = commit-replayed v true t m m' items c in
    let here = commit-replayed w false x s s' items c' in
    (cc (there.0, here.0, codec x, same, counter), cc (there.1, here.1, counter))
