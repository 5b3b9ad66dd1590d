-- ===== src/Trans.antt =====
-- src/store/StoreTrans.cc: transactions are written to the log, then to the data.
pub mod ReadLog
pub mod Replay
pub mod Log
pub mod Pages
pub mod Settings
pub mod Records
use identt.Prelude.{
  ℕ, zero, suc, ◌+◌, ◌^◌, ◌%◌, Bytes, List, [], ◌∷◌, Bool, true, false, ◌&&◌, not, Option, none,
  some, ltb, length, if◌then◌else◌,
}
use identt.Exception.{Result, ok, err, bad_data}
use identt.Keys.{k_lognode, encode_primary_key}
use identt.Engine.{Engine, Codec}
use identt.Engine.Ordered.{Entries}
use identt.Messages.{Transaction, TransItem}
use identt.Table.{batch}
use identt.Server.{World, Server, Action, next}
use identt.Cache.{add_to_cache}

-- `trans->item_size()==0`, `length() == 0`
abbrev pub is_empty {ℓ} : {A : Type ℓ} → List A → Bool
is_empty [] = true
is_empty (x ∷ xs) = false

module _ {Value Db : Type 0} (w : World Value Db) where
  open w use {engine, transaction, local_assoc, committime, send_to_remote}

  -- The transaction as `CommitLog` writes it.
  unfoldable pub stamped : Bool → ℕ → Transaction Value → Transaction Value
  stamped is_master id trans = record trans {
    id = id;
    ts = if is_master then committime else trans.ts;
  }

  unfoldable pub log_written : Server Value Db → Option Db → Bool × Server Value Db
  log_written s none = (false, s)
  log_written s (some d) = (true, record s { db = d })

  -- CommitLog: whether the transaction was written. It leaves in `trans` the stamped transaction.
  unfoldable pub commit_log : Bool → Transaction Value → Server Value Db → Bool × Server Value Db
  commit_log is_master trans s =
      let id = next s.logcounter in
      if is_empty trans.item
      then (true, s)
      else log_written (record s { logcounter = id })
          (engine.put s.db (encode_primary_key k_lognode id)
            (transaction.serialize (stamped is_master id trans)))

  -- CommitData
  unfoldable pub commit_data : Transaction Value → Server Value Db → Bool × Server Value Db
  commit_data trans s =
      if is_empty trans.item
      then (true, s)
      else log_written s (engine.write s.db (batch trans.item))

  -- The push of the transaction to `lastslave`.
  unfoldable pub push : Bool → Transaction Value → Server Value Db → Server Value Db
  push is_master trans s =
      if is_master && (s.is_master && not (is_empty s.lastslave))
      then (if send_to_remote s.lastslave trans then s else record s { lastslave = [] })
      else s

  unfoldable pub update_cache : Transaction Value → Action (Server Value Db) (Unit {0})
  update_cache trans s =
      if s.lookup_uses_local
      then (let added = add_to_cache local_assoc trans.item s.dbcache in
          (added.0, record s { dbcache = added.1 }))
      else (ok tt, s)

  -- `Commit` once the log has been written.
  unfoldable pub commit_logged :
      Bool → Transaction Value → Bool × Server Value Db → Result (Unit {0}) × Server Value Db
  commit_logged is_master trans (false, s) = (err (bad_data "Insert failed for data"), s)
  commit_logged is_master trans (true, s) = update_cache trans (push is_master trans s)

  unfoldable pub commit_next :
      Bool → Transaction Value → Bool × Server Value Db → Result (Unit {0}) × Server Value Db
  commit_next is_master trans (false, s) = (err (bad_data "Insert failed for log"), s)
  commit_next is_master trans (true, s) = commit_logged is_master trans (commit_data trans s)

  -- Commit
  unfoldable pub commit : Bool → Transaction Value → Action (Server Value Db) (Unit {0})
  commit is_master trans s =
      if is_empty trans.item
      then (ok tt, s)
      else commit_next is_master (stamped is_master (next s.logcounter) trans)
          (commit_log is_master trans s)

  -- ReadOne
  unfoldable pub read_one : Transaction Value → Server Value Db → Transaction Value
  read_one trans s = elim (engine.get s.db (encode_primary_key k_lognode trans.id)) [
    | none ↦ record trans { notfound = true }
    | some value ↦ elim (transaction.parse value) [
      | none ↦ record trans { notfound = true }
      | some stored ↦ stored
    ]
  ]
