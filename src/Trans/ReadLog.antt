-- ===== src/Trans/ReadLog.antt =====
-- `ReadLog` of src/store/StoreTrans.cc: the transactions that follow a given one in the log.
use identt.Prelude.{
  ℕ, suc, ◌-◌, Bytes, [], ◌∷◌, ◌++◌, none, some, ltb, ◌==◌, starts_with, if◌then◌else◌,
}
use identt.Exception.{Result, ok, err, bad_data}
use identt.Keys.{k_lognode, encode_primary_key, encode_key_type}
use identt.Engine.Ordered.{Entries}
use identt.Messages.{Transaction, TransList}
use identt.Server.{World, Server, next}

-- `tlist->set_lastid(...)` and `tlist->add_trans()`.
unfoldable pub take_record :
    {Value : Type 0} → Transaction Value → TransList Value → TransList Value
take_record r tlist = record tlist { lastid = r.id; trans = tlist.trans ++ r ∷ [] }

module _ {Value Db : Type 0} (w : World Value Db) where
  -- The loop, with its counter, over the entries that the iterator still has.
  unfoldable pub read_loop : Bytes → ℕ → TransList Value → Entries Value → ℕ × TransList Value
  read_loop match counter tlist [] = (counter, tlist)
  read_loop match counter tlist ((key, value) ∷ rest) =
      if starts_with key match
      then elim (w.transaction.parse value) [
        | none ↦ read_loop match counter tlist rest
        | some r ↦
            let skipped = read_loop match counter tlist rest in
            let taken = read_loop match (suc counter) (take_record r tlist) rest in
            if r.id == tlist.lastid
            then skipped
            else if next tlist.lastid == r.id
            then (if ltb tlist.limit (suc counter)
                then (suc counter, take_record r tlist)
                else taken)
            else (counter, tlist)
      ]
      else (counter, tlist)

  -- What follows the loop.
  unfoldable pub finish : ℕ → ℕ × TransList Value → TransList Value
  finish currid (counter, tlist) = record tlist {
    currid = currid;
    ts = w.currtime;
    limit = if ltb 0 counter then counter - 1 else tlist.limit;
  }

  -- ReadLog
  unfoldable pub read_log : Server Value Db → TransList Value → Result (TransList Value)
  read_log s tlist =
      if ltb s.logcounter tlist.lastid
      then err (bad_data "Remote Log Counter ahead")
      else if tlist.lastid == s.logcounter
      then ok (record tlist { ts = w.currtime; currid = s.logcounter; limit = 0 })
      else ok (
          finish s.logcounter (
            read_loop (encode_key_type k_lognode) 0 tlist
              (w.engine.seek s.db (encode_primary_key k_lognode tlist.lastid))))
