-- ===== src/Services/MailSms.antt =====
-- src/store/MailSmsService.cc: the mail server acknowledges what it has sent and asks for more.
use identt.Prelude.{ℕ, Bytes, List, [], ◌∷◌, ◌++◌, none, some, ltb, if◌then◌else◌}
use identt.Exception.{Result, ok, err}
use identt.Messages.{TransItem}
use identt.Server.{World, Server, Action, return, next, ◌>>=◌, ◌>>◌}
use identt.Trans.{is_empty}
use identt.Table.{del_record}
use identt.Table.Scans.{scan_table}
use identt.Tables.Records.{ParAvion, blank_par_avion}
use identt.Tables.Mail.{MPayload, blank_payload}
use identt.Tables.Indexes.{par_avion_table}
use identt.Services.Common.{commit_items}

-- MailQueryT of proto/Mail.proto
pub record MailQuery : Type 0 where
  pub medium : Bytes
  pub lastid : ℕ
  pub limit : ℕ
  pub shared_secret : Bytes
  pub payload : List MPayload

-- A payload that is not there is added as a blank one.
unfoldable pub payload_of : ParAvion → MPayload
payload_of r = elim r.payload [ none ↦ blank_payload | some p ↦ p ]

-- What the function given to `ScanTable` does with a record.
unfoldable pub collect : ParAvion → MailQuery → MailQuery
collect r q = record q {
  lastid = if ltb q.lastid r.id then r.id else q.lastid;
  payload = q.payload ++ payload_of r ∷ [];
}

unfoldable pub collect_all : List ParAvion → MailQuery → MailQuery
collect_all [] q = q
collect_all (r ∷ rs) q = collect_all rs (collect r q)

module _ {Value Db : Type 0} (w : World Value Db) where
  -- The deletions of what has been sent.
  unfoldable pub delete_sent : List MPayload → List (TransItem Value) → List (TransItem Value)
  delete_sent [] trans = trans
  delete_sent (p ∷ ps) trans =
      delete_sent ps
        (del_record w.engine w.nodes (par_avion_table w.par_avion)
          (record blank_par_avion { id = p.id }) trans).1

  unfoldable pub acknowledge : MailQuery → Action (Server Value Db) MailQuery
  acknowledge q =
      if is_empty q.payload
      then return q
      else (do commit_items w (delete_sent q.payload []); return (record q { payload = [] }))

  unfoldable pub scanned : MailQuery → List ParAvion × Result (Unit {0}) → Result MailQuery
  scanned q (rs, err x) = err x
  scanned q (rs, ok u) = ok (collect_all rs q)

  -- The records after `lastid`, at most 100.
  unfoldable pub fetch_new : MailQuery → Action (Server Value Db) MailQuery
  fetch_new q = λ s. (
    scanned q (
        scan_table w.engine w.nodes (par_avion_table w.par_avion) s.db
          (if ltb 0 q.lastid then next q.lastid else 0) (if ltb 100 q.limit then 100 else q.limit)),
    s,
  )

  -- PendingAction
  unfoldable pub pending : MailQuery → Action (Server Value Db) MailQuery
  pending q = do q ← acknowledge q; fetch_new q
