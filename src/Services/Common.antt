-- ===== src/Services/Common.antt =====
-- What the actions of the services share: reading and adding records, and committing.
use Prim.Native.String.{String}
use identt.Prelude.{
  ℕ, List, Bool, true, false, not, ◌||◌, ◌==◌, ltb, ◌+◌, ◌%◌, ◌^◌, beq, if◌then◌else◌,
}
use identt.Exception.{Result, ok, err, bad_data, sydent}
use identt.Keys.{KeyType, k_validationsession}
use identt.Messages.{TransItem, blank_transaction}
use identt.Server.{World, Server, Action}
use identt.Trans.{commit}
use identt.Table.{Table, get_one, add_record}
use identt.Tables.Records.{ValidationSession, blank_validation_session}
use identt.Tables.Unique.{validation_session_table}
use identt.Services.Requests.{
  SubmitToken, m_no_valid_session, m_session_expired, m_session_not_validated, session_lifetime,
}

-- `if (!status) throw BadDataException(...)` after an `AddRecord`.
unfoldable pub added :
    {Value : Type 0}
    → String
    → Result (Bool × List (TransItem Value))
    → Result (List (TransItem Value))
added message (err x) = err x
added message (ok (true, trans)) = ok trans
added message (ok (false, trans)) = err (bad_data message)

module _ {Value Db : Type 0} (w : World Value Db) where
  -- `table.GetOne(&record, keytype)`
  unfoldable pub find :
      {T : Type 0} → Table Value T → T → KeyType → Action (Server Value Db) (Bool × T)
  find t r keytype = λ s. (get_one w.engine w.nodes t s.db r keytype, s)

  -- `if (!table.AddRecord(&record, &trans, upsert)) throw ...`
  unfoldable pub add :
      {T : Type 0}
      → Table Value T
      → T
      → List (TransItem Value)
      → Bool
      → String
      → Action (Server Value Db) (List (TransItem Value))
  add t r trans upsert message =
      λ s. (added message (add_record w.engine w.nodes t s.db r trans upsert), s)

  -- `storetrans.Commit(stptr, &trans, true)`
  unfoldable pub commit_items : List (TransItem Value) → Action (Server Value Db) (Unit {0})
  commit_items items = λ s. commit w true (record blank_transaction { item = items }) s

  -- The checks of a session that `GetValidated3pidAction`, `Bind3pidAction` and
  -- `GetAccessKeyAction` make in the same words. `found` is what `GetOne` has given.
  unfoldable pub check_session : SubmitToken → Bool × ValidationSession → Result ValidationSession
  check_session subtok (found, session) =
      if not found || not (beq session.client_secret subtok.client_secret)
      then err (
          sydent "No valid session was found matching that sid and client secret"
            m_no_valid_session)
      else if session.validated == 0
      then (if ltb w.currtime ((session_lifetime + session.mtime) % 2 ^ 64)
          then err (
              sydent "This validation session has expired: call requestToken again"
                m_session_expired)
          else err
              (sydent "This validation session has not yet been completed" m_session_not_validated))
      else ok session

  -- `GetOne` of the session with an id.
  unfoldable pub find_session : ℕ → Server Value Db → Result (Bool × ValidationSession)
  find_session sid s =
      get_one w.engine w.nodes (validation_session_table w.validation_session) s.db
        (record blank_validation_session { id = sid }) k_validationsession
