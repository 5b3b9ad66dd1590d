-- ===== src/Sync.antt =====
-- src/hrpc/SyncServer.cc: how a slave follows its master. The other server is reached over the
-- network: its answers are parameters.
pub mod CatchUp
use identt.Prelude.{
  ℕ, zero, suc, ◌-◌, Bytes, List, [], ◌∷◌, Bool, true, false, Option, none, some, ◌==◌, length,
  if◌then◌else◌,
}
use identt.Exception.{Result, ok, err, initial}
use identt.Messages.{Transaction, blank_transaction, TransList}
use identt.Server.{World, Server, Action, next, continue}
use identt.Trans.{commit, read_one}
use identt.Election.{State, blank_state, set_hosts, master_update}

-- `SendToRemote` for the messages that a slave sends: the answer, or the exception of a failed
-- call. A turn of a loop is given by the number of turns left, since the answer may be another one
-- each time; so is an attempt to register with an elected master.
pub record Network (Value : Type 0) : Type 0 where
  pub readone : Bytes → Transaction Value → Result (Transaction Value)
  pub translog : ℕ → Bytes → TransList Value → Result (TransList Value)
  pub register : ℕ → Bytes → State → Result State
  pub registers : ℕ → ℕ → Bytes → State → Bool

-- IDENTT_SYNC_FIRST_CHUNK_SIZE and IDENTT_SYNC_CHUNK_SIZE
abbrev pub chunk_size : ℕ
chunk_size = 1000

module _ {Value Db : Type 0} (w : World Value Db) (net : Network Value) where
  -- The answers of `CompareLog`: the master's transaction, and that of the slave.
  unfoldable pub compare_answers : Result (Transaction Value) → Transaction Value → Result Bool
  compare_answers (err x) mine = err (initial "Cannot reach master for verification")
  compare_answers (ok theirs) mine =
      if theirs.notfound
      then err (initial "Master does not have last log, mismatch")
      else if mine.notfound
      then err (initial "This instance does not have last log, mismatch")
      else ok (theirs.ts == mine.ts)

  -- CompareLog
  unfoldable pub compare_log : Bytes → Server Value Db → Result Bool
  compare_log address s =
      let asked = record blank_transaction { id = s.logcounter - 1 } in
      if s.logcounter == 0
      then ok true
      else compare_answers (net.readone address asked) (read_one w asked s)

  -- The transactions of an answer are committed in order, until one is out of sync.
  unfoldable pub apply_list : List (Transaction Value) → Action (Server Value Db) (Unit {0})
  apply_list [] s = (ok tt, s)
  apply_list (t ∷ ts) s =
      if t.id == next s.logcounter
      then continue (commit w false t s) (λ _. apply_list ts)
      else (ok tt, s)

  -- What a slave asks for.
  unfoldable pub request : Server Value Db → TransList Value
  request s = record {
    lastid = s.logcounter;
    limit = chunk_size;
    trans = [];
    currid = 0;
    ts = w.currtime;
    endpoint = s.thisurl;
  }

  -- The loop of `SyncFirst`, with the number of turns before a stop is asked for.
  unfoldable pub first_loop : ℕ → Action (Server Value Db) (Unit {0})
  first_loop zero s = (ok tt, s)
  first_loop (suc turns) s = elim (net.translog turns s.master (request s)) [
    | err x ↦ (err x, s)
    | ok data_ ↦
        continue (apply_list data_.trans s)
          (λ _ s'. if data_.lastid == data_.currid then (ok tt, s') else first_loop turns s')
  ]

  -- What a slave says of itself when it registers.
  unfoldable pub own_state : Server Value Db → State
  own_state s = record blank_state {
    hostname = s.hostname;
    master = s.master;
    logcounter = s.logcounter;
    is_master = s.is_master;
    ts = w.currtime;
    thisurl = s.thisurl;
  }

  -- What an answer to the registration changes.
  unfoldable pub registered : State → Server Value Db → Server Value Db
  registered state s =
      if state.is_master then set_hosts w state s else record s { master = state.master }

  -- The loop that registers: the third answer ends it with an exception, whatever it is.
  unfoldable pub register_loop : ℕ → Action (Server Value Db) (Unit {0})
  register_loop zero s = elim (net.register 0 s.master (own_state s)) [
    | err x ↦ (err x, s)
    | ok state ↦
        (err (initial "the pointed machine is not 1 hop away from master"), registered state s)
  ]
  register_loop (suc left) s = elim (net.register (suc left) s.master (own_state s)) [
    | err x ↦ (err x, s)
    | ok state ↦
        let later = register_loop left (registered state s) in
        if state.is_master then (ok tt, registered state s) else later
  ]

  -- `SyncFirst` after its comparison of the logs.
  unfoldable pub sync_compared : ℕ → Bool → Action (Server Value Db) (Unit {0})
  sync_compared turns false s = (err (initial "Master Slave log mismatch"), s)
  sync_compared turns true s = continue (first_loop turns s) (λ _. register_loop 2)

  -- SyncFirst
  unfoldable pub sync_first : ℕ → Action (Server Value Db) (Unit {0})
  sync_first turns s =
      if s.is_master then (ok tt, s) else continue (compare_log s.master s, s) (sync_compared turns)

  -- `tmap.find(...)`
  unfoldable pub find_trans : ℕ → List (ℕ × Value) → Option Value
  find_trans id [] = none
  find_trans id ((i, v) ∷ m) = if i == id then some v else find_trans id m

  -- The loop over the transactions that the master has pushed, with the number of turns left.
  unfoldable pub local_loop : ℕ → ℕ → List (ℕ × Value) → Action (Server Value Db) (Unit {0})
  local_loop zero logc tmap s = (ok tt, s)
  local_loop (suc left) logc tmap s = elim (find_trans (next logc) tmap) [
    | none ↦ (ok tt, s)
    | some value ↦ elim (w.transaction.parse value) [
      | none ↦ (ok tt, s)
      | some t ↦ continue (commit w false t s) (λ _. local_loop left (next logc) tmap)
    ]
  ]

  -- The pushed transactions are taken out and committed.
  unfoldable pub apply_local : Action (Server Value Db) (Unit {0})
  apply_local s =
      local_loop (length s.transactions) s.logcounter s.transactions
        (record s { transactions = [] })

  -- What the loop of `SyncFromMaster` keeps: the failures in a row, and when they began.
  pub record Failures : Type 0 where
    pub failcount : ℕ
    pub faildetected : ℕ

  -- A turn in which the master did not answer: whether the loop ends, and the count. The twentieth
  -- failure starts an election; the tenth only sends messages.
  unfoldable pub missed : ℕ → Failures → Server Value Db → (Bool × Failures) × Server Value Db
  missed turn f s =
      let count = suc f.failcount in
      let since = if count == 1 then w.currtime else f.faildetected in
      let elected = master_update w (net.registers turn) since s in
      let failures : Failures = record { failcount = count; faildetected = since } in
      if count == 20 then ((elected.is_master, failures), elected) else ((false, failures), s)

  unfoldable pub ask_master : ℕ → Failures → Action (Server Value Db) (Bool × Failures)
  ask_master turn f s = elim (net.translog turn s.master (request s)) [
    | err x ↦ (let m = missed turn f s in (ok m.0, m.1))
    | ok data_ ↦
        continue (apply_list data_.trans s) (λ _ s'. (ok (false, record f { failcount = 0 }), s'))
  ]

  -- One turn of the loop of `SyncFromMaster`.
  unfoldable pub sync_turn : ℕ → Failures → Action (Server Value Db) (Bool × Failures)
  sync_turn turn f s = continue (apply_local s) (λ _. ask_master turn f)

  -- The loop, with the number of turns before a stop is asked for.
  unfoldable pub sync_loop : ℕ → Failures → Action (Server Value Db) (Unit {0})
  sync_loop zero f s = (ok tt, s)
  sync_loop (suc turns) f s =
      continue (sync_turn turns f s)
        (λ done s'. if done.0 then (ok tt, s') else sync_loop turns done.1 s')

  unfoldable pub follow_compared : ℕ → Bool → Action (Server Value Db) (Unit {0})
  follow_compared turns false s = (err (initial "Master Slave log mismatch"), s)
  follow_compared turns true s = sync_loop turns (record { failcount = 0; faildetected = 0 }) s

  -- SyncFromMaster
  unfoldable pub sync_from_master : ℕ → Action (Server Value Db) (Unit {0})
  sync_from_master turns s =
      if s.is_master
      then (ok tt, s)
      else continue (compare_log s.master s, s) (follow_compared turns)
