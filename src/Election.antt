-- ===== src/Election.antt =====
-- src/hrpc/RemoteKeeper.cc: the hosts that a server knows, and the election of a master.
pub mod Order
pub mod Agreement
use identt.Prelude.{
  ℕ, zero, suc, Bytes, List, [], ◌∷◌, ◌++◌, Bool, true, false, ◌&&◌, ◌||◌, ◌==◌, ltb, beq, blt,
  if◌then◌else◌,
}
use identt.Server.{World, Server, Remote, add_one, add_many}

-- StateT of proto/Hrpc.proto.
pub record State : Type 0 where
  pub hostname : Bytes
  pub master : Bytes
  pub logcounter : ℕ
  pub is_master : Bool
  pub ts : ℕ
  pub thisurl : Bytes
  pub remotes : List Remote
  pub not_found : Bool

abbrev pub blank_state : State
blank_state = record {
  hostname = [];
  master = [];
  logcounter = 0;
  is_master = false;
  ts = 0;
  thisurl = [];
  remotes = [];
  not_found = false;
}

-- The candidate that an election has so far.
pub record Candidate : Type 0 where
  pub logcounter : ℕ
  pub address : Bytes

-- The test by which a remote replaces the candidate.
unfoldable pub beats : Remote → Candidate → Bool
beats r c = ltb c.logcounter r.logcounter || r.logcounter == c.logcounter && blt c.address r.address

-- One turn of the loop: too old, behind, or the candidate itself is passed over.
unfoldable pub consider : ℕ → Candidate → Remote → Candidate
consider cutoff c r =
    if ltb r.updated_at cutoff || (ltb r.logcounter c.logcounter || beq r.address c.address)
    then c
    else if beats r c
    then record { logcounter = r.logcounter; address = r.address }
    else c

-- The loop of `MasterUpdate`.
unfoldable pub elect : ℕ → Candidate → List Remote → Candidate
elect cutoff c [] = c
elect cutoff c (r ∷ rs) = elect cutoff (consider cutoff c r) rs

module _ {Value Db : Type 0} (w : World Value Db) where
  -- SetHosts
  unfoldable pub set_hosts : State → Server Value Db → Server Value Db
  set_hosts state s =
      if state.is_master
      then record s { remotes = add_many state.remotes s.remotes }
      else record s {
        remotes =
            add_one
              (record {
                address = state.thisurl;
                logcounter = state.logcounter;
                updated_at = state.ts;
              })
              s.remotes;
      }

  -- AddHost
  unfoldable pub add_host : Remote → Server Value Db → Server Value Db
  add_host r s = record s { remotes = add_one r s.remotes }

  -- GetHosts
  unfoldable pub get_hosts : State → Server Value Db → State
  get_hosts state s = record {
    hostname = s.hostname;
    master = s.master;
    logcounter = s.logcounter;
    is_master = s.is_master;
    ts = w.currtime;
    thisurl = s.thisurl;
    remotes = if s.is_master then state.remotes ++ s.remotes else state.remotes;
    not_found = state.not_found;
  }

  -- The attempts to register with the new master, as many as are left. `registers` tells whether
  -- the attempt with that many left succeeds.
  unfoldable pub register_retries :
      (ℕ → Bytes → State → Bool) → ℕ → Bytes → State → Server Value Db → Server Value Db
  register_retries registers zero newmaster state s = s
  register_retries registers (suc left) newmaster state s =
      let again = register_retries registers left newmaster state s in
      if registers left newmaster state then record s { master = newmaster } else again

  -- The end of `MasterUpdate`.
  unfoldable pub take_office :
      (ℕ → Bytes → State → Bool) → Bytes → Server Value Db → Server Value Db
  take_office registers newmaster s =
      if beq newmaster s.thisurl
      then record s { lastslave = []; is_master = true }
      else register_retries registers 10 newmaster (get_hosts blank_state s) s

  -- MasterUpdate
  unfoldable pub master_update : (ℕ → Bytes → State → Bool) → ℕ → Server Value Db → Server Value Db
  master_update registers cutoff s =
      let start : Candidate = record { logcounter = s.logcounter; address = s.thisurl } in
      let elected = elect cutoff start s.remotes in take_office registers elected.address s
