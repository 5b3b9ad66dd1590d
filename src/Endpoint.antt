-- ===== src/Endpoint.antt =====
-- include/hrpc/HrpcRemoteEndpointService.hpp: what a server answers to another one. The HTTP
-- exchange around it, with its check of the shared secret and the decoding, is not modelled: a
-- request is the decoded message, an answer the message before it is encoded.
use identt.Prelude.{ℕ, Bytes, List, [], ◌∷◌, ◌==◌, ltb, if◌then◌else◌}
use identt.Exception.{ok, err, bad_data}
use identt.Messages.{Transaction, TransList}
use identt.Server.{World, Server, Remote, Action}
use identt.Trans.{read_one, is_empty}
use identt.Trans.ReadLog.{read_log}
use identt.Election.{State, blank_state, set_hosts, add_host, get_hosts}

-- A request, by the cases of the switch on the service name; any other name is `unknown`.
pub data Request (Value : Type 0) : Type 0 where
  r_register : State → Request Value
  r_readone : Transaction Value → Request Value
  r_translog : TransList Value → Request Value
  r_setinfo : State → Request Value
  r_addhost : Remote → Request Value
  r_bufftrans : Transaction Value → Request Value
  unknown : Request Value

pub data Answer (Value : Type 0) : Type 0 where
  state : State → Answer Value
  transaction : Transaction Value → Answer Value
  translist : TransList Value → Answer Value
  host_added : Answer Value

-- SharedMap::AddOne, `t_[key]=value`.
unfoldable pub buffer_one : {Value : Type 0} → ℕ → Value → List (ℕ × Value) → List (ℕ × Value)
buffer_one id v [] = (id, v) ∷ []
buffer_one id v ((i, u) ∷ m) =
    let rest = buffer_one id v m in if i == id then (id, v) ∷ m else (i, u) ∷ rest

module _ {Value Db : Type 0} (w : World Value Db) where
  -- R_REGISTER: a master adds the host; `HostUpdate` only sends messages.
  unfoldable pub register_host : State → Server Value Db → Server Value Db
  register_host data_ s =
      if s.is_master
      then add_host w
          (record { address = data_.thisurl; logcounter = data_.logcounter; updated_at = data_.ts })
          s
      else s

  -- The first slave that is in sync becomes `lastslave`.
  unfoldable pub in_sync : Bytes → Server Value Db → Server Value Db
  in_sync endpoint s = if is_empty s.lastslave then record s { lastslave = endpoint } else s

  -- R_TRANSLOG
  unfoldable pub answer_translog : TransList Value → Action (Server Value Db) (Answer Value)
  answer_translog data_ s =
      if ltb s.logcounter data_.lastid
      then (err (bad_data "Remote Log Counter ahead"), s)
      else if data_.lastid == s.logcounter
      then (
        ok (translist (record data_ { ts = w.currtime; currid = s.logcounter; limit = 0 })),
        in_sync data_.endpoint s,
      )
      else elim (read_log w s data_) [ err x ↦ (err x, s) | ok l ↦ (ok (translist l), s) ]

  -- The switch.
  unfoldable pub serve : Request Value → Action (Server Value Db) (Answer Value)
  serve (r_register data_) s =
      let s' = register_host data_ s in (ok (state (get_hosts w blank_state s')), s')
  serve (r_readone data_) s = (ok (transaction (read_one w data_ s)), s)
  serve (r_translog data_) s = answer_translog data_ s
  serve (r_setinfo data_) s =
      let s' = set_hosts w data_ s in (ok (state (get_hosts w blank_state s')), s')
  serve (r_addhost data_) s =
      if s.is_master
      then (err (bad_data "Host addition is slave only"), s)
      else (ok host_added, add_host w data_ s)
  serve (r_bufftrans data_) s =
      if s.is_master then (err (bad_data "Data addition is slave only"), s) else (
        ok (transaction data_),
        record s {
          transactions = buffer_one data_.id (w.transaction.serialize data_) s.transactions;
        },
      )
  serve unknown s = (err (bad_data "Service Name unknown or unimplemented"), s)

  -- The endpoint serves only when the server is ready.
  unfoldable pub endpoint : Request Value → Action (Server Value Db) (Answer Value)
  endpoint request s =
      if s.is_ready then serve request s else (err (bad_data "System Not Ready"), s)
