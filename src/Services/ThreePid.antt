-- ===== src/Services/ThreePid.antt =====
-- src/store/ThreePidService.cc: what a validated session is worth, and its binding to a user.
use identt.Prelude.{
  ℕ, ◌+◌, ◌%◌, ◌^◌, Bytes, List, [], ◌∷◌, Bool, true, false, some, ◌==◌, map, if◌then◌else◌,
}
use identt.Exception.{Result, ok, err, sydent}
use identt.Keys.{
  u_localassoc_medium_address, u_globalassoc_originserver_originid, i_invitetoken_medium_address,
}
use identt.Messages.{TransItem}
use identt.Server.{World, Server, Action, return, lift, get, next_main, ◌>>=◌, ◌>>◌}
use identt.Trans.{is_empty}
use identt.Table.Scans.{get_many}
use identt.Tables.Records.{
  ValidationSession, LocalAssoc, blank_local_assoc, GlobalAssoc, blank_global_assoc, InviteToken,
  blank_invite_token, ParAvion, blank_par_avion,
}
use identt.Tables.Mail.{blank_payload}
use identt.Tables.Unique.{local_assoc_table}
use identt.Tables.Indexes.{global_assoc_table, invite_token_table, par_avion_table}
use identt.Services.Requests.{SubmitToken, ValidatedAt, session_lifetime, m_missing_params}
use identt.Services.Numbers.{stoul}
use identt.Services.Common.{find, add, commit_items, check_session, find_session}

-- A_ONBINDNOTIFY
abbrev pub a_onbindnotify : ℕ
a_onbindnotify = 14

-- InviteItemT and ValidatedInviteT of proto/Query.proto.
pub record InviteItem : Type 0 where
  pub mxid : Bytes
  pub token : Bytes
  pub id : ℕ
  pub medium : Bytes
  pub address : Bytes
  pub room_id : Bytes
  pub sender : Bytes
  pub received_ts : ℕ
  pub sent_ts : ℕ

pub record ValidatedInvite : Type 0 where
  pub medium : Bytes
  pub address : Bytes
  pub validated_at : ℕ
  pub invites : List InviteItem

-- The values of a map.
unfoldable pub values : {T : Type 0} → List (ℕ × T) → List T
values [] = []
values ((i, t) ∷ m) = t ∷ values m

-- The checks of the request, in their order.
unfoldable pub check_request : ℕ → SubmitToken → Result (Unit {0})
check_request sid subtok =
    if sid == 0
    then err (sydent "sid value required" m_missing_params)
    else if is_empty subtok.client_secret
    then err (sydent "client_secret value required" m_missing_params)
    else ok tt

unfoldable pub check_mxid : SubmitToken → Result (Unit {0})
check_mxid subtok =
    if is_empty subtok.mxid then err (sydent "mxid value required" m_missing_params) else ok tt

unfoldable pub invite_item : Bytes → InviteToken → InviteItem
invite_item mxid token = record {
  mxid = mxid;
  token = token.token;
  id = token.id;
  medium = token.medium;
  address = token.address;
  room_id = token.room_id;
  sender = token.sender;
  received_ts = token.received_ts;
  sent_ts = token.sent_ts;
}

-- `dup_set` holds one address only, that of the session: the first token gets an invitation.
unfoldable pub first_invite : Bytes → List InviteToken → List InviteItem
first_invite mxid [] = []
first_invite mxid (t ∷ ts) = invite_item mxid t ∷ []

module _ {Value Db : Type 0} (w : World Value Db) where
  -- GetValidated3pidAction
  unfoldable pub get_validated_3pid : SubmitToken → Action (Server Value Db) ValidatedAt
  get_validated_3pid subtok = do
    sid ← lift (stoul subtok.sid)
    lift (check_request sid subtok)
    s ← get
    found ← lift (find_session w sid s)
    session ← lift (check_session w subtok found)
    return (record {
      medium = session.medium;
      address = session.address;
      validated_at = session.mtime;
    })

  -- `expires`
  unfoldable pub expires : ℕ
  expires = (session_lifetime + w.currtime) % 2 ^ 64

  -- A record that was not found gets the next id.
  unfoldable pub id_for : Bool → ℕ → Action (Server Value Db) ℕ
  id_for true id = return id
  id_for false id = next_main

  -- The local association of the user, and the transaction.
  unfoldable pub bind_local :
      Bytes → Bool × LocalAssoc → Action (Server Value Db) (LocalAssoc × List (TransItem Value))
  bind_local mxid (found, assoc) = do
    id ← id_for found assoc.id
    let bound = record assoc {
      id = id;
      mxid = mxid;
      ts = w.currtime;
      not_before = w.currtime;
      not_after = expires;
    }
    trans ← add w (local_assoc_table w.local_assoc) bound [] found "Cannot Insert local 3pid assoc"
    return (bound, trans)

  -- The tokens of the address are marked as sent.
  unfoldable pub mark_sent : InviteToken → InviteToken
  mark_sent token = record token { sent_ts = w.currtime }

  unfoldable pub send_tokens :
      List InviteToken → List (TransItem Value) → Action (Server Value Db) (List (TransItem Value))
  send_tokens [] trans = return trans
  send_tokens (t ∷ ts) trans = do
    trans ← add w (invite_token_table w.invite_token) (mark_sent t) trans true "Cannot update token"
    send_tokens ts trans

  -- `AddSign` of include/query/SignedJson.hpp and the JSON library are parameters: the signed text
  -- of the association, and that of the answer with its invitations.
  module _ (sign_assoc : GlobalAssoc → Result Bytes)
      (sign_result : ValidatedInvite → Result Bytes) where
    unfoldable pub bind_global :
        ValidationSession
        → Bytes
        → List (TransItem Value)
        → Bool × GlobalAssoc
        → Action (Server Value Db) (List (TransItem Value))
    bind_global session mxid trans (found, assoc) = do
      id ← id_for found assoc.id
      let bound = record assoc {
        id = id;
        medium = session.medium;
        address = session.address;
        mxid = mxid;
        ts = w.currtime;
        not_before = w.currtime;
        not_after = expires;
        sg_assoc = [];
      }
      signed ← lift (sign_assoc bound)
      add w (global_assoc_table w.global_assoc) (record bound { sg_assoc = signed }) trans found
          "Cannot Insert global 3pid assoc"

    unfoldable pub bind_mail : ValidationSession → Bytes → Bytes → ℕ → ParAvion
    bind_mail session mxid output id = record blank_par_avion {
      id = id;
      payload = some (record blank_payload {
        id = id;
        medium = session.medium;
        address = session.address;
        actkey = a_onbindnotify;
        retry = 1;
        mpthree = some (record { mxid = mxid; payload = output });
      });
    }

    -- The tokens under the address of the session.
    unfoldable pub find_tokens : ValidationSession → Action (Server Value Db) (List InviteToken)
    find_tokens session = do
      s ← get
      let asked = record blank_invite_token { medium = session.medium; address = session.address }
      many ← lift (
          get_many w.engine w.nodes (invite_token_table w.invite_token) s.db asked []
            i_invitetoken_medium_address 0 99999)
      return (values many.1)

    -- `Bind3pidAction` once the session has been checked: the signed output.
    unfoldable pub bind_session : ValidationSession → Bytes → Action (Server Value Db) Bytes
    bind_session session mxid = do
      s ← get
      let asked = record blank_local_assoc { medium = session.medium; address = session.address }
      local ← find w (local_assoc_table w.local_assoc) asked u_localassoc_medium_address
      bound ← bind_local mxid local
      let origin = record blank_global_assoc { origin_id = bound.0.id; origin_server = s.hostname }
      global ← find w (global_assoc_table w.global_assoc) origin u_globalassoc_originserver_originid
      trans ← bind_global session mxid bound.1 global
      tokens ← find_tokens session
      trans ← send_tokens tokens trans
      output ← lift (
          sign_result (record {
            medium = session.medium;
            address = session.address;
            validated_at = w.currtime;
            invites = first_invite mxid (map mark_sent tokens);
          }))
      mail_id ← next_main
      trans ←
          add w (par_avion_table w.par_avion) (bind_mail session mxid output mail_id) trans false
            "Cannot Insert paravion"
      commit_items w trans
      return output

    -- Bind3pidAction
    unfoldable pub bind_3pid : SubmitToken → Action (Server Value Db) Bytes
    bind_3pid subtok = do
      sid ← lift (stoul subtok.sid)
      lift (check_request sid subtok)
      lift (check_mxid subtok)
      s ← get
      found ← lift (find_session w sid s)
      session ← lift (check_session w subtok found)
      bind_session session subtok.mxid
