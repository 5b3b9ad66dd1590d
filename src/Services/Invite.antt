-- ===== src/Services/Invite.antt =====
-- src/store/InviteService.cc: an invitation to an address that no user is bound to. The text of the
-- new token and the new key pair are arguments.
use identt.Prelude.{
  ℕ, Bytes, List, [], ◌∷◌, ◌++◌, Bool, false, ◌&&◌, not, some, codes, if◌then◌else◌,
}
use identt.Exception.{Result, ok, err, bad_data, sydent}
use identt.Keys.{i_globalassoc_medium_address, i_invitetoken_token, u_ephemeralpublickey_publickey}
use identt.Server.{World, Server, Action, return, lift, get, next_main, ◌>>=◌, ◌>>◌}
use identt.Trans.{is_empty}
use identt.Table.Scans.{get_many}
use identt.Tables.Records.{
  blank_global_assoc, InviteToken, blank_invite_token, EphemeralPublicKey,
  blank_ephemeral_public_key, ParAvion, blank_par_avion,
}
use identt.Tables.Mail.{blank_payload}
use identt.Tables.Unique.{ephemeral_public_key_table}
use identt.Tables.Indexes.{global_assoc_table, invite_token_table, par_avion_table}
use identt.Services.Requests.{InviteQuery, InviteResult, m_threepid_in_use}
use identt.Services.Common.{find, add, commit_items}

-- A_ROOMINVITE
abbrev pub a_roominvite : ℕ
a_roominvite = 13

-- What the random generators give: a UUID and an Ed25519 key pair.
pub record Fresh : Type 0 where
  pub token : Bytes
  pub public_key : Bytes
  pub secret_key : Bytes

-- `if (found && map.size()>0) throw ...`
unfoldable pub none_found :
    {T : Type 0} → Result (Unit {0}) → Bool × List (ℕ × T) → Result (Unit {0})
none_found refusal (found, records) = if found && not (is_empty records) then refusal else ok tt

module _ {Value Db : Type 0} (w : World Value Db) where
  unfoldable pub invite_token : InviteQuery → Fresh → ℕ → InviteToken
  invite_token query fresh id = record blank_invite_token {
    id = id;
    medium = query.medium;
    address = query.address;
    room_id = query.room_id;
    sender = query.sender;
    token = fresh.token;
    received_ts = w.currtime;
  }

  unfoldable pub ephemeral_key : Fresh → ℕ → EphemeralPublicKey
  ephemeral_key fresh id = record blank_ephemeral_public_key {
    id = id;
    public_key = fresh.public_key;
    persistence_ts = w.currtime;
    verify_count = 0;
  }

  unfoldable pub invite_mail : InviteQuery → Fresh → ℕ → ParAvion
  invite_mail query fresh id = record blank_par_avion {
    id = id;
    payload = some (record blank_payload {
      id = id;
      medium = query.medium;
      address = query.address;
      actkey = a_roominvite;
      retry = 1;
      mptwo = some (record {
        room_id = query.room_id;
        sender = query.sender;
        token = fresh.token;
        ephemeral_private_key = fresh.secret_key;
      });
    });
  }

  -- The answer, with the public key of the server.
  unfoldable pub invite_result : Bytes → Fresh → Server Value Db → InviteResult
  invite_result server_key fresh s = record {
    token = fresh.token;
    public_key = server_key;
    public_keys =
        record {
          key_validity_url = s.baseurl ++ codes "/_matrix/identity/api/v1/pubkey/isvalid";
          public_key = server_key;
        }
        ∷ record {
          key_validity_url = s.baseurl ++ codes "_matrix/identity/api/v1/pubkey/ephemeral/isvalid";
          public_key = fresh.public_key;
        }
        ∷ [];
  }

  -- No user is bound to the address.
  unfoldable pub check_unbound : InviteQuery → Action (Server Value Db) (Unit {0})
  check_unbound query = do
    s ← get
    let asked = record blank_global_assoc { medium = query.medium; address = query.address }
    many ← lift (
        get_many w.engine w.nodes (global_assoc_table w.global_assoc) s.db asked []
          i_globalassoc_medium_address 0 1)
    lift (none_found (err (sydent "Binding already known" m_threepid_in_use)) many)

  unfoldable pub check_token_new : Fresh → Action (Server Value Db) (Unit {0})
  check_token_new fresh = do
    s ← get
    many ← lift (
        get_many w.engine w.nodes (invite_token_table w.invite_token) s.db
          (record blank_invite_token { token = fresh.token }) [] i_invitetoken_token 0 1)
    lift (none_found (err (bad_data "Duplicate token Generated , please retry")) many)

  unfoldable pub check_key_new : Bool → Result (Unit {0})
  check_key_new found =
      if found then err (bad_data "Duplicate Public Key Generated , please retry") else ok tt

  -- StoreInviteAction
  unfoldable pub store_invite : Bytes → Fresh → InviteQuery → Action (Server Value Db) InviteResult
  store_invite server_key fresh query = do
    check_unbound query
    check_token_new fresh
    token_id ← next_main
    trans ←
        add w (invite_token_table w.invite_token) (invite_token query fresh token_id) [] false
          "Cannot Insert token"
    found ←
        find w (ephemeral_public_key_table w.ephemeral)
          (record blank_ephemeral_public_key { public_key = fresh.public_key })
          u_ephemeralpublickey_publickey
    lift (check_key_new found.0)
    key_id ← next_main
    trans ←
        add w (ephemeral_public_key_table w.ephemeral) (ephemeral_key fresh key_id) trans false
          "Cannot Insert ephemeral key"
    mail_id ← next_main
    trans ←
        add w (par_avion_table w.par_avion) (invite_mail query fresh mail_id) trans false
          "Cannot Insert paravion"
    commit_items w trans
    s ← get
    return (invite_result server_key fresh s)
