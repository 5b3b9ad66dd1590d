-- ===== src/Tables/Records.antt =====
-- The messages of proto/Store.proto that are kept in tables, one for each table of src/store.
use identt.Tables.Mail.{MPayload}
use identt.Prelude.{Option, none, ℕ, Bytes, [], Bool, false}

pub record InviteToken : Type 0 where
  pub id : ℕ
  pub medium : Bytes
  pub address : Bytes
  pub room_id : Bytes
  pub sender : Bytes
  pub token : Bytes
  pub received_ts : ℕ
  pub sent_ts : ℕ
  pub notfound : Bool

abbrev pub blank_invite_token : InviteToken
blank_invite_token = record {
  id = 0;
  medium = [];
  address = [];
  room_id = [];
  sender = [];
  token = [];
  received_ts = 0;
  sent_ts = 0;
  notfound = false;
}

pub record EphemeralPublicKey : Type 0 where
  pub id : ℕ
  pub public_key : Bytes
  pub verify_count : ℕ
  pub persistence_ts : ℕ
  pub notfound : Bool

abbrev pub blank_ephemeral_public_key : EphemeralPublicKey
blank_ephemeral_public_key = record {
  id = 0;
  public_key = [];
  verify_count = 0;
  persistence_ts = 0;
  notfound = false;
}

pub record Peer : Type 0 where
  pub id : ℕ
  pub name : Bytes
  pub port : ℕ
  pub last_seen_version : ℕ
  pub last_poke_succeded_at : ℕ
  pub active : ℕ
  pub notfound : Bool

abbrev pub blank_peer : Peer
blank_peer = record {
  id = 0;
  name = [];
  port = 0;
  last_seen_version = 0;
  last_poke_succeded_at = 0;
  active = 0;
  notfound = false;
}

pub record PeerPubKey : Type 0 where
  pub id : ℕ
  pub peername : Bytes
  pub alg : Bytes
  pub key : Bytes
  pub notfound : Bool

abbrev pub blank_peer_pub_key : PeerPubKey
blank_peer_pub_key = record { id = 0; peername = []; alg = []; key = []; notfound = false }

pub record LocalAssoc : Type 0 where
  pub id : ℕ
  pub medium : Bytes
  pub address : Bytes
  pub mxid : Bytes
  pub ts : ℕ
  pub not_before : ℕ
  pub not_after : ℕ
  pub notfound : Bool

abbrev pub blank_local_assoc : LocalAssoc
blank_local_assoc = record {
  id = 0;
  medium = [];
  address = [];
  mxid = [];
  ts = 0;
  not_before = 0;
  not_after = 0;
  notfound = false;
}

pub record GlobalAssoc : Type 0 where
  pub id : ℕ
  pub medium : Bytes
  pub address : Bytes
  pub mxid : Bytes
  pub ts : ℕ
  pub not_before : ℕ
  pub not_after : ℕ
  pub origin_server : Bytes
  pub origin_id : ℕ
  pub sg_assoc : Bytes
  pub notfound : Bool

abbrev pub blank_global_assoc : GlobalAssoc
blank_global_assoc = record {
  id = 0;
  medium = [];
  address = [];
  mxid = [];
  ts = 0;
  not_before = 0;
  not_after = 0;
  origin_server = [];
  origin_id = 0;
  sg_assoc = [];
  notfound = false;
}

pub record ValidationSession : Type 0 where
  pub id : ℕ
  pub medium : Bytes
  pub address : Bytes
  pub client_secret : Bytes
  pub validated : ℕ
  pub mtime : ℕ
  pub notfound : Bool

abbrev pub blank_validation_session : ValidationSession
blank_validation_session = record {
  id = 0;
  medium = [];
  address = [];
  client_secret = [];
  validated = 0;
  mtime = 0;
  notfound = false;
}

pub record TokenAuth : Type 0 where
  pub id : ℕ
  pub validation_session : ℕ
  pub token : Bytes
  pub send_attempt_number : ℕ
  pub notfound : Bool

abbrev pub blank_token_auth : TokenAuth
blank_token_auth = record {
  id = 0;
  validation_session = 0;
  token = [];
  send_attempt_number = 0;
  notfound = false;
}

pub record AccessKey : Type 0 where
  pub id : ℕ
  pub medium : Bytes
  pub address : Bytes
  pub accesskey : Bytes
  pub notfound : Bool

abbrev pub blank_access_key : AccessKey
blank_access_key = record { id = 0; medium = []; address = []; accesskey = []; notfound = false }

pub record BlobStore : Type 0 where
  pub id : ℕ
  pub keyid : ℕ
  pub tag : Bytes
  pub jsondata : Bytes
  pub textdata : Bytes
  pub notfound : Bool

abbrev pub blank_blob_store : BlobStore
blank_blob_store = record {
  id = 0;
  keyid = 0;
  tag = [];
  jsondata = [];
  textdata = [];
  notfound = false;
}

pub record ParAvion : Type 0 where
  pub id : ℕ
  pub medium : Bytes
  pub payload : Option MPayload
  pub notfound : Bool

abbrev pub blank_par_avion : ParAvion
blank_par_avion = record { id = 0; medium = []; payload = none; notfound = false }

pub record MailSent : Type 0 where
  pub id : ℕ
  pub medium : Bytes
  pub sent_at : ℕ
  pub sent_by : Bytes
  pub payload : Option MPayload
  pub notfound : Bool

abbrev pub blank_mail_sent : MailSent
blank_mail_sent = record {
  id = 0;
  medium = [];
  sent_at = 0;
  sent_by = [];
  payload = none;
  notfound = false;
}
