-- ===== src/Hrpc/Messages.antt =====
-- The messages of proto/Query.proto that a slave sends to its master, and the numbers of
-- proto/Hrpc.proto under which it sends them.
use identt.Prelude.{ℕ, Bytes, List, [], Bool, false, Option}
use identt.Services.Requests.{
  RequestToken, SuccessSid, SubmitToken, Outcome, ValidatedAt, LookupQuery, LookupResult,
  AccessBlob, InviteQuery, InviteResult,
}
use identt.Services.MailSms.{MailQuery}
use identt.Hrpc.{Wire}

-- MasterCmdTypeE
abbrev pub m_requesttoken : ℕ
m_requesttoken = 1

abbrev pub m_submittoken : ℕ
m_submittoken = 2

abbrev pub m_getvalidated3pid : ℕ
m_getvalidated3pid = 3

abbrev pub m_bind3pid : ℕ
m_bind3pid = 4

abbrev pub m_lookup : ℕ
m_lookup = 5

abbrev pub m_bulklookup : ℕ
m_bulklookup = 6

abbrev pub m_getpubkey : ℕ
m_getpubkey = 7

abbrev pub m_getpubkeyvalid : ℕ
m_getpubkeyvalid = 8

abbrev pub m_getephemeralvalid : ℕ
m_getephemeralvalid = 9

abbrev pub m_storeinvite : ℕ
m_storeinvite = 10

abbrev pub m_pending : ℕ
m_pending = 11

abbrev pub m_getaccesskey : ℕ
m_getaccesskey = 12

abbrev pub m_setblobdata : ℕ
m_setblobdata = 13

abbrev pub m_getblobdata : ℕ
m_getblobdata = 14

pub record RequestTokenData : Type 0 where
  pub reqtok : RequestToken
  pub ssid : SuccessSid
  pub medium : Bytes
  pub token : Bytes

-- The result is unset in a query.
pub record SubmitTokenData : Type 0 where
  pub subtok : SubmitToken
  pub result : Option Outcome
  pub medium : Bytes

pub record GetValidated3pidData : Type 0 where
  pub subtok : SubmitToken
  pub valresult : ValidatedAt

pub record Bind3pidData : Type 0 where
  pub subtok : SubmitToken
  pub output : Bytes

pub record LookupData : Type 0 where
  pub query : LookupQuery
  pub result : LookupResult

pub record BulkLookupData : Type 0 where
  pub threepids : List LookupQuery
  pub accesskey : Bytes
  pub result : List LookupResult

pub record PubKey : Type 0 where
  pub algo : Bytes
  pub identifier : Bytes
  pub valid : Bool
  pub owner : Bytes
  pub public_key : Bytes
  pub private_key : Bytes
  pub no_keyring : Bool

abbrev pub blank_pub_key : PubKey
blank_pub_key = record {
  algo = [];
  identifier = [];
  valid = false;
  owner = [];
  public_key = [];
  private_key = [];
  no_keyring = false;
}

pub record StoreInviteData : Type 0 where
  pub invqry : InviteQuery
  pub invres : InviteResult

pub record GetAccessData : Type 0 where
  pub subtok : SubmitToken
  pub accessblob : AccessBlob

-- The protobuf encodings of the messages.
pub record MasterCodecs : Type 0 where
  pub request_token : Wire RequestTokenData
  pub submit_token : Wire SubmitTokenData
  pub get_validated : Wire GetValidated3pidData
  pub bind : Wire Bind3pidData
  pub lookup : Wire LookupData
  pub bulk_lookup : Wire BulkLookupData
  pub pub_key : Wire PubKey
  pub store_invite : Wire StoreInviteData
  pub mail : Wire MailQuery
  pub get_access : Wire GetAccessData
  pub blob : Wire AccessBlob
