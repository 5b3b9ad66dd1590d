-- ===== src/Services/Requests.antt =====
-- The messages of proto/Query.proto that the actions take and fill, and the error codes of
-- include/query/SydentQuery.hpp.
use identt.Prelude.{ℕ, Bytes, [], List, Bool, false}

abbrev pub m_incorrect_client_secret : ℕ
m_incorrect_client_secret = 104

abbrev pub m_invalid_email : ℕ
m_invalid_email = 105

abbrev pub m_invalid_phone_number : ℕ
m_invalid_phone_number = 107

abbrev pub m_missing_params : ℕ
m_missing_params = 108

abbrev pub m_no_valid_session : ℕ
m_no_valid_session = 110

abbrev pub m_session_expired : ℕ
m_session_expired = 111

abbrev pub m_session_not_validated : ℕ
m_session_not_validated = 112

abbrev pub m_threepid_in_use : ℕ
m_threepid_in_use = 116

-- THREEPID_SESSION_VALID_LIFETIME_MS, three days.
abbrev pub session_lifetime : ℕ
session_lifetime = 259200000

pub record RequestToken : Type 0 where
  pub client_secret : Bytes
  pub send_attempt : ℕ
  pub email : Bytes
  pub country : Bytes
  pub phone_number : Bytes
  pub next_link : Bytes

pub record SuccessSid : Type 0 where
  pub success : Bool
  pub sid : Bytes
  pub msisdn : Bytes
  pub intl_fmt : Bytes

pub record SubmitToken : Type 0 where
  pub sid : Bytes
  pub client_secret : Bytes
  pub token : Bytes
  pub mxid : Bytes

-- The field `error` of the result of a successful validation.
pub data Outcome : Type 0 where
  now_validated : Outcome
  already_validated : Outcome

pub record ValidatedAt : Type 0 where
  pub medium : Bytes
  pub address : Bytes
  pub validated_at : ℕ

pub record LookupQuery : Type 0 where
  pub medium : Bytes
  pub address : Bytes
  pub accesskey : Bytes

pub record LookupResult : Type 0 where
  pub medium : Bytes
  pub address : Bytes
  pub mxid : Bytes
  pub ts : ℕ
  pub not_before : ℕ
  pub not_after : ℕ

abbrev pub blank_lookup_result : LookupResult
blank_lookup_result = record {
  medium = [];
  address = [];
  mxid = [];
  ts = 0;
  not_before = 0;
  not_after = 0;
}

pub record AccessBlob : Type 0 where
  pub accesskey : Bytes
  pub tag : Bytes
  pub jsondata : Bytes
  pub textdata : Bytes
  pub ts : ℕ
  pub accessdenied : Bool

abbrev pub blank_access_blob : AccessBlob
blank_access_blob = record {
  accesskey = [];
  tag = [];
  jsondata = [];
  textdata = [];
  ts = 0;
  accessdenied = false;
}

pub record InviteQuery : Type 0 where
  pub medium : Bytes
  pub address : Bytes
  pub room_id : Bytes
  pub sender : Bytes
  pub accesskey : Bytes

pub record PubKeyRet : Type 0 where
  pub key_validity_url : Bytes
  pub public_key : Bytes

pub record InviteResult : Type 0 where
  pub token : Bytes
  pub public_key : Bytes
  pub public_keys : List PubKeyRet

abbrev pub blank_success_sid : SuccessSid
blank_success_sid = record { success = false; sid = []; msisdn = []; intl_fmt = [] }

abbrev pub blank_validated_at : ValidatedAt
blank_validated_at = record { medium = []; address = []; validated_at = 0 }

abbrev pub blank_invite_result : InviteResult
blank_invite_result = record { token = []; public_key = []; public_keys = [] }
