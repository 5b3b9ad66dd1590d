-- ===== src/Tables/Mail.antt =====
-- The messages of proto/Mail.proto that are stored: what is to be sent by mail or by SMS. A message
-- inside another one is there or is not.
use identt.Prelude.{ℕ, Bytes, [], Option, none}

pub record MpOne : Type 0 where
  pub sid : Bytes
  pub country : Bytes
  pub token : Bytes
  pub phone_no_isd : Bytes

pub record MpTwo : Type 0 where
  pub room_id : Bytes
  pub sender : Bytes
  pub token : Bytes
  pub ephemeral_private_key : Bytes

pub record MpThree : Type 0 where
  pub mxid : Bytes
  pub payload : Bytes

pub record MPayload : Type 0 where
  pub id : ℕ
  pub medium : Bytes
  pub address : Bytes
  -- a value of `ActTypeE`
  pub actkey : ℕ
  pub retry : ℕ
  pub mpone : Option MpOne
  pub mptwo : Option MpTwo
  pub mpthree : Option MpThree

abbrev pub blank_payload : MPayload
blank_payload = record {
  id = 0;
  medium = [];
  address = [];
  actkey = 0;
  retry = 0;
  mpone = none;
  mptwo = none;
  mpthree = none;
}
