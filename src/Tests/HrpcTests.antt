-- ===== src/Tests/HrpcTests.antt =====
-- Instances of the theorems on the calls from a slave to its master.
use identt.Prelude.{
  ℕ, ◌≡◌, ◌≢◌, refl, Bytes, [], ◌∷◌, true, false, Bool, Option, none, some, ◌==◌, arith, codes,
  subst, beq,
}
use identt.Exception.{ok, err, undefined}
use identt.Services.Access.{get_pub_key_valid}
use identt.Hrpc.{Wire}
use identt.Hrpc.Master.{
  Ambient, MasterCodecs, PubKey, blank_pub_key, m_getpubkeyvalid, get_pub_key_valid_on,
}
use identt.Hrpc.Forward.{Carries, remote_call, as_seen}
use identt.Hrpc.Served.{
  getpubkeyvalid_service, Message, wire_of, number, action_of, remote_call_lem,
}
use identt.Tests.TransTests.{world, server}

-- A message that is never read.
abbrev pub unread : (M : Type 0) → Wire M
unread M = record { serialize = λ m. []; parse = λ s. none }

unfoldable pub flag : Bool → ℕ
flag true = 1
flag false = 0

unfoldable pub read_key : Bytes → Option PubKey
read_key [] = none
read_key (b ∷ key) = some (record blank_pub_key { public_key = key; valid = b == 1 })

abbrev pub keys : Wire PubKey
keys = record { serialize = λ k. flag k.valid ∷ k.public_key; parse = read_key }

abbrev pub codecs : MasterCodecs
codecs = record {
  request_token = unread _;
  submit_token = unread _;
  get_validated = unread _;
  bind = unread _;
  lookup = unread _;
  bulk_lookup = unread _;
  pub_key = keys;
  store_invite = unread _;
  mail = unread _;
  get_access = unread _;
  blob = unread _;
}

-- One key in the keyring, the bytes 7 and 8.
abbrev pub ambient : Ambient
ambient = record {
  isd_codes = [];
  uuid = [];
  fresh = record { token = []; public_key = []; secret_key = [] };
  server_key = [];
  keyring = (codes "ed25519:0", 7 ∷ 8 ∷ []) ∷ [];
  sign_assoc = λ a. ok [];
  sign_result = λ v. ok [];
}

abbrev asked : PubKey
asked = record blank_pub_key { public_key = 7 ∷ 8 ∷ [] }

abbrev told : PubKey
told = record asked { valid = true }

valid_told : get_pub_key_valid_on world ambient asked server ≡ (ok told, server)
unfolding get_pub_key_valid_on get_pub_key_valid beq
valid_told = refl

asked-Carries : Carries keys asked
unfolding flag read_key
asked-Carries = record {
  parse-serialize = refl;
  bytes = (omega arith, (omega arith, (omega arith, tt)));
}

told-Carries : Carries keys told
unfolding flag read_key
told-Carries = record {
  parse-serialize = refl;
  bytes = (omega arith, (omega arith, (omega arith, tt)));
}

told_ok : (r : PubKey) → (get_pub_key_valid_on world ambient asked server).0 ≡ ok r → Carries keys r
unfolding get_pub_key_valid_on get_pub_key_valid beq
told_ok r e = subst (λ k. Carries keys k) (cc e) told-Carries

told_defined : (get_pub_key_valid_on world ambient asked server).0 ≢ err undefined
unfolding get_pub_key_valid_on get_pub_key_valid beq
told_defined e = cc e

remote_call_lem_example :
    remote_call world ambient codecs
      (codes "secret")
      keys
      (codes "http://m")
      m_getpubkeyvalid
      asked
      server
    ≡ as_seen (get_pub_key_valid_on world ambient asked server)
unfolding Message wire_of number action_of
remote_call_lem_example =
    remote_call_lem world ambient codecs (codes "secret") getpubkeyvalid_service (codes "http://m")
      asked server refl refl asked-Carries told_ok told_defined
