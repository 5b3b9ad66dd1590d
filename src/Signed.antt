-- ===== src/Signed.antt =====
-- src/crypto/Ed25519.cc, include/crypto/CryptoTraits.hpp and src/query/SignedJson.cc: keys,
-- and the signing and verifying of JSON. libsodium's functions are parameters.
pub mod Verified
pub mod Refused
use Prim.Native.Nat.{bit_and}
use identt.Prelude.{
  ℕ, Bytes, List, [], ◌∷◌, ◌++◌, Bool, true, false, not, Option, none, some, beq, codes, ◌==◌, ◌&&◌,
  length, if◌then◌else◌,
}
use identt.Exception.{Result, ok, err, bad_data, bad_code, sydent, throw_if, ◌>>=◌, ◌>>◌}
use identt.Bin2Ascii.Base64.{b64_encode_strip, b64_sanit_decode}
use identt.Keys.{sep}
use identt.Hrpc.Master.{PubKey}
use identt.Query.{m_bad_json}
use identt.Json.{Rapid, Json, Signature, unsigned2signedjson, pb2signedjson, signedjson2unsigned}

-- IDENTT_CRYPTO_SCOPE_SIGNIT and so on
abbrev pub scope_signit : ℕ
scope_signit = 4

abbrev pub scope_verify : ℕ
scope_verify = 8

abbrev pub scope_signit_verify : ℕ
scope_signit_verify = 12

abbrev pub scope_all : ℕ
scope_all = 15

-- crypto_sign_ed25519_detached of a text and a secret key, and its verification.
pub record Sodium : Type 0 where
  pub sign_detached : Bytes → Bytes → Bytes
  pub verify_detached : Bytes → Bytes → Bytes → Bool

pub record Ed25519 : Type 0 where
  pub pubkey : Bytes
  pub seckey : Bytes
  pub scope : ℕ

-- The constructor with two keys.
unfoldable pub two_keys : Bytes → Bytes → Result Ed25519
two_keys pkey skey = do
  pubkey ← b64_sanit_decode pkey
  seckey ← b64_sanit_decode skey
  throw_if (not (length pubkey == 32)) (bad_data "Bad Public Key")
  throw_if (not (length seckey == 64)) (bad_data "Bad Secret Key")
  ok (record { pubkey = pubkey; seckey = seckey; scope = scope_all })

-- The constructor with one key and a scope, for the scopes to sign and to verify.
unfoldable pub one_key : ℕ → Bytes → Result Ed25519
one_key scope onekey =
    if not (bit_and scope scope_signit == 0)
    then (b64_sanit_decode onekey >>= λ key.
        ok (record { pubkey = []; seckey = key; scope = scope_signit }))
    else if not (bit_and scope scope_verify == 0)
    then (b64_sanit_decode onekey >>= λ key.
        ok (record { pubkey = key; seckey = []; scope = scope_verify }))
    else err (bad_code "Undefined constructor for ED25519")

-- CryptoTraits::Create
unfoldable pub create : Bytes → Bytes → Bytes → Result Ed25519
unfolding two_keys
create ctype pkey skey =
    if beq ctype (codes "ed25519") then two_keys pkey skey else err (bad_code "Bogus Algo")

unfoldable pub create_one : Bytes → ℕ → Bytes → Result Ed25519
unfolding one_key
create_one ctype scope key =
    if beq ctype (codes "ed25519") then one_key scope key else err (bad_code "Bogus Algo")

-- GetSignature
unfoldable pub get_signature : Sodium → Ed25519 → Bytes → Result Bytes
get_signature sodium key input =
    if bit_and key.scope scope_signit == 0
    then err (bad_code "This class cannot sign")
    else ok (b64_encode_strip (sodium.sign_detached input key.seckey))

-- VerifySignature
unfoldable pub verify_signature : Sodium → Ed25519 → Bytes → Bytes → Result Bool
verify_signature sodium key signature input =
    if bit_and key.scope scope_verify == 0
    then err (bad_code "This class cannot verify")
    else (b64_sanit_decode signature >>= λ decoded.
        ok (sodium.verify_detached decoded input key.pubkey))

-- `keyring.find(pkid)`
unfoldable pub ring_key : Bytes → List (Bytes × Ed25519) → Option Ed25519
ring_key pkid [] = none
ring_key pkid ((k, key) ∷ rest) =
    let later = ring_key pkid rest in if beq pkid k then some key else later

-- The id of a key in the keyring.
unfoldable pub key_id : PubKey → Bytes
key_id pubkey = pubkey.algo ++ (sep ++ pubkey.identifier)

-- GetSigner. The scope to sign, and that to verify, has a bit of the first test.
unfoldable pub get_signer : List (Bytes × Ed25519) → PubKey → ℕ → Result Ed25519
unfolding ring_key key_id create create_one
get_signer keyring pubkey scope =
    if not pubkey.no_keyring
    then elim (ring_key (key_id pubkey) keyring) [
      | none ↦ err (sydent "Invalid Signing Key" m_bad_json)
      | some key ↦ ok key
    ]
    else if not (bit_and scope scope_signit_verify == 0)
    then create pubkey.algo pubkey.public_key pubkey.private_key
    else if not (bit_and scope scope_signit == 0)
    then create_one pubkey.algo scope_signit pubkey.private_key
    else if not (bit_and scope scope_verify == 0)
    then create_one pubkey.algo scope_verify pubkey.public_key
    else err (sydent "Invalid scope of Signing Key" m_bad_json)

-- `if (ret<0) throw ...`; the text of the exception leaves out what rapidjson says.
unfoldable pub or_bad_json : Option Bytes → Result Bytes
or_bad_json none = err (sydent "Bad Json Format: " m_bad_json)
or_bad_json (some output) = ok output

module _ (json : Rapid) (sodium : Sodium) (keyring : List (Bytes × Ed25519)) where
  -- The signature of a text under a key.
  unfoldable pub signature_of : PubKey → Bytes → Result Signature
  unfolding get_signer get_signature key_id
  signature_of pubkey tosign = do
    mykey ← get_signer keyring pubkey scope_signit
    value ← get_signature sodium mykey tosign
    ok (record { org = pubkey.owner; key = key_id pubkey; value = value })

  -- AddSign of a text, with the unsigned part `uinput`, which is empty if there is none: the
  -- signatures with the new one, and the output.
  unfoldable pub add_sign_text :
      Bytes → Bytes → PubKey → List Signature → Result (List Signature × Bytes)
  unfolding signature_of unsigned2signedjson or_bad_json
  add_sign_text input uinput pubkey signatures = do
    s ← signature_of pubkey input
    let all = signatures ++ s ∷ []
    output ← (unsigned2signedjson json input uinput all >>= or_bad_json)
    ok (all, output)

  -- AddSign of a message, whose value in JSON is `msg`.
  unfoldable pub add_sign : Json → PubKey → List Signature → Result (List Signature × Bytes)
  unfolding signature_of pb2signedjson
  add_sign msg pubkey signatures = do
    s ← signature_of pubkey (json.print msg)
    let all = signatures ++ s ∷ []
    ok (all, pb2signedjson json msg all)

  -- The loop over the signatures: the last one of the owner and the key is taken.
  unfoldable pub find_signature : Bytes → Bytes → List Signature → Option Bytes → Option Bytes
  find_signature owner pkid [] found = found
  find_signature owner pkid (s ∷ signatures) found =
      find_signature owner pkid signatures
        (if beq s.org owner && beq s.key pkid then some s.value else found)

  -- VerifySign, from the split text on: the text that was signed, and the unsigned part.
  unfoldable pub verify_split :
      PubKey → Option (Bytes × Bytes × List Signature) → Result (Bytes × Bytes)
  unfolding find_signature get_signer verify_signature key_id
  verify_split pubkey none = err (sydent "Invalid Json cannot create unsigned" m_bad_json)
  verify_split pubkey (some (output, uoutput, signatures)) =
      elim (find_signature pubkey.owner (key_id pubkey) signatures none) [
        | none ↦ err (sydent "Invalid Json no signature" m_bad_json)
        | some signa ↦
            (get_signer keyring pubkey scope_verify >>= λ mykey.
            verify_signature sodium mykey signa output >>= λ valid.
            throw_if (not valid) (sydent "Invalid Signature" m_bad_json) >> ok (output, uoutput))
      ]

  unfoldable pub verify_sign : Bytes → PubKey → List Signature → Result (Bytes × Bytes)
  unfolding signedjson2unsigned verify_split
  verify_sign input pubkey signatures =
      signedjson2unsigned json input signatures >>= λ parts. verify_split pubkey parts
