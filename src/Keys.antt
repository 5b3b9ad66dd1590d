-- ===== src/Keys.antt =====
-- The layout of database keys: include/store/StoreBase.hpp, src/store/StoreBase.cc and the
-- enumeration `KeyTypeE` of proto/Store.proto, in the default build (IDENTT_USE_BASE80_KEYS unset).
-- A key type is a number, since the code casts numbers that it has read to `KeyTypeE`.
pub mod Hex
pub mod Stoull
pub mod Roundtrip
pub mod Distinct
pub mod Separator
pub mod Order
use identt.Prelude.{
  ℕ, zero, suc, ◌+◌, ◌%◌, ◌^◌, Bytes, List, [], ◌∷◌, ◌++◌, ltb, length, take, drop, if◌then◌else◌,
}
use identt.Exception.{Result, ok, err, bad_data, ◌>>=◌}
use Hex.{hex}
use Stoull.{stoull}

abbrev pub KeyType : Type 0
KeyType = ℕ

abbrev pub k_nonode : KeyType
k_nonode = 10

abbrev pub k_invitetoken : KeyType
k_invitetoken = 11

abbrev pub k_ephemeralpublickey : KeyType
k_ephemeralpublickey = 12

abbrev pub k_peer : KeyType
k_peer = 13

abbrev pub k_peerpubkey : KeyType
k_peerpubkey = 14

abbrev pub k_localassoc : KeyType
k_localassoc = 15

abbrev pub k_globalassoc : KeyType
k_globalassoc = 16

abbrev pub k_validationsession : KeyType
k_validationsession = 17

abbrev pub k_tokenauth : KeyType
k_tokenauth = 18

abbrev pub k_paravion : KeyType
k_paravion = 19

abbrev pub k_mailsent : KeyType
k_mailsent = 20

abbrev pub k_accesskey : KeyType
k_accesskey = 21

abbrev pub k_blobstore : KeyType
k_blobstore = 22

abbrev pub k_lognode : KeyType
k_lognode = 23

abbrev pub k_maxnode : KeyType
k_maxnode = 24

abbrev pub i_invitetoken_medium_address : KeyType
i_invitetoken_medium_address = 51

abbrev pub i_invitetoken_token : KeyType
i_invitetoken_token = 52

abbrev pub u_ephemeralpublickey_publickey : KeyType
u_ephemeralpublickey_publickey = 53

abbrev pub u_peer_name : KeyType
u_peer_name = 54

abbrev pub u_peerpubkey_peername_alg : KeyType
u_peerpubkey_peername_alg = 55

abbrev pub u_localassoc_medium_address : KeyType
u_localassoc_medium_address = 56

abbrev pub i_globalassoc_medium_address : KeyType
i_globalassoc_medium_address = 57

abbrev pub u_globalassoc_originserver_originid : KeyType
u_globalassoc_originserver_originid = 59

abbrev pub u_tokenauth_validationsession : KeyType
u_tokenauth_validationsession = 60

abbrev pub u_validationsession_medium_address_clientsecret : KeyType
u_validationsession_medium_address_clientsecret = 62

abbrev pub u_accesskey_medium_address : KeyType
u_accesskey_medium_address = 63

abbrev pub u_blobstore_keyid_tag : KeyType
u_blobstore_keyid_tag = 64

-- IDENTT_KEYID_LEN and IDENTT_NODE_LEN.
abbrev pub keyid_len : ℕ
keyid_len = 2

abbrev pub node_len : ℕ
node_len = 16

-- IDENTT_FMT_SEP, ":".
abbrev pub sep : Bytes
sep = 58 ∷ []

unfoldable pub encode_key_type : KeyType → Bytes
encode_key_type keytype = hex keyid_len keytype

-- IDENTT_FMT_NODE_ONLY, by which IDENTT_FMT_UINT_ONLY is defined.
unfoldable pub uint_only : ℕ → Bytes
uint_only a = hex node_len a

unfoldable pub encode_primary_key : KeyType → ℕ → Bytes
encode_primary_key keytype id = encode_key_type keytype ++ uint_only id

-- The type of one argument of `EncodeSecondaryKey`: uint64_t, std::string, or int32_t, which is
-- given by its bit pattern.
pub data KeyPart : Type 0 where
  uint : ℕ → KeyPart
  strn : Bytes → KeyPart
  sint : ℕ → KeyPart

unfoldable pub part_bytes : KeyPart → Bytes
part_bytes (uint n) = uint_only n
part_bytes (strn s) = s
part_bytes (sint n) = hex node_len (n % 2 ^ 32)

unfoldable pub joined : List KeyPart → Bytes
joined [] = []
joined (p ∷ []) = part_bytes p
joined (p ∷ q ∷ ps) = part_bytes p ++ (sep ++ joined (q ∷ ps))

-- The overloads of one, two and three arguments: the key type, then the parts, ":" between them.
unfoldable pub encode_secondary_key : KeyType → List KeyPart → Bytes
encode_secondary_key keytype parts = encode_key_type keytype ++ joined parts

unfoldable pub decode_primary_key : Bytes → Result (KeyType × ℕ)
decode_primary_key key =
    if ltb (length key) (keyid_len + node_len) then err (bad_data "Invalid Key probed") else do
      x ← stoull (take keyid_len key)
      y ← stoull (take node_len (drop keyid_len key))
      ok (x, y)
