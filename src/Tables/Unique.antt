-- ===== src/Tables/Unique.antt =====
-- The tables with one unique key and no index: their constructors and `GetKey` (src/store).
use identt.Prelude.{Bytes, [], ◌∷◌, Bool, ◌==◌, if◌then◌else◌}
use identt.Keys.{
  KeyType, uint, strn, encode_primary_key, encode_secondary_key, k_ephemeralpublickey,
  u_ephemeralpublickey_publickey, k_peer, u_peer_name, k_peerpubkey, u_peerpubkey_peername_alg,
  k_localassoc, u_localassoc_medium_address, k_validationsession,
  u_validationsession_medium_address_clientsecret, k_tokenauth, u_tokenauth_validationsession,
  k_accesskey, u_accesskey_medium_address, k_blobstore, u_blobstore_keyid_tag,
}
use identt.Engine.{Codec}
use identt.Table.{Table}
use identt.Tables.Records.{
  EphemeralPublicKey, blank_ephemeral_public_key, Peer, blank_peer, PeerPubKey, blank_peer_pub_key,
  LocalAssoc, blank_local_assoc, ValidationSession, blank_validation_session, TokenAuth,
  blank_token_auth, AccessKey, blank_access_key, BlobStore, blank_blob_store,
}

unfoldable pub ephemeral_public_key_key : EphemeralPublicKey → KeyType → Bool → Bytes
ephemeral_public_key_key r keytype pre =
    if keytype == u_ephemeralpublickey_publickey
    then encode_secondary_key keytype (strn r.public_key ∷ [])
    else encode_primary_key k_ephemeralpublickey r.id

abbrev pub ephemeral_public_key_table :
    {Value : Type 0} → Codec Value EphemeralPublicKey → Table Value EphemeralPublicKey
ephemeral_public_key_table codec = record {
  primary_key = k_ephemeralpublickey;
  unique_keys = u_ephemeralpublickey_publickey ∷ [];
  index_keys = [];
  get_key = ephemeral_public_key_key;
  codec = codec;
  blank = blank_ephemeral_public_key;
  id = λ r. r.id;
  set_id = λ i r. record r { id = i };
  notfound = λ r. r.notfound;
}

unfoldable pub peer_key : Peer → KeyType → Bool → Bytes
peer_key r keytype pre =
    if keytype == u_peer_name
    then encode_secondary_key keytype (strn r.name ∷ [])
    else encode_primary_key k_peer r.id

abbrev pub peer_table : {Value : Type 0} → Codec Value Peer → Table Value Peer
peer_table codec = record {
  primary_key = k_peer;
  unique_keys = u_peer_name ∷ [];
  index_keys = [];
  get_key = peer_key;
  codec = codec;
  blank = blank_peer;
  id = λ r. r.id;
  set_id = λ i r. record r { id = i };
  notfound = λ r. r.notfound;
}

unfoldable pub peer_pub_key_key : PeerPubKey → KeyType → Bool → Bytes
peer_pub_key_key r keytype pre =
    if keytype == u_peerpubkey_peername_alg
    then encode_secondary_key keytype (strn r.peername ∷ strn r.alg ∷ [])
    else encode_primary_key k_peerpubkey r.id

abbrev pub peer_pub_key_table : {Value : Type 0} → Codec Value PeerPubKey → Table Value PeerPubKey
peer_pub_key_table codec = record {
  primary_key = k_peerpubkey;
  unique_keys = u_peerpubkey_peername_alg ∷ [];
  index_keys = [];
  get_key = peer_pub_key_key;
  codec = codec;
  blank = blank_peer_pub_key;
  id = λ r. r.id;
  set_id = λ i r. record r { id = i };
  notfound = λ r. r.notfound;
}

unfoldable pub local_assoc_key : LocalAssoc → KeyType → Bool → Bytes
local_assoc_key r keytype pre =
    if keytype == u_localassoc_medium_address
    then encode_secondary_key keytype (strn r.medium ∷ strn r.address ∷ [])
    else encode_primary_key k_localassoc r.id

abbrev pub local_assoc_table : {Value : Type 0} → Codec Value LocalAssoc → Table Value LocalAssoc
local_assoc_table codec = record {
  primary_key = k_localassoc;
  unique_keys = u_localassoc_medium_address ∷ [];
  index_keys = [];
  get_key = local_assoc_key;
  codec = codec;
  blank = blank_local_assoc;
  id = λ r. r.id;
  set_id = λ i r. record r { id = i };
  notfound = λ r. r.notfound;
}

unfoldable pub validation_session_key : ValidationSession → KeyType → Bool → Bytes
validation_session_key r keytype pre =
    if keytype == u_validationsession_medium_address_clientsecret
    then encode_secondary_key keytype (strn r.medium ∷ strn r.address ∷ strn r.client_secret ∷ [])
    else encode_primary_key k_validationsession r.id

abbrev pub validation_session_table :
    {Value : Type 0} → Codec Value ValidationSession → Table Value ValidationSession
validation_session_table codec = record {
  primary_key = k_validationsession;
  unique_keys = u_validationsession_medium_address_clientsecret ∷ [];
  index_keys = [];
  get_key = validation_session_key;
  codec = codec;
  blank = blank_validation_session;
  id = λ r. r.id;
  set_id = λ i r. record r { id = i };
  notfound = λ r. r.notfound;
}

unfoldable pub token_auth_key : TokenAuth → KeyType → Bool → Bytes
token_auth_key r keytype pre =
    if keytype == u_tokenauth_validationsession
    then encode_secondary_key keytype (uint r.validation_session ∷ [])
    else encode_primary_key k_tokenauth r.id

abbrev pub token_auth_table : {Value : Type 0} → Codec Value TokenAuth → Table Value TokenAuth
token_auth_table codec = record {
  primary_key = k_tokenauth;
  unique_keys = u_tokenauth_validationsession ∷ [];
  index_keys = [];
  get_key = token_auth_key;
  codec = codec;
  blank = blank_token_auth;
  id = λ r. r.id;
  set_id = λ i r. record r { id = i };
  notfound = λ r. r.notfound;
}

unfoldable pub access_key_key : AccessKey → KeyType → Bool → Bytes
access_key_key r keytype pre =
    if keytype == u_accesskey_medium_address
    then encode_secondary_key keytype (strn r.medium ∷ strn r.address ∷ [])
    else encode_primary_key k_accesskey r.id

abbrev pub access_key_table : {Value : Type 0} → Codec Value AccessKey → Table Value AccessKey
access_key_table codec = record {
  primary_key = k_accesskey;
  unique_keys = u_accesskey_medium_address ∷ [];
  index_keys = [];
  get_key = access_key_key;
  codec = codec;
  blank = blank_access_key;
  id = λ r. r.id;
  set_id = λ i r. record r { id = i };
  notfound = λ r. r.notfound;
}

unfoldable pub blob_store_key : BlobStore → KeyType → Bool → Bytes
blob_store_key r keytype pre =
    if keytype == u_blobstore_keyid_tag
    then encode_secondary_key keytype (uint r.keyid ∷ strn r.tag ∷ [])
    else encode_primary_key k_blobstore r.id

abbrev pub blob_store_table : {Value : Type 0} → Codec Value BlobStore → Table Value BlobStore
blob_store_table codec = record {
  primary_key = k_blobstore;
  unique_keys = u_blobstore_keyid_tag ∷ [];
  index_keys = [];
  get_key = blob_store_key;
  codec = codec;
  blank = blank_blob_store;
  id = λ r. r.id;
  set_id = λ i r. record r { id = i };
  notfound = λ r. r.notfound;
}
