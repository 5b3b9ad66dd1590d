-- ===== src/Tables/UniqueLaws.antt =====
-- Proofs on the unique-key tables of src/store: what `StoreTable` relies on.
use identt.Prelude.{ℕ, ◌<◌, ◌≡◌, ◌≢◌, ◌||◌, true, false, subst, sym, ==_iff, refl, [], ◌∷◌, arith}
use identt.Keys.{
  KeyType, encode_primary_key, u_peer_name, u_peerpubkey_peername_alg,
  u_validationsession_medium_address_clientsecret, u_ephemeralpublickey_publickey,
  u_accesskey_medium_address, u_localassoc_medium_address, u_tokenauth_validationsession,
  u_blobstore_keyid_tag, uint, strn, joined, encode_secondary_key,
}
use identt.Engine.{Codec}
use identt.Table.{Table, mem}
use identt.Table.Laws.{IsTable, Secondary, HasType}
use identt.Tables.Unique.{
  ephemeral_public_key_key, ephemeral_public_key_table, peer_key, peer_table, peer_pub_key_key,
  peer_pub_key_table, local_assoc_key, local_assoc_table, validation_session_key,
  validation_session_table, token_auth_key, token_auth_table, access_key_key, access_key_table,
  blob_store_key, blob_store_table,
}
use identt.Tables.Records.{
  EphemeralPublicKey, Peer, PeerPubKey, LocalAssoc, ValidationSession, TokenAuth, AccessKey,
  BlobStore,
}

module _ {Value T : Type 0} (t : Table Value T) (u : KeyType) where
  only_key : (k : KeyType) → t.unique_keys ≡ u ∷ [] → t.index_keys ≡ [] → Secondary t k → k ≡ u
  unfolding mem
  only_key k a b s =
      let both : (mem k (u ∷ []) || mem k []) ≡ true =
        subst (λ xs. (mem k (u ∷ []) || mem k xs) ≡ true) b
          (subst (λ xs. (mem k xs || mem k t.index_keys) ≡ true) a s) in
      ground (arith, ==_iff k u)

  only_unique : (k : KeyType) → t.unique_keys ≡ u ∷ [] → mem k t.unique_keys ≡ true → k ≡ u
  unfolding mem
  only_unique k a m =
      let it : mem k (u ∷ []) ≡ true = subst (λ xs. mem k xs ≡ true) a m in
      ground (arith, ==_iff k u)

  no_index : (k : KeyType) → t.index_keys ≡ [] → mem k t.index_keys ≢ true
  unfolding mem
  no_index k b m = let it : mem k [] ≡ true = subst (λ xs. mem k xs ≡ true) b m in cc it

  -- A table with one unique key and no index key.
  one_key-IsTable :
      t.unique_keys ≡ u ∷ []
      → t.index_keys ≡ []
      → ((i : ℕ) (r : T) → t.id (t.set_id i r) ≡ i)
      → t.primary_key < 256
      → ((r : T) → t.get_key r t.primary_key false ≡ encode_primary_key t.primary_key (t.id r))
      → u < 256
      → u ≢ t.primary_key
      → ((r : T) → HasType (t.get_key r u false) u)
      → ((i : ℕ) (r : T) → t.get_key (t.set_id i r) u false ≡ t.get_key r u false)
      → IsTable t
  one_key-IsTable a b id small primary u_small apart typed same = record {
    id-set_id = id;
    primary_small = small;
    get_key_primary = primary;
    secondary_small = λ k s. subst (λ x. x < 256) (sym (only_key k a b s)) u_small;
    secondary_ne_primary = λ k s. subst (λ x. x ≢ t.primary_key) (sym (only_key k a b s)) apart;
    get_key_type =
        λ r k s. subst (λ x. HasType (t.get_key r x false) x) (sym (only_key k a b s)) (typed r);
    unique_key_set_id = λ i r k m.
        subst (λ x. t.get_key (t.set_id i r) x false ≡ t.get_key r x false)
          (sym (only_unique k a m)) (same i r);
    index_key_id = λ r s k m. absurd (no_index k b m);
  }

pub ephemeral_public_key_table-IsTable :
    {Value : Type 0} (c : Codec Value EphemeralPublicKey) → IsTable (ephemeral_public_key_table c)
unfolding ephemeral_public_key_key encode_secondary_key
ephemeral_public_key_table-IsTable c =
    one_key-IsTable (ephemeral_public_key_table c) u_ephemeralpublickey_publickey refl refl
      (λ i r. refl) (omega arith) (λ r. refl) (omega arith) (λ e. omega (arith, e))
      (λ r. (joined (strn r.public_key ∷ []), refl)) (λ i r. refl)

pub peer_table-IsTable : {Value : Type 0} (c : Codec Value Peer) → IsTable (peer_table c)
unfolding peer_key encode_secondary_key
peer_table-IsTable c =
    one_key-IsTable (peer_table c) u_peer_name refl refl (λ i r. refl) (omega arith) (λ r. refl)
      (omega arith) (λ e. omega (arith, e)) (λ r. (joined (strn r.name ∷ []), refl)) (λ i r. refl)

pub peer_pub_key_table-IsTable :
    {Value : Type 0} (c : Codec Value PeerPubKey) → IsTable (peer_pub_key_table c)
unfolding peer_pub_key_key encode_secondary_key
peer_pub_key_table-IsTable c =
    one_key-IsTable (peer_pub_key_table c) u_peerpubkey_peername_alg refl refl (λ i r. refl)
      (omega arith) (λ r. refl) (omega arith) (λ e. omega (arith, e))
      (λ r. (joined (strn r.peername ∷ strn r.alg ∷ []), refl)) (λ i r. refl)

pub local_assoc_table-IsTable :
    {Value : Type 0} (c : Codec Value LocalAssoc) → IsTable (local_assoc_table c)
unfolding local_assoc_key encode_secondary_key
local_assoc_table-IsTable c =
    one_key-IsTable (local_assoc_table c) u_localassoc_medium_address refl refl (λ i r. refl)
      (omega arith) (λ r. refl) (omega arith) (λ e. omega (arith, e))
      (λ r. (joined (strn r.medium ∷ strn r.address ∷ []), refl)) (λ i r. refl)

pub validation_session_table-IsTable :
    {Value : Type 0} (c : Codec Value ValidationSession) → IsTable (validation_session_table c)
unfolding validation_session_key encode_secondary_key
validation_session_table-IsTable c =
    one_key-IsTable (validation_session_table c) u_validationsession_medium_address_clientsecret
      refl refl (λ i r. refl) (omega arith) (λ r. refl) (omega arith) (λ e. omega (arith, e))
      (λ r. (joined (strn r.medium ∷ strn r.address ∷ strn r.client_secret ∷ []), refl))
      (λ i r. refl)

pub token_auth_table-IsTable :
    {Value : Type 0} (c : Codec Value TokenAuth) → IsTable (token_auth_table c)
unfolding token_auth_key encode_secondary_key
token_auth_table-IsTable c =
    one_key-IsTable (token_auth_table c) u_tokenauth_validationsession refl refl (λ i r. refl)
      (omega arith) (λ r. refl) (omega arith) (λ e. omega (arith, e))
      (λ r. (joined (uint r.validation_session ∷ []), refl)) (λ i r. refl)

pub access_key_table-IsTable :
    {Value : Type 0} (c : Codec Value AccessKey) → IsTable (access_key_table c)
unfolding access_key_key encode_secondary_key
access_key_table-IsTable c =
    one_key-IsTable (access_key_table c) u_accesskey_medium_address refl refl (λ i r. refl)
      (omega arith) (λ r. refl) (omega arith) (λ e. omega (arith, e))
      (λ r. (joined (strn r.medium ∷ strn r.address ∷ []), refl)) (λ i r. refl)

pub blob_store_table-IsTable :
    {Value : Type 0} (c : Codec Value BlobStore) → IsTable (blob_store_table c)
unfolding blob_store_key encode_secondary_key
blob_store_table-IsTable c =
    one_key-IsTable (blob_store_table c) u_blobstore_keyid_tag refl refl (λ i r. refl) (omega arith)
      (λ r. refl) (omega arith) (λ e. omega (arith, e))
      (λ r. (joined (uint r.keyid ∷ strn r.tag ∷ []), refl)) (λ i r. refl)
