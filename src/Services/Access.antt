-- ===== src/Services/Access.antt =====
-- Access keys and what is stored under them: src/store/AccessKeyService.cc and BlobDataService.cc;
-- and the validity of public keys: src/store/PubKeyService.cc. The text of a new UUID is an argument.
use identt.Prelude.{ℕ, Bytes, List, [], ◌∷◌, ◌++◌, Bool, true, false, not, ◌==◌, beq, if◌then◌else◌}
use identt.Exception.{Result, ok, err, bad_data}
use identt.Keys.{
  sep, u_accesskey_medium_address, u_blobstore_keyid_tag, u_ephemeralpublickey_publickey,
}
use identt.Server.{World, Server, Action, return, lift, get, next_main, ◌>>=◌, ◌>>◌}
use identt.Tables.Records.{
  ValidationSession, AccessKey, blank_access_key, BlobStore, blank_blob_store,
  blank_ephemeral_public_key,
}
use identt.Tables.Unique.{access_key_table, blob_store_table, ephemeral_public_key_table}
use identt.Services.Requests.{SubmitToken, AccessBlob}
use identt.Services.Numbers.{stoul, split}
use identt.Services.Common.{find, add, commit_items, check_session, find_session}
use identt.Services.ThreePid.{check_request}

-- `boost::algorithm::erase_all_copy(..., ":")`
unfoldable pub erase_sep : Bytes → Bytes
erase_sep [] = []
erase_sep (c ∷ s) = let rest = erase_sep s in if c == 58 then rest else c ∷ rest

-- `outkey`
unfoldable pub outkey : AccessKey → Bytes
outkey key = key.medium ++ (sep ++ (key.address ++ (sep ++ key.accesskey)))

-- `splitres`, of which there must be three.
unfoldable pub three_parts : List Bytes → Result (Bytes × (Bytes × Bytes))
three_parts (m ∷ a ∷ k ∷ []) = ok (m, (a, k))
three_parts _ = err (bad_data "Bad Accesskey")

-- The access key found is the one given.
unfoldable pub check_key : Bytes → Bool × AccessKey → Result AccessKey
check_key text (found, key) =
    if not found
    then err (bad_data "Accesskey not found")
    else if not (beq key.accesskey text)
    then err (bad_data "Accesskey mismatch")
    else ok key

-- GetPubKeyAction, with the keyring as a list: the key of an algorithm, if there is one.
unfoldable pub find_key : Bytes → List (Bytes × Bytes) → Bytes → Bytes
find_key algo [] given = given
find_key algo ((a, key) ∷ rest) given =
    let later = find_key algo rest given in if beq a algo then key else later

unfoldable pub get_pub_key : List (Bytes × Bytes) → Bytes → Bytes → Bytes → Bytes
get_pub_key keyring algo identifier given = find_key (algo ++ (sep ++ identifier)) keyring given

-- GetPubKeyValidAction
unfoldable pub get_pub_key_valid : List (Bytes × Bytes) → Bytes → Bool
get_pub_key_valid [] tocom = false
get_pub_key_valid ((a, key) ∷ rest) tocom =
    let later = get_pub_key_valid rest tocom in if beq key tocom then true else later

module _ {Value Db : Type 0} (w : World Value Db) where
  -- What `VerifyAccessKeyAction`, `SetBlobDataAction` and `GetBlobDataAction` begin with.
  unfoldable pub find_access_key : Bytes → Action (Server Value Db) AccessKey
  find_access_key text = do
    parts ← lift (three_parts (split text))
    let asked = record blank_access_key { medium = parts.0; address = parts.1.0 }
    found ← find w (access_key_table w.access_key) asked u_accesskey_medium_address
    lift (check_key parts.1.1 found)

  -- VerifyAccessKeyAction
  unfoldable pub verify_access_key : Bytes → Action (Server Value Db) (Unit {0})
  verify_access_key text = do key ← find_access_key text; return tt

  -- A new access key is made if the address has none.
  unfoldable pub new_access_key :
      Bytes → ValidationSession → Bool × AccessKey → Action (Server Value Db) AccessKey
  new_access_key uuid session (true, key) = return key
  new_access_key uuid session (false, key) = do
    id ← next_main
    let fresh = record key {
      id = id;
      medium = session.medium;
      address = session.address;
      accesskey = erase_sep uuid;
    }
    trans ← add w (access_key_table w.access_key) fresh [] false "Cannot Insert accesskey"
    commit_items w trans
    return fresh

  -- GetAccessKeyAction
  unfoldable pub get_access_key : Bytes → SubmitToken → Action (Server Value Db) Bytes
  get_access_key uuid subtok = do
    sid ← lift (stoul subtok.sid)
    lift (check_request sid subtok)
    s ← get
    found ← lift (find_session w sid s)
    session ← lift (check_session w subtok found)
    let asked = record blank_access_key { medium = session.medium; address = session.address }
    stored ← find w (access_key_table w.access_key) asked u_accesskey_medium_address
    key ← new_access_key uuid session stored
    return (outkey key)

  -- A blob that was not found gets the next id.
  unfoldable pub blob_id : Bool × BlobStore → Action (Server Value Db) ℕ
  blob_id (true, blob) = return blob.id
  blob_id (false, blob) = next_main

  -- SetBlobDataAction
  unfoldable pub set_blob_data : AccessBlob → Action (Server Value Db) (Unit {0})
  set_blob_data given = do
    key ← find_access_key given.accesskey
    let asked = record blank_blob_store { keyid = key.id; tag = given.tag }
    stored ← find w (blob_store_table w.blob_store) asked u_blobstore_keyid_tag
    id ← blob_id stored
    let blob = record stored.1 { id = id; jsondata = given.jsondata; textdata = given.textdata }
    trans ← add w (blob_store_table w.blob_store) blob [] stored.0 "Cannot Insert data"
    commit_items w trans

  unfoldable pub fill_blob : AccessBlob → Bool × BlobStore → Result AccessBlob
  fill_blob given (found, blob) =
      if found
      then ok (record given { jsondata = blob.jsondata; textdata = blob.textdata })
      else err (bad_data "Tag not found")

  -- GetBlobDataAction
  unfoldable pub get_blob_data : AccessBlob → Action (Server Value Db) AccessBlob
  get_blob_data given = do
    key ← find_access_key given.accesskey
    let asked = record blank_blob_store { keyid = key.id; tag = given.tag }
    stored ← find w (blob_store_table w.blob_store) asked u_blobstore_keyid_tag
    lift (fill_blob given stored)

  -- GetEphemeralValidAction: whether `valid` is set.
  unfoldable pub get_ephemeral_valid : Bytes → Action (Server Value Db) Bool
  get_ephemeral_valid public_key = do
    found ←
        find w (ephemeral_public_key_table w.ephemeral)
          (record blank_ephemeral_public_key { public_key = public_key })
          u_ephemeralpublickey_publickey
    return found.0
