-- ===== src/Hrpc/Master.antt =====
-- include/hrpc/HrpcMasterEndpointService.hpp: what a master does for a slave. A message of
-- proto/Query.proto that a slave sends holds the query, and comes back with the result.
use identt.Prelude.{
  ℕ, Bytes, List, [], ◌∷◌, ◌++◌, beq, Bool, true, false, not, some, ◌==◌, if◌then◌else◌,
}
use identt.Exception.{Result, ok, err, undefined, bad_data, what, throw_if}
use identt.Bin2Ascii.Base64.{b64_encode, b64_decode}
use identt.Keys.{sep}
use identt.Server.{World, Server, Action, return, lift, get, ◌>>=◌, ◌>>◌}
use identt.Services.Requests.{AccessBlob}
use identt.Services.Validate.{request_token, submit_token}
use identt.Services.ThreePid.{ValidatedInvite, get_validated_3pid, bind_3pid}
use identt.Services.Lookup.{lookup_action, bulk_lookup}
use identt.Services.Access.{
  get_access_key, set_blob_data, get_blob_data, get_pub_key, get_pub_key_valid, get_ephemeral_valid,
}
use identt.Services.Invite.{Fresh, store_invite}
use identt.Services.MailSms.{pending}
use identt.Tables.Records.{GlobalAssoc}
use identt.Hrpc.{
  Wire, ProtoRequest, ProtoReply, m_unknown, proto_request, shared_secret_ok, service_name,
  service_ok, service_err, parsed,
}
pub use identt.Hrpc.Messages.{
  m_requesttoken, m_submittoken, m_getvalidated3pid, m_bind3pid, m_lookup, m_bulklookup,
  m_getpubkey, m_getpubkeyvalid, m_getephemeralvalid, m_storeinvite, m_pending, m_getaccesskey,
  m_setblobdata, m_getblobdata, RequestTokenData, SubmitTokenData, GetValidated3pidData,
  Bind3pidData, LookupData, BulkLookupData, PubKey, blank_pub_key, StoreInviteData, GetAccessData,
  MasterCodecs,
}

-- What an action takes from outside: the table of country codes, what the random generators give,
-- the signing of JSON, and the public keys of the keyring, in its order and by its index.
pub record Ambient : Type 0 where
  pub isd_codes : List (Bytes × Bytes)
  pub uuid : Bytes
  pub fresh : Fresh
  pub server_key : Bytes
  pub keyring : List (Bytes × Bytes)
  pub sign_assoc : GlobalAssoc → Result Bytes
  pub sign_result : ValidatedInvite → Result Bytes

module _ {Value Db : Type 0} (w : World Value Db) (env : Ambient) where
  -- Each action on the message that it takes and fills.
  unfoldable pub request_token_on : RequestTokenData → Action (Server Value Db) RequestTokenData
  request_token_on rtoka = do
    r ← request_token w env.isd_codes rtoka.medium rtoka.reqtok
    return (record rtoka { token = r.0; ssid = r.1 })

  unfoldable pub submit_token_on : SubmitTokenData → Action (Server Value Db) SubmitTokenData
  submit_token_on stoka = do
    r ← submit_token w stoka.subtok
    return (record stoka { result = some r })

  unfoldable pub get_validated_on :
      GetValidated3pidData → Action (Server Value Db) GetValidated3pidData
  get_validated_on gva = do
    r ← get_validated_3pid w gva.subtok
    return (record gva { valresult = r })

  unfoldable pub bind_on : Bind3pidData → Action (Server Value Db) Bind3pidData
  bind_on bpa = do
    r ← bind_3pid w env.sign_assoc env.sign_result bpa.subtok
    return (record bpa { output = r })

  unfoldable pub lookup_on : LookupData → Action (Server Value Db) LookupData
  lookup_on lact = do
    s ← get
    r ← lift (lookup_action w lact.query s)
    return (record lact { result = r })

  unfoldable pub bulk_lookup_on : BulkLookupData → Action (Server Value Db) BulkLookupData
  bulk_lookup_on blact = do
    s ← get
    r ← lift (bulk_lookup w blact.threepids s)
    return (record blact { result = r })

  -- GetPubKeyAction clears the message if the keyring has the key.
  unfoldable pub has_key : Bytes → List (Bytes × Bytes) → Bool
  has_key algo [] = false
  has_key algo ((a, key) ∷ rest) =
      let later = has_key algo rest in if beq a algo then true else later

  unfoldable pub get_pub_key_on : PubKey → Action (Server Value Db) PubKey
  unfolding has_key
  get_pub_key_on pubkey =
      if has_key (pubkey.algo ++ (sep ++ pubkey.identifier)) env.keyring
      then return (record blank_pub_key {
        public_key = get_pub_key env.keyring pubkey.algo pubkey.identifier pubkey.public_key;
      })
      else return pubkey

  unfoldable pub get_pub_key_valid_on : PubKey → Action (Server Value Db) PubKey
  get_pub_key_valid_on pubkey =
      return (record pubkey { valid = get_pub_key_valid env.keyring pubkey.public_key })

  unfoldable pub get_ephemeral_valid_on : PubKey → Action (Server Value Db) PubKey
  get_ephemeral_valid_on pubkey = do
    found ← get_ephemeral_valid w pubkey.public_key
    return (record pubkey { valid = if found then true else pubkey.valid })

  unfoldable pub store_invite_on : StoreInviteData → Action (Server Value Db) StoreInviteData
  store_invite_on inv = do
    r ← store_invite w env.server_key env.fresh inv.invqry
    return (record inv { invres = r })

  unfoldable pub get_access_on : GetAccessData → Action (Server Value Db) GetAccessData
  get_access_on gva = do
    r ← get_access_key w env.uuid gva.subtok
    return (record gva { accessblob = record gva.accessblob { accesskey = r } })

  unfoldable pub set_blob_on : AccessBlob → Action (Server Value Db) AccessBlob
  set_blob_on blob = do set_blob_data w blob; return blob

  -- A case of the switch: the message is decoded, the action done, and the message encoded.
  unfoldable pub serve_message :
      {M : Type 0}
      → Wire M
      → (M → Action (Server Value Db) M)
      → Bytes
      → Action (Server Value Db) Bytes
  serve_message c act content = do
    raw ← lift (b64_decode content)
    data_ ← lift (parsed "Bad Protobuf Format" (c.parse raw))
    done ← act data_
    return (c.serialize done)

  -- The switch on the service name.
  unfoldable pub dispatch : MasterCodecs → ℕ → Bytes → Action (Server Value Db) Bytes
  dispatch c name content =
      if name == m_requesttoken
      then serve_message c.request_token request_token_on content
      else if name == m_submittoken
      then serve_message c.submit_token submit_token_on content
      else if name == m_getvalidated3pid
      then serve_message c.get_validated get_validated_on content
      else if name == m_bind3pid
      then serve_message c.bind bind_on content
      else if name == m_lookup
      then serve_message c.lookup lookup_on content
      else if name == m_bulklookup
      then serve_message c.bulk_lookup bulk_lookup_on content
      else if name == m_getpubkey
      then serve_message c.pub_key get_pub_key_on content
      else if name == m_getpubkeyvalid
      then serve_message c.pub_key get_pub_key_valid_on content
      else if name == m_getephemeralvalid
      then serve_message c.pub_key get_ephemeral_valid_on content
      else if name == m_storeinvite
      then serve_message c.store_invite store_invite_on content
      else if name == m_pending
      then serve_message c.mail (pending w) content
      else if name == m_getaccesskey
      then serve_message c.get_access get_access_on content
      else if name == m_setblobdata
      then serve_message c.blob set_blob_on content
      else if name == m_getblobdata
      then serve_message c.blob (get_blob_data w) content
      else lift (err (bad_data "Service Name unknown or unimplemented"))

  -- What the endpoint does up to the response; `secret` is the server's own.
  unfoldable pub master_output :
      MasterCodecs → Bytes → ProtoRequest → Action (Server Value Db) Bytes
  master_output c secret request = do
    is_proto ← lift (proto_request request)
    lift (throw_if (not is_proto) (bad_data "Only Protobuf Supported"))
    lift (throw_if (not (shared_secret_ok request secret)) (bad_data "Bad Shared Secret"))
    sname ← lift (service_name request)
    s ← get
    lift (throw_if (not s.is_ready) (bad_data "System Not Ready"))
    lift (throw_if (not s.is_master) (bad_data "System Not Master"))
    dispatch c sname request.content

  -- The handlers. The one of `SydentException` sets a variable of its own, so that `ecode` is
  -- M_UNKNOWN after every exception. One that is thrown while a response is written is not caught.
  unfoldable pub respond : ProtoRequest → Result Bytes → Result ProtoReply
  respond request (ok output) = service_ok request (b64_encode output false)
  respond request (err undefined) = err undefined
  respond request (err x) = service_err request m_unknown (what x)

  -- The endpoint of the master.
  unfoldable pub master_endpoint :
      MasterCodecs → Bytes → ProtoRequest → Action (Server Value Db) ProtoReply
  unfolding respond
  master_endpoint c secret request s =
      let done = master_output c secret request s in (respond request done.0, done.1)
