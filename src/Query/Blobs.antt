-- ===== src/Query/Blobs.antt =====
-- include/query/BlobDataService.hpp: the endpoints of access keys and blobs. A slave answers
-- getBlobData from its own database.
use identt.Prelude.{Bytes, [], ◌∷◌, if◌then◌else◌}
use identt.Exception.{Result, ok, err, bad_data, sydent, throw_if}
use identt.Trans.{is_empty}
use identt.Server.{World, Server, Action, return, lift, ◌>>=◌, ◌>>◌}
use identt.Services.Requests.{SubmitToken, AccessBlob, blank_access_blob}
use identt.Services.Access.{get_blob_data}
use identt.Services.Numbers.{split}
use identt.Hrpc.Master.{m_getaccesskey, m_setblobdata, get_access_on, set_blob_on}
use identt.Query.{
  Http, HttpRequest, HttpReply, http_endpoint, json_request, from_json, m_bad_json, read_body,
  required, ready, at_master,
}

-- What HandleDataIn checks of the blob that it has read.
unfoldable pub check_blob : AccessBlob → Result AccessBlob
check_blob blob = elim (split blob.accesskey) [
  | [] ↦ err (bad_data "Bad Accesskey")
  | a ∷ [] ↦ err (bad_data "Bad Accesskey")
  | a ∷ b ∷ [] ↦ err (bad_data "Bad Accesskey")
  | a ∷ b ∷ c ∷ [] ↦ if is_empty blob.tag then err (bad_data "Blank Tag not allowed") else ok blob
  | a ∷ b ∷ c ∷ d ∷ more ↦ err (bad_data "Bad Accesskey")
]

module _ {Value Db : Type 0} (w : World Value Db) (h : Http) where
  -- HandleDataIn
  unfoldable pub handle_data_in : Bytes → Result AccessBlob
  unfolding from_json check_blob
  handle_data_in input = elim (from_json (h.read.blob_members input)) [
    | err x ↦ err x
    | ok blob ↦ check_blob blob
  ]

  -- The action of getAccessKey and what is sent back.
  unfoldable pub access_key_with : SubmitToken → Action (Server Value Db) Bytes
  unfolding at_master
  access_key_with subtok = do
    done ←
        at_master w h m_getaccesskey h.codecs.get_access (get_access_on w h.ambient)
          (record { subtok = subtok; accessblob = blank_access_blob })
    return (h.write.access_blob done.accessblob)

  -- POST blobdata/getAccessKey
  unfoldable pub access_key_post : HttpRequest → Action (Server Value Db) HttpReply
  unfolding access_key_with ready required
  access_key_post request = http_endpoint h.write (do
    subtok ← lift (read_body h.read.submit_token request)
    ready w h
    lift (required "sid value required" subtok.sid)
    lift (required "client_secret value required" subtok.client_secret)
    access_key_with subtok)

  -- GET blobdata/getAccessKey
  unfoldable pub access_key_get : HttpRequest → Action (Server Value Db) HttpReply
  unfolding access_key_with ready
  access_key_get request = http_endpoint h.write (do
    subtok ← lift (h.read.submit_token.form2pb (request.path_match 1))
    ready w h
    access_key_with subtok)

  -- The action of getBlobData and what is sent back.
  unfoldable pub get_blob_with : AccessBlob → Action (Server Value Db) Bytes
  unfolding ready
  get_blob_with asked = do
    ready w h
    blob ← get_blob_data w asked
    lift (throw_if blob.accessdenied (bad_data "Access Denied"))
    return (h.write.blob_data blob)

  -- POST blobdata/getBlobData
  unfoldable pub get_blob_post : HttpRequest → Action (Server Value Db) HttpReply
  unfolding get_blob_with
  get_blob_post request =
      http_endpoint h.write (do asked ← lift (read_body h.read.blob request); get_blob_with asked)

  -- GET blobdata/getBlobData
  unfoldable pub get_blob_get : HttpRequest → Action (Server Value Db) HttpReply
  unfolding get_blob_with
  get_blob_get request =
      http_endpoint h.write
        (do asked ← lift (h.read.blob.form2pb (request.path_match 1)); get_blob_with asked)

  -- POST blobdata/setBlobData
  unfoldable pub set_blob_post : HttpRequest → Action (Server Value Db) HttpReply
  unfolding ready handle_data_in at_master
  set_blob_post request = http_endpoint h.write (do
    lift (if json_request request then ok tt else err (sydent "Only Json Allowed" m_bad_json))
    ready w h
    given ← lift (handle_data_in request.content)
    blob ← at_master w h m_setblobdata h.codecs.blob (set_blob_on w h.ambient) given
    lift (throw_if blob.accessdenied (bad_data "Access Denied"))
    return h.write.success)
