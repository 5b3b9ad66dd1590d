-- ===== src/Query.antt =====
-- The HTTP endpoints of include/query/*Service.hpp: what they share, with
-- include/query/ServiceBase.hpp and include/query/SydentQuery.hpp. A request is what an endpoint
-- reads of it; the conversions between messages and JSON or forms, the signing and the exchange
-- with the master are parameters.
pub mod Sessions
pub mod Lookups
pub mod Form
pub mod Blobs
pub mod Others
pub mod Forwarded
pub mod Keys
use Prim.Native.String.{String}
use identt.Prelude.{
  ℕ, Bytes, List, [], ◌∷◌, Bool, true, false, not, ◌&&◌, Option, none, some, beq, codes, leb, ◌==◌,
  starts_with, if◌then◌else◌,
}
use identt.Exception.{
  Exception, Result, ok, err, undefined, bad_data, sydent, remote_sydent, what, throw_if,
}
use identt.Server.{World, Server, Action, return, lift, get, ◌>>=◌, ◌>>◌}
use identt.Services.Requests.{
  RequestToken, SuccessSid, SubmitToken, Outcome, ValidatedAt, LookupQuery, LookupResult,
  AccessBlob, InviteQuery, InviteResult,
}
use identt.Services.Access.{verify_access_key}
use identt.Services.MailSms.{MailQuery}
use identt.Hrpc.{
  Wire, Post, either_header, send_to_master, sydent_error_min, sydent_error_max, m_unknown,
}
use identt.Hrpc.Master.{Ambient, MasterCodecs, PubKey}

abbrev pub m_bad_json : ℕ
m_bad_json = 101

-- `path_match` gives the groups of the pattern of the path.
pub record HttpRequest : Type 0 where
  pub path_match : ℕ → Bytes
  pub content_type : Option Bytes
  pub accept : Option Bytes
  pub shared_secret : Option Bytes
  pub content : Bytes

-- HttpOKAction with the status 200 and a payload, and HttpErrorAction with its status.
pub data HttpReply : Type 0 where
  http_ok : Bytes → HttpReply
  http_error : ℕ → HttpReply

-- json2pb and form2pb, to a message that was blank.
pub record Reader (M : Type 0) : Type 0 where
  pub json2pb : Bytes → Option M
  pub form2pb : Bytes → Result M

-- ToSignQueryT
pub record ToSignQuery : Type 0 where
  pub private_key : Bytes
  pub mxid : Bytes
  pub token : Bytes
  pub sender : Bytes

-- StateT of proto/Query.proto
pub record Info : Type 0 where
  pub hostname : Bytes
  pub master : Bytes
  pub is_master : Bool
  pub is_ready : Bool
  pub ts : ℕ

pub record QueryReaders : Type 0 where
  pub request_token : Reader RequestToken
  pub submit_token : Reader SubmitToken
  pub lookup : Reader LookupQuery
  -- the list of queries, and the access key
  pub bulk_lookup : Bytes → Option (List LookupQuery × Bytes)
  pub blob : Reader AccessBlob
  -- the members of the JSON that HandleDataIn looks for, or nothing if it cannot be parsed
  pub blob_members : Bytes → Option AccessBlob
  pub invite : Bytes → Option InviteQuery
  pub to_sign : Reader ToSignQuery
  pub mail : Reader MailQuery

-- pb2json, and the texts that the endpoints write through rapidjson.
pub record QueryWriters : Type 0 where
  pub success_sid : SuccessSid → Bytes
  pub outcome : Option Outcome → Bytes
  pub validated_at : ValidatedAt → Bytes
  pub access_blob : AccessBlob → Bytes
  -- HandleDataOut
  pub blob_data : AccessBlob → Bytes
  -- BulkLookupJson
  pub bulk_lookup : List LookupResult → Bytes
  pub pub_key : PubKey → Bytes
  pub invite_result : InviteResult → Bytes
  pub mail : MailQuery → Bytes
  pub info : Info → Bytes
  -- the object with these members, all of them texts
  pub object : List (Bytes × Bytes) → Bytes
  -- the object with `success` as true
  pub success : Bytes

-- AddSign, with the key that signs.
pub record Signing : Type 0 where
  pub sign_lookup : LookupResult → PubKey → Result Bytes
  pub sign_text : Bytes → PubKey → Result Bytes
  pub sign_query : ToSignQuery → PubKey → Result Bytes

-- What the endpoints stand on.
pub record Http : Type 0 where
  pub read : QueryReaders
  pub write : QueryWriters
  pub signing : Signing
  pub ambient : Ambient
  pub codecs : MasterCodecs
  pub post : Post
  pub secret : Bytes
  pub lookup_requires_key : Bool
  pub invite_requires_key : Bool

-- JsonRequest
unfoldable pub json_request : HttpRequest → Bool
unfolding either_header
json_request request = elim (either_header request.content_type request.accept) [
  | none ↦ false
  | some h ↦ starts_with h (codes "application/json")
]

-- SydentErrors
unfoldable pub sydent_errors : ℕ → Bytes
sydent_errors n =
    if n == 101
    then codes "M_BAD_JSON"
    else if n == 102
    then codes "M_DESTINATION_REJECTED"
    else if n == 103
    then codes "M_EMAIL_SEND_ERROR"
    else if n == 104
    then codes "M_INCORRECT_CLIENT_SECRET"
    else if n == 105
    then codes "M_INVALID_EMAIL"
    else if n == 106
    then codes "M_INVALID_PARAM"
    else if n == 107
    then codes "M_INVALID_PHONE_NUMBER"
    else if n == 108
    then codes "M_MISSING_PARAMS"
    else if n == 109
    then codes "M_NOT_JSON"
    else if n == 110
    then codes "M_NO_VALID_SESSION"
    else if n == 111
    then codes "M_SESSION_EXPIRED"
    else if n == 112
    then codes "M_SESSION_NOT_VALIDATED"
    else if n == 113
    then codes "M_UNKNOWN"
    else if n == 114
    then codes "M_UNKNOWN_PEER"
    else if n == 115
    then codes "M_VERIFICATION_FAILED"
    else codes "THREEPID_IN_USE"

-- The code of a SydentException, if it is one of the table.
unfoldable pub known_code : ℕ → ℕ
known_code n = if leb sydent_error_min n && leb n sydent_error_max then n else m_unknown

-- The code that the handlers take for an exception.
unfoldable pub error_code : Exception → ℕ
unfolding known_code
error_code (sydent text n) = known_code n
error_code (remote_sydent text n) = known_code n
error_code x = m_unknown

-- err2json
unfoldable pub err2json : QueryWriters → Bytes → Bytes → Bytes
err2json write errorcode error =
    write.object ((codes "errorcode", errorcode) ∷ (codes "error", error) ∷ [])

-- What is sent after the action: its output, or what the handlers make of an exception. All
-- exceptions that are thrown are of the library or of the source, so that `catch (...)` gets none.
unfoldable pub reply : QueryWriters → Result Bytes → Result HttpReply
unfolding error_code
reply write (ok output) = ok (http_ok output)
reply write (err undefined) = err undefined
reply write (err x) = ok (http_ok (err2json write (sydent_errors (error_code x)) (what x)))

-- An endpoint from the part of it that makes the output.
unfoldable pub http_endpoint : {S : Type 0} → QueryWriters → Action S Bytes → Action S HttpReply
unfolding reply
http_endpoint write output s = let done = output s in (reply write done.0, done.1)

-- The message of a body in JSON.
unfoldable pub from_json : {M : Type 0} → Option M → Result M
from_json none = err (sydent "Bad Json Format" m_bad_json)
from_json (some m) = ok m

-- The message of a body in JSON or as a form.
unfoldable pub read_body : {M : Type 0} → Reader M → HttpRequest → Result M
unfolding json_request from_json
read_body r request =
    if json_request request
    then from_json (r.json2pb request.content)
    else r.form2pb request.content

-- The message of a body that is to be JSON; `refusal` is the text of the exception if it is not.
unfoldable pub read_json : {M : Type 0} → (Bytes → Option M) → String → HttpRequest → Result M
unfolding json_request from_json
read_json json2pb refusal request =
    if json_request request
    then from_json (json2pb request.content)
    else err (sydent refusal m_bad_json)

-- Whether `Shared-Secret` is the server's own: then the query comes from a server.
unfoldable pub is_server_query : Bytes → HttpRequest → Bool
is_server_query secret request = elim request.shared_secret [
  | none ↦ false
  | some given ↦ beq given secret
]

-- `if (length()==0) throw ...`
unfoldable pub required : String → Bytes → Result (Unit {0})
required text [] = err (sydent text 108)
required text (c ∷ s) = ok tt

module _ {Value Db : Type 0} (w : World Value Db) (h : Http) where
  unfoldable pub ready : Action (Server Value Db) (Unit {0})
  ready s = (throw_if (not s.is_ready) (bad_data "System Not Ready"), s)

  -- If a key is required, a query that does not come from a server has to have an access key.
  unfoldable pub check_access : Bool → Bytes → HttpRequest → Action (Server Value Db) (Unit {0})
  check_access requires_key accesskey request =
      if requires_key && not (is_server_query h.secret request)
      then verify_access_key w accesskey
      else return tt

  -- A master does the action itself, a slave sends the message to its master.
  unfoldable pub at_master :
      {M : Type 0} → ℕ → Wire M → (M → Action (Server Value Db) M) → M → Action (Server Value Db) M
  at_master id codec act msg s =
      if s.is_master then act msg s else (send_to_master h.post h.secret s.master id codec msg, s)
