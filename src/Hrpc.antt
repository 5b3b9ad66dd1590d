-- ===== src/Hrpc.antt =====
-- Calls from one server to another: include/hrpc/ProtoServiceBase.hpp, what the endpoints share,
-- and src/hrpc/HrpcClient.cc, the client. HTTP is the cpr library's and the server library's: a
-- request is the headers that are read and the body, and the exchange is a parameter.
pub mod Messages
pub mod Master
pub mod Forward
pub mod Served
use Prim.Native.String.{String}
use identt.Prelude.{
  ℕ, ◌^◌, Bytes, List, [], ◌∷◌, ◌++◌, Bool, true, false, not, ◌&&◌, Option, none, some, beq, codes,
  leb, ◌==◌, starts_with, c_str, if◌then◌else◌,
}
use identt.Exception.{
  Result, ok, err, undefined, bad_data, remote_sydent, remote_bad, ◌>>=◌, ◌>>◌, throw_if,
}
use identt.Bin2Ascii.Base64.{b64_encode, b64_decode}
use identt.Trans.{is_empty}
use identt.Services.Numbers.{stoi, to_string}

-- IDENTT_SYDENT_ERROR_MIN, IDENTT_SYDENT_ERROR_MAX, M_UNKNOWN
abbrev pub sydent_error_min : ℕ
sydent_error_min = 101

abbrev pub sydent_error_max : ℕ
sydent_error_max = 116

abbrev pub m_unknown : ℕ
m_unknown = 113

-- `SerializeToString` and `ParseFromString` of a message type.
pub record Wire (M : Type 0) : Type 0 where
  pub serialize : M → Bytes
  pub parse : Bytes → Option M

-- A POST request: what `header.find` gives for the names that are looked up, and the body.
pub record ProtoRequest : Type 0 where
  pub content_type : Option Bytes
  pub accept : Option Bytes
  pub transfer_encoding : Option Bytes
  pub shared_secret : Option Bytes
  pub service_name : Option Bytes
  pub content : Bytes

-- The response, as the client reads it. A header that is not there is read as the empty text.
pub record ProtoReply : Type 0 where
  pub status_code : ℕ
  pub service_error : Bytes
  pub transfer_encoding : Bytes
  pub text : Bytes

-- `Content-Type`, or else `Accept`.
unfoldable pub either_header : Option Bytes → Option Bytes → Option Bytes
either_header none accept = accept
either_header (some h) accept = some h

-- `Proto-Transfer-Encoding` is read without a check that it is there.
unfoldable pub is_base64 : Option Bytes → Result Bool
is_base64 none = err undefined
is_base64 (some h) = ok (starts_with h (codes "base64"))

-- ProtoRequest
unfoldable pub proto_request : ProtoRequest → Result Bool
unfolding either_header is_base64
proto_request request = elim (either_header request.content_type request.accept) [
  | none ↦ ok false
  | some h ↦
      if not (starts_with h (codes "application/proto"))
      then ok false
      else is_base64 request.transfer_encoding
]

-- SharedSecretOK
unfoldable pub shared_secret_ok : ProtoRequest → Bytes → Bool
shared_secret_ok request sharedkey = elim request.shared_secret [
  | none ↦ false
  | some secret ↦ beq secret sharedkey
]

-- ServiceName
unfoldable pub service_name : ProtoRequest → Result ℕ
service_name request = elim request.service_name [ none ↦ ok 0 | some name ↦ stoi name ]

-- ServiceOKAction: the service name is read again for the headers.
unfoldable pub service_ok : ProtoRequest → Bytes → Result ProtoReply
unfolding service_name
service_ok request payload = do
  name ← service_name request
  ok (record {
    status_code = 200;
    service_error = [];
    transfer_encoding = codes "base64";
    text = payload;
  })

-- ServiceErrAction: the status is 200 here too.
unfoldable pub service_err : ProtoRequest → ℕ → Bytes → Result ProtoReply
unfolding service_name
service_err request ecode emsg = do
  name ← service_name request
  ok (record {
    status_code = 200;
    service_error = to_string ecode;
    transfer_encoding = [];
    text = emsg;
  })

-- The request of `SendToMaster` and `SendToRemote`.
unfoldable pub proto_post : Bytes → ℕ → Bytes → ProtoRequest
proto_post secret service_id body = record {
  content_type = some (codes "application/proto");
  accept = none;
  transfer_encoding = some (codes "base64");
  shared_secret = some secret;
  service_name = some (to_string service_id);
  content = b64_encode body false;
}

-- The error of the other side is thrown again, with its text up to the first NUL.
unfoldable pub rethrow : Bytes → ℕ → Result (Unit {0})
rethrow text ecode =
    if leb sydent_error_min ecode && leb ecode sydent_error_max
    then err (remote_sydent (c_str text) ecode)
    else err (remote_bad (c_str text))

unfoldable pub parsed : {M : Type 0} → String → Option M → Result M
parsed message none = err (bad_data message)
parsed message (some m) = ok m

-- The message in a response.
unfoldable pub read_message : {M : Type 0} → Wire M → String → ProtoReply → Result M
unfolding parsed
read_message c message reply =
    if beq reply.transfer_encoding (codes "base64")
    then (b64_decode reply.text >>= λ raw. parsed message (c.parse raw))
    else parsed message (c.parse reply.text)

-- What `SendToMaster` makes of the response.
unfoldable pub master_reply : {M : Type 0} → Wire M → ProtoReply → Result M
unfolding rethrow read_message
master_reply c reply = do
  throw_if (not (reply.status_code == 200)) (bad_data "Cannot connect to master, bad HTTP Status")
  (if is_empty reply.service_error then ok tt else stoi reply.service_error >>= rethrow reply.text)
  read_message c "Bad Received Protobuf Data Format from master endpoint: " reply

-- What `SendToRemote` makes of the response.
unfoldable pub remote_reply : {M : Type 0} → Wire M → ProtoReply → Result M
unfolding read_message
remote_reply c reply = do
  throw_if (not (reply.status_code == 200)) (bad_data "Bad HTTP Status for remote")
  throw_if (not (is_empty reply.service_error)) (remote_bad (c_str reply.text))
  read_message c "Bad Received Protobuf Data Format from remote from endpoint: " reply

-- The exchange over HTTP: the url and the request, and the response.
abbrev pub Post : Type 0
Post = Bytes → ProtoRequest → ProtoReply

-- SendToMaster with `nothrow` unset; `master` is the url of the master.
unfoldable pub send_to_master : {M : Type 0} → Post → Bytes → Bytes → ℕ → Wire M → M → Result M
unfolding proto_post master_reply
send_to_master post secret master service_id c msg = do
  throw_if (service_id == 0) (bad_data "Bad Service Id")
  master_reply c (
      post (master ++ codes "/_identt/identity/master/v1/endpoint")
        (proto_post secret service_id (c.serialize msg)))

-- SendToRemote with `nothrow` unset.
unfoldable pub send_to_remote : {M : Type 0} → Post → Bytes → Bytes → ℕ → Wire M → M → Result M
unfolding proto_post remote_reply
send_to_remote post secret address service_id c msg = do
  throw_if (service_id == 0) (bad_data "Bad Service Id for remote ")
  remote_reply c (
      post (address ++ codes "/_identt/identity/remote/v1/endpoint")
        (proto_post secret service_id (c.serialize msg)))

-- With `nothrow` set, an exception is a status.
unfoldable pub nothrow : {M : Type 0} → Result M → Bool
nothrow (err x) = false
nothrow (ok m) = true
