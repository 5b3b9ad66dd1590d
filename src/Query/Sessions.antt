-- ===== src/Query/Sessions.antt =====
-- include/query/ValidateService.hpp and include/query/ThreePidService.hpp: the endpoints that open
-- and validate a session and bind its address.
pub mod Notified
use Prim.Native.String.{String}
use identt.Prelude.{
  ℕ, Bytes, List, [], ◌∷◌, ◌++◌, Bool, true, false, Option, none, some, codes, if◌then◌else◌,
}
use identt.Exception.{Result, ok, err}
use identt.Server.{World, Server, Action, return, lift, ◌>>=◌, ◌>>◌}
use identt.Services.Requests.{RequestToken, SubmitToken, blank_success_sid, blank_validated_at}
use identt.Services.Numbers.{split}
use identt.Hrpc.Master.{
  RequestTokenData, SubmitTokenData, GetValidated3pidData, Bind3pidData, m_requesttoken,
  m_submittoken, m_getvalidated3pid, m_bind3pid, request_token_on, submit_token_on,
  get_validated_on, bind_on,
}
use identt.Query.{
  Http, HttpRequest, HttpReply, http_ok, http_endpoint, reply, read_body, required, ready,
  at_master,
}

-- What comes after the first ":" of a Matrix user id, put together again.
unfoldable pub server_of : List Bytes → Bytes
server_of [] = []
server_of (up ∷ ports) =
    let rest = server_of ports in elim ports [ [] ↦ up | p ∷ ps ↦ up ++ codes ":" ++ rest ]

-- The url that a binding is posted to.
unfoldable pub onbind_url : Bytes → Bytes
onbind_url up = codes "https://" ++ up ++ codes "/_matrix/federation/v1/3pid/onbind"

-- What POST 3pid/bind posts to the server of the user: the url, and the signed binding.
unfoldable pub notified_on_post : Bytes → Bytes → Option (Bytes × Bytes)
unfolding onbind_url server_of
notified_on_post mxid output = elim (split mxid) [
  | [] ↦ none
  | name ∷ [] ↦ none
  | name ∷ up ∷ ports ↦ some (onbind_url (server_of (up ∷ ports)), output)
]

-- What GET 3pid/bind posts: only for a user id with exactly two parts.
unfoldable pub notified_parts : Bytes → List Bytes → Option (Bytes × Bytes)
unfolding onbind_url
notified_parts output (name ∷ up ∷ []) = some (onbind_url up, output)
notified_parts output parts = none

unfoldable pub notified_on_get : Bytes → Bytes → Option (Bytes × Bytes)
unfolding notified_parts
notified_on_get mxid output = notified_parts output (split mxid)

module _ {Value Db : Type 0} (w : World Value Db) (h : Http) where
  -- The action of requestToken and what is sent back.
  unfoldable pub request_token_with : RequestToken → Bytes → Action (Server Value Db) Bytes
  unfolding at_master ready
  request_token_with reqtok medium = do
    ready w h
    done ←
        at_master w h m_requesttoken h.codecs.request_token (request_token_on w h.ambient)
          (record { reqtok = reqtok; ssid = blank_success_sid; medium = medium; token = [] })
    return (h.write.success_sid done.ssid)

  -- POST validate/(email|msisdn)/requestToken
  unfoldable pub request_token_post : HttpRequest → Action (Server Value Db) HttpReply
  unfolding request_token_with
  request_token_post request = http_endpoint h.write (do
    reqtok ← lift (read_body h.read.request_token request)
    request_token_with reqtok (request.path_match 1))

  -- GET validate/(email|msisdn)/requestToken
  unfoldable pub request_token_get : HttpRequest → Action (Server Value Db) HttpReply
  unfolding request_token_with
  request_token_get request = http_endpoint h.write (do
    reqtok ← lift (h.read.request_token.form2pb (request.path_match 2))
    request_token_with reqtok (request.path_match 1))

  -- The action of submitToken and what is sent back.
  unfoldable pub submit_token_with : SubmitToken → Bytes → Action (Server Value Db) Bytes
  unfolding at_master ready
  submit_token_with subtok medium = do
    ready w h
    done ←
        at_master w h m_submittoken h.codecs.submit_token (submit_token_on w h.ambient)
          (record { subtok = subtok; result = none; medium = medium })
    return (h.write.outcome done.result)

  -- POST validate/(email|msisdn)/submitToken
  unfoldable pub submit_token_post : HttpRequest → Action (Server Value Db) HttpReply
  unfolding submit_token_with
  submit_token_post request = http_endpoint h.write (do
    subtok ← lift (read_body h.read.submit_token request)
    submit_token_with subtok (request.path_match 1))

  -- GET validate/(email|msisdn)/submitToken
  unfoldable pub submit_token_get : HttpRequest → Action (Server Value Db) HttpReply
  unfolding submit_token_with
  submit_token_get request = http_endpoint h.write (do
    subtok ← lift (h.read.submit_token.form2pb (request.path_match 2))
    submit_token_with subtok (request.path_match 1))

  -- The action of getValidated3pid and what is sent back.
  unfoldable pub get_validated_with : SubmitToken → Action (Server Value Db) Bytes
  unfolding at_master
  get_validated_with subtok = do
    done ←
        at_master w h m_getvalidated3pid h.codecs.get_validated (get_validated_on w h.ambient)
          (record { subtok = subtok; valresult = blank_validated_at })
    return (h.write.validated_at done.valresult)

  -- POST 3pid/getValidated3pid
  unfoldable pub get_validated_post : HttpRequest → Action (Server Value Db) HttpReply
  unfolding get_validated_with ready required
  get_validated_post request = http_endpoint h.write (do
    subtok ← lift (read_body h.read.submit_token request)
    ready w h
    lift (required "sid value required" subtok.sid)
    lift (required "client_secret value required" subtok.client_secret)
    get_validated_with subtok)

  -- GET 3pid/getValidated3pid
  unfoldable pub get_validated_get : HttpRequest → Action (Server Value Db) HttpReply
  unfolding get_validated_with ready
  get_validated_get request = http_endpoint h.write (do
    subtok ← lift (h.read.submit_token.form2pb (request.path_match 1))
    ready w h
    get_validated_with subtok)

  -- The checks of bind, its action, and the user id with the signed binding.
  unfoldable pub bind_with : SubmitToken → Action (Server Value Db) (Bytes × Bytes)
  unfolding at_master ready required
  bind_with subtok = do
    ready w h
    lift (required "sid value required" subtok.sid)
    lift (required "client_secret value required" subtok.client_secret)
    lift (required "mxid value required" subtok.mxid)
    done ←
        at_master w h m_bind3pid h.codecs.bind (bind_on w h.ambient)
          (record { subtok = subtok; output = [] })
    return (done.subtok.mxid, done.output)

  -- What is posted and what is sent back. An exception posts nothing; an exchange that fails is
  -- only logged.
  unfoldable pub bind_reply :
      (Bytes → Bytes → Option (Bytes × Bytes))
      → Result (Bytes × Bytes)
      → Result (Option (Bytes × Bytes) × HttpReply)
  unfolding reply
  bind_reply notified (ok (mxid, output)) = ok (notified mxid output, http_ok output)
  bind_reply notified (err x) = elim (reply h.write (err x)) [ err y ↦ err y | ok r ↦ ok (none, r) ]

  -- POST 3pid/bind
  unfoldable pub bind_post :
      HttpRequest → Action (Server Value Db) (Option (Bytes × Bytes) × HttpReply)
  unfolding bind_with bind_reply notified_on_post
  bind_post request s =
      let done = (lift (read_body h.read.submit_token request) >>= bind_with) s in
      (bind_reply notified_on_post done.0, done.1)

  -- GET 3pid/bind
  unfoldable pub bind_get :
      HttpRequest → Action (Server Value Db) (Option (Bytes × Bytes) × HttpReply)
  unfolding bind_with bind_reply notified_on_get
  bind_get request s =
      let done = (lift (h.read.submit_token.form2pb (request.path_match 1)) >>= bind_with) s in
      (bind_reply notified_on_get done.0, done.1)
