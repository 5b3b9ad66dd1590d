-- ===== src/Query/Keys.antt =====
-- include/query/PubKeyService.hpp: the endpoints on public keys, and the one that signs with the
-- key that a request gives.
use identt.Prelude.{Bytes, List, [], ◌∷◌, true, codes, beq, if◌then◌else◌}
use identt.Exception.{Result, ok, err, out_of_range}
use identt.Server.{World, Server, Action, return, lift, ◌>>=◌, ◌>>◌}
use identt.Hrpc.Master.{
  PubKey, blank_pub_key, get_pub_key_on, get_pub_key_valid_on, get_ephemeral_valid_on,
}
use identt.Query.{
  Http, HttpRequest, HttpReply, ToSignQuery, http_endpoint, read_body, required, ready,
}
use identt.Query.Form.{urldecode}

-- `std::unordered_map::at`
unfoldable pub map_at : Bytes → List (Bytes × Bytes) → Result Bytes
map_at name [] = err out_of_range
map_at name ((k, v) ∷ rest) = let later = map_at name rest in if beq name k then ok v else later

-- `"unknown"` for a blank sender.
unfoldable pub signing_owner : Bytes → Bytes
signing_owner [] = codes "unknown"
signing_owner (c ∷ s) = c ∷ s

-- The key that signs a query, which is not of the keyring.
unfoldable pub given_key : HttpRequest → ToSignQuery → PubKey
unfolding signing_owner
given_key request query = record blank_pub_key {
  algo = request.path_match 1;
  identifier = request.path_match 3;
  private_key = query.private_key;
  no_keyring = true;
  owner = signing_owner query.sender;
}

module _ {Value Db : Type 0} (w : World Value Db) (h : Http) where
  -- GET pubkey/{algo:id}
  unfoldable pub pubkey_get : HttpRequest → Action (Server Value Db) HttpReply
  unfolding ready
  pubkey_get request = http_endpoint h.write (do
    ready w h
    found ←
        get_pub_key_on w h.ambient
          (record blank_pub_key { algo = request.path_match 1; identifier = request.path_match 3 })
    return (h.write.pub_key found))

  -- The key that the parameters of a request name.
  unfoldable pub asked_key : HttpRequest → Result PubKey
  unfolding urldecode map_at
  asked_key request = elim (map_at (codes "public_key") (urldecode (request.path_match 1))) [
    | err x ↦ err x
    | ok key ↦ ok (record blank_pub_key { public_key = key })
  ]

  -- GET pubkey/isvalid
  unfoldable pub pubkey_valid_get : HttpRequest → Action (Server Value Db) HttpReply
  unfolding ready asked_key
  pubkey_valid_get request = http_endpoint h.write (do
    pubkey ← lift (asked_key request)
    ready w h
    told ← get_pub_key_valid_on w h.ambient pubkey
    return (h.write.pub_key told))

  -- GET pubkey/ephemeral/isvalid
  unfoldable pub ephemeral_valid_get : HttpRequest → Action (Server Value Db) HttpReply
  unfolding ready asked_key
  ephemeral_valid_get request = http_endpoint h.write (do
    pubkey ← lift (asked_key request)
    ready w h
    told ← get_ephemeral_valid_on w h.ambient pubkey
    return (h.write.pub_key told))

  -- POST sign-{algo:id}
  unfoldable pub sign_post : HttpRequest → Action (Server Value Db) HttpReply
  unfolding ready required given_key
  sign_post request = http_endpoint h.write (do
    query ← lift (read_body h.read.to_sign request)
    lift (required "mxid value required" query.mxid)
    lift (required "token value required" query.token)
    lift (required "private_key value required" query.private_key)
    ready w h
    lift (h.signing.sign_query query (given_key request query)))
