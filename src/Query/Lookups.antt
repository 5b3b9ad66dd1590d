-- ===== src/Query/Lookups.antt =====
-- include/query/LookupService.hpp and ParamLookupService.hpp: the endpoints of lookups. A slave
-- answers a lookup from its own database. The variants with
-- `_params` have the same code.
pub mod Guarded
use identt.Prelude.{Bytes, List, [], ◌∷◌, false, codes, if◌then◌else◌}
use identt.Exception.{Result, ok, err}
use identt.Trans.{is_empty}
use identt.Server.{World, Server, Action, return, lift, get, ◌>>=◌, ◌>>◌}
use identt.Services.Requests.{LookupQuery}
use identt.Services.Lookup.{lookup_action, bulk_lookup}
use identt.Hrpc.Master.{PubKey, blank_pub_key}
use identt.Query.{
  Http, HttpRequest, HttpReply, http_endpoint, read_body, read_json, ready, check_access,
}

-- The key that signs for this server: THREEPID_DEFAULT_ALGO and THREEPID_DEFAULT_ALGO_ID.
unfoldable pub own_key : Bytes → PubKey
own_key hostname = record blank_pub_key {
  owner = hostname;
  algo = codes "ed25519";
  identifier = codes "0";
}

-- `if (!output.length()) output="{}";`
unfoldable pub or_braces : Bytes → Bytes
or_braces [] = codes "{}"
or_braces (c ∷ s) = c ∷ s

module _ {Value Db : Type 0} (w : World Value Db) (h : Http) where
  -- The check of the access key, the action, and its signed result.
  unfoldable pub lookup_with : LookupQuery → HttpRequest → Action (Server Value Db) Bytes
  unfolding ready check_access own_key
  lookup_with query request = do
    ready w h
    check_access w h h.lookup_requires_key query.accesskey request
    s ← get
    result ← lift (lookup_action w query s)
    lift (h.signing.sign_lookup result (own_key s.hostname))

  -- POST lookup
  unfoldable pub lookup_post : HttpRequest → Action (Server Value Db) HttpReply
  unfolding lookup_with or_braces
  lookup_post request = http_endpoint h.write (do
    query ← lift (read_body h.read.lookup request)
    output ← lookup_with query request
    return (or_braces output))

  -- GET lookup
  unfoldable pub lookup_get : HttpRequest → Action (Server Value Db) HttpReply
  unfolding lookup_with
  lookup_get request =
      http_endpoint h.write
        (do query ← lift (h.read.lookup.form2pb (request.path_match 1)); lookup_with query request)

  -- POST bulk_lookup, of JSON only.
  unfoldable pub bulk_lookup_post : HttpRequest → Action (Server Value Db) HttpReply
  unfolding ready check_access own_key or_braces
  bulk_lookup_post request = http_endpoint h.write (do
    query ← lift (read_json h.read.bulk_lookup "Only Json Supported" request)
    ready w h
    check_access w h h.lookup_requires_key query.1 request
    s ← get
    results ← lift (bulk_lookup w query.0 s)
    output ← lift (h.signing.sign_text (h.write.bulk_lookup results) (own_key s.hostname))
    return (or_braces output))

  -- POST lookup_params, GET lookup_params and POST bulk_lookup_params
  unfoldable pub lookup_params_post : HttpRequest → Action (Server Value Db) HttpReply
  unfolding lookup_post
  lookup_params_post = lookup_post

  unfoldable pub lookup_params_get : HttpRequest → Action (Server Value Db) HttpReply
  unfolding lookup_get
  lookup_params_get = lookup_get

  unfoldable pub bulk_lookup_params_post : HttpRequest → Action (Server Value Db) HttpReply
  unfolding bulk_lookup_post
  bulk_lookup_params_post = bulk_lookup_post
