-- ===== src/Tests/SignTests.antt =====
-- Instances of the theorems on signatures.
use identt.Prelude.{
  c_str, ◌≡◌, refl, Bytes, List, [], ◌∷◌, true, Option, none, some, ◌==◌, arith, codes, beq,
  if◌then◌else◌,
}
use identt.Exception.{Exception, ok, err, ◌>>=◌}
use identt.Hrpc.Master.{PubKey, blank_pub_key}
use identt.Json.{Json, j_object, j_text, j_null, no_member, member, Rapid, get_member, add_member}
use identt.Json.Added.{signed_object}
use identt.Query.{Http, ToSignQuery, reply}
use identt.Query.Keys.{sign_post}
use identt.Signed.{
  Sodium, Ed25519, scope_all, key_id, ring_key, add_sign, add_sign_text, verify_sign,
}
use identt.Signed.Refused.{sign_post-Throws}
use identt.Signed.Verified.{IsOwnKey, own_signature, verify_sign-add_sign_text}
use identt.Tests.TransTests.{world, server}
use identt.Tests.QueryTests.{http, request, readers, one_message}

abbrev own : PubKey
own = record blank_pub_key { algo = codes "ed25519"; identifier = codes "0"; owner = codes "m" }

abbrev own_keys : Ed25519
own_keys = record { pubkey = 1 ∷ []; seckey = 2 ∷ []; scope = scope_all }

abbrev ring : List (Bytes × Ed25519)
ring = (codes "ed25519:0", own_keys) ∷ []

abbrev sodium : Sodium
sodium = record { sign_detached = λ m sk. 7 ∷ []; verify_detached = λ s m pk. true }

-- The two objects that are written: the empty one, and that with a signature of the own key.
unfoldable written : Json → Bytes
written (j_object no_member) = 1 ∷ []
written (j_object (member n (j_object (member o (j_object (member k (j_text v) e)) f)) g)) = 2 ∷ v
written j = []

unfoldable read_text : Bytes → Option Json
read_text [] = none
read_text (b ∷ s) =
    if b == 1
    then some (j_object no_member)
    else some
        (signed_object (record { org = codes "m"; key = codes "ed25519:0"; value = s }) no_member)

abbrev rapid : Rapid
rapid = record { parse = read_text; print = written }

own-IsOwnKey : IsOwnKey rapid sodium ring own own_keys
unfolding ring_key key_id beq
own-IsOwnKey = record {
  listed = refl;
  found = refl;
  all_scopes = refl;
  verifies = λ m. refl;
  signature_bytes = λ m. (omega arith, tt);
}

unsigned_read : read_text (written (j_object no_member)) ≡ some (j_object no_member)
unfolding written read_text
unsigned_read = refl

signed_read :
    read_text (
      written (
        signed_object
          (own_signature rapid sodium ring own own_keys (written (j_object no_member)))
          no_member))
    ≡ some (
        signed_object
          (own_signature rapid sodium ring own own_keys (written (j_object no_member)))
          no_member)
unfolding written read_text add_member key_id
signed_read = refl

owner_plain : c_str (codes "m") ≡ codes "m"
unfolding c_str
owner_plain = refl

key_plain : c_str (key_id own) ≡ key_id own
unfolding c_str key_id
key_plain = refl

none_there : (n : Bytes) → get_member n no_member ≡ none
unfolding get_member
none_there n = refl

verify_sign-add_sign_text_example :
    (add_sign_text rapid sodium ring (written (j_object no_member)) [] own []
      ≡ ok (
        own_signature rapid sodium ring own own_keys (written (j_object no_member)) ∷ [],
        written (
            signed_object
              (own_signature rapid sodium ring own own_keys (written (j_object no_member)))
              no_member),
      ))
    × (verify_sign rapid sodium ring
          (written (
            signed_object
              (own_signature rapid sodium ring own own_keys (written (j_object no_member)))
              no_member))
          own
          []
        ≡ ok (written (j_object no_member), []))
verify_sign-add_sign_text_example =
    verify_sign-add_sign_text rapid sodium ring own own_keys no_member
      (none_there (codes "signatures")) own-IsOwnKey (none_there (codes "unsigned")) owner_plain
      key_plain unsigned_read signed_read

-- A request with all that the endpoint requires, so that it comes to AddSign.
abbrev to_sign : ToSignQuery
to_sign = record {
  mxid = codes "@alice:m";
  token = codes "t";
  private_key = codes "k";
  sender = [];
}

abbrev signing_http : Http
signing_http = record (http server) {
  read = record readers { to_sign = one_message to_sign };
  signing = record {
    sign_lookup = λ r k. ok [];
    sign_text = λ t k. ok [];
    sign_query = λ query key. add_sign rapid sodium ring j_null key [] >>= λ signed. ok (signed.1);
  };
}

sign_post-Throws_example :
    (x : Exception) × ((sign_post world signing_http request server).0
      ≡ reply signing_http.write (err x))
sign_post-Throws_example =
    sign_post-Throws rapid sodium ring world signing_http (λ query. j_null) request server refl
