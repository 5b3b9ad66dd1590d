-- ===== src/Tests/QueryTests.antt =====
-- Instances of the theorems on the HTTP endpoints.
use identt.Prelude.{
  ◌≢◌, subst, ◌≡◌, refl, ap, Bytes, [], ◌∷◌, ◌++◌, true, false, Option, none, some, ◌==◌, arith,
  codes, beq, if◌then◌else◌,
}
use identt.Exception.{ok, err, undefined, config}
use identt.Server.{Server, continue, return}
use identt.Services.Requests.{Outcome, now_validated, already_validated, LookupQuery}
use identt.Services.Lookup.{lookup_action}
use identt.Hrpc.{Wire}
use identt.Hrpc.Forward.{Carries, delivered, as_seen}
use identt.Hrpc.Master.{MasterCodecs, SubmitTokenData, submit_token_on, master_endpoint}
use identt.Query.{
  Http, HttpRequest, Reader, QueryReaders, QueryWriters, reply, read_body, is_server_query, ready,
  check_access,
}
use identt.Query.Forwarded.{IsSlaveOf, asked_submit, shown, submit_token_post_forwarded}
use identt.Query.Form.{urldecode}
use identt.Query.Form.Coding.{form, assign_all, urldecode-form}
use identt.Query.Sessions.{submit_token_post, notified_on_post, onbind_url}
use identt.Query.Sessions.Notified.{notified_on_post_lem}
use identt.Query.Lookups.{lookup_with}
use identt.Query.Lookups.Guarded.{Answered, lookup_with_checks}
use identt.Tests.Memory.{Memory, Blob}
use identt.Tests.TransTests.{world, server}
use identt.Tests.ServiceTests.{submission, asked, submits}
use identt.Tests.HrpcTests.{ambient, codecs}

notified_on_post_lem_example :
    notified_on_post (codes "@alice" ++ 58 ∷ codes "example.org:8448") (codes "{}")
    ≡ some (onbind_url (codes "example.org:8448"), codes "{}")
notified_on_post_lem_example =
    notified_on_post_lem (codes "@alice") (codes "example.org:8448") (codes "{}")
      (refl, (refl, (refl, (refl, (refl, (refl, tt))))))

-- Two fields, with characters that are coded.
abbrev first_field : Bytes × Bytes
first_field = (97 ∷ [], 61 ∷ 200 ∷ [])

abbrev second_field : Bytes × Bytes
second_field = (98 ∷ [], 37 ∷ [])

urldecode-form_example :
    urldecode (form (λ c. c == 200) first_field (second_field ∷ []))
    ≡ assign_all (first_field ∷ second_field ∷ []) []
urldecode-form_example =
    urldecode-form (λ c. c == 200) first_field (second_field ∷ [])
      (
        (omega arith, tt),
        (omega arith, (omega arith, tt)),
        ((omega arith, tt), (omega arith, tt), tt),
      )

-- The one byte of a message that tells its result.
unfoldable pub told_byte : Option Outcome → Bytes
told_byte none = 0 ∷ []
told_byte (some now_validated) = 1 ∷ []
told_byte (some already_validated) = 2 ∷ []

unfoldable pub byte_told : Bytes → Option Outcome
byte_told [] = none
byte_told (b ∷ s) =
    if b == 1 then some now_validated else if b == 2 then some already_validated else none

-- A reader and writers that know one message.
abbrev pub one_message : {M : Type 0} → M → Reader M
one_message m = record { json2pb = λ s. some m; form2pb = λ s. ok m }

abbrev pub no_message : {M : Type 0} → Reader M
no_message = record { json2pb = λ s. none; form2pb = λ s. err (config "unread") }

abbrev pub readers : QueryReaders
readers = record {
  request_token = no_message;
  submit_token = one_message submission;
  lookup = no_message;
  bulk_lookup = λ s. none;
  blob = no_message;
  blob_members = λ s. none;
  invite = λ s. none;
  to_sign = no_message;
  mail = no_message;
}

abbrev pub writers : QueryWriters
writers = record {
  success_sid = λ m. m.sid;
  outcome = told_byte;
  validated_at = λ m. m.address;
  access_blob = λ m. m.accesskey;
  blob_data = λ m. m.textdata;
  bulk_lookup = λ m. [];
  pub_key = λ m. m.public_key;
  invite_result = λ m. m.token;
  mail = λ m. [];
  info = λ m. m.hostname;
  object = λ fields. codes "{}";
  success = codes "{}";
}

abbrev pub request : HttpRequest
request = record {
  path_match = λ i. codes "email";
  content_type = none;
  accept = none;
  shared_secret = some (codes "secret");
  content = codes "sid=5";
}

abbrev pub question : SubmitTokenData
question = asked_submit submission request

abbrev pub reply_data : SubmitTokenData
reply_data = record question { result = some now_validated }

abbrev pub submit_wire : Wire SubmitTokenData
submit_wire = record {
  serialize = λ m. told_byte m.result;
  parse = λ s. some (record question { result = byte_told s });
}

abbrev pub submit_codecs : MasterCodecs
submit_codecs = record codecs { submit_token = submit_wire }

-- The calls of the slave go to the master `m`.
abbrev pub http : Server Blob Memory → Http
http m = record {
  read = readers;
  write = writers;
  signing = record {
    sign_lookup = λ r k. ok (codes "signed");
    sign_text = λ r k. ok [];
    sign_query = λ r k. ok [];
  };
  ambient = ambient;
  codecs = submit_codecs;
  post =
      λ url post. delivered (master_endpoint world ambient submit_codecs (codes "secret") post m).0;
  secret = codes "secret";
  lookup_requires_key = true;
  invite_requires_key = true;
}

abbrev slave : Server Blob Memory
slave = record server { is_master = false }

slave-IsSlaveOf : IsSlaveOf world (http asked) slave asked
slave-IsSlaveOf = record {
  slave = refl;
  slave_ready = refl;
  master = refl;
  master_ready = refl;
  calls = refl;
}

question-Carries : Carries submit_wire question
unfolding told_byte byte_told
question-Carries = record { parse-serialize = refl; bytes = (omega arith, tt) }

reply-Carries : Carries submit_wire reply_data
unfolding told_byte byte_told
reply-Carries = record { parse-serialize = refl; bytes = (omega arith, tt) }

master_submits : (submit_token_on world ambient question asked).0 ≡ ok reply_data
unfolding submit_token_on
master_submits =
    ap (λ x. (continue x (λ r. return (record question { result = some r }))).0) submits

body_read : read_body readers.submit_token request ≡ ok submission
unfolding read_body
body_read = refl

done-Carries :
    (done : SubmitTokenData)
    → (submit_token_on world ambient question asked).0 ≡ ok done
    → Carries submit_wire done
done-Carries done e = subst (λ d. Carries submit_wire d) (cc (e, master_submits)) reply-Carries

submit_defined : (submit_token_on world ambient question asked).0 ≢ err undefined
submit_defined e = cc (e, master_submits)

submit_token_post_forwarded_example :
    ((submit_token_post world (http asked) request slave).0
      ≡ reply writers
          (shown world (http asked) (as_seen (submit_token_on world ambient question asked)).0))
    × ((submit_token_post world (http asked) request asked).0
        ≡ reply writers (shown world (http asked) (submit_token_on world ambient question asked).0))
submit_token_post_forwarded_example =
    submit_token_post_forwarded world (http asked) request submission slave asked slave-IsSlaveOf
      body_read question-Carries done-Carries submit_defined

abbrev lookup_query : LookupQuery
lookup_query = record { medium = codes "email"; address = codes "a@b.co"; accesskey = [] }

-- A server that looks up in its cache, which is empty.
abbrev cached_server : Server Blob Memory
cached_server = record server { lookup_uses_local = true }

looked_up :
    lookup_with world (http server) lookup_query request cached_server
    ≡ (ok (codes "signed"), cached_server)
unfolding lookup_with ready check_access is_server_query lookup_action beq
looked_up = refl

lookup_with_checks_example :
    Answered world (http server) lookup_query request cached_server (codes "signed")
    × (cached_server ≡ cached_server)
lookup_with_checks_example =
    lookup_with_checks world (http server) lookup_query request cached_server cached_server
      (codes "signed") looked_up
