-- ===== src/Tests/Memory.antt =====
-- An engine in memory whose writes succeed, and a value type with a constructor for each message:
-- the laws of `Engine` and `Codec` can be met.
use identt.Prelude.{ℕ, ◌≡◌, refl, ap, Bytes, List, [], ◌∷◌, Option, none, some, Bool}
use identt.Engine.{Engine, Codec}
use identt.Engine.Ordered.{Entries, insert, apply, lookup, from, until}
use identt.Messages.{Node, TransItem, Transaction, blank_transaction}
use identt.Tables.Records.{
  AccessKey, blank_access_key, BlobStore, blank_blob_store, EphemeralPublicKey,
  blank_ephemeral_public_key, InviteToken, blank_invite_token, MailSent, blank_mail_sent,
  LocalAssoc, blank_local_assoc, GlobalAssoc, blank_global_assoc, ValidationSession,
  blank_validation_session, TokenAuth, blank_token_auth, ParAvion, blank_par_avion,
}

mutual
  pub data Blob : Type 0 where
    empty : Blob
    node : Node → Blob
    local : LocalAssoc → Blob
    global : GlobalAssoc → Blob
    session : ValidationSession → Blob
    token : TokenAuth → Blob
    avion : ParAvion → Blob
    access : AccessKey → Blob
    blob_data : BlobStore → Blob
    ephemeral : EphemeralPublicKey → Blob
    invite : InviteToken → Blob
    sent : MailSent → Blob
    transaction : ℕ → Items → ℕ → Bool → Blob

  -- The items of a transaction.
  pub data Items : Type 0 where
    nil : Items
    cons : Bytes → Blob → Bool → Items → Items

abbrev pub Memory : Type 0
Memory = Entries Blob

pub some_inj : {a b : Memory} → some a ≡ some b → b ≡ a
some_inj h = cc

abbrev pub memory : Engine Blob Memory
memory = record {
  empty = empty;
  get = λ d k. lookup k d;
  put = λ d k v. some (insert k v d);
  write = λ d ops. some (apply ops d);
  seek = λ d k. from k d;
  view = λ d. d;
  get-view = λ d k. refl;
  put-view = λ d e k v h. some_inj h;
  write-view = λ d e ops h. some_inj h;
  seek-view = λ d k. refl;
  before = λ d k. until k d;
  before-view = λ d k. refl;
}

abbrev pub parse_node : Blob → Option Node
parse_node (node n) = some n
parse_node empty = some (record { keytype = 0; id = 0 })
parse_node _ = none

abbrev pub node_codec : Codec Blob Node
node_codec = record { serialize = node; parse = parse_node; parse-serialize = λ t. refl }

abbrev pub parse_local : Blob → Option LocalAssoc
parse_local (local r) = some r
parse_local empty = some blank_local_assoc
parse_local _ = none

abbrev pub local_codec : Codec Blob LocalAssoc
local_codec = record { serialize = local; parse = parse_local; parse-serialize = λ t. refl }

abbrev pub parse_global : Blob → Option GlobalAssoc
parse_global (global r) = some r
parse_global empty = some blank_global_assoc
parse_global _ = none

abbrev pub global_codec : Codec Blob GlobalAssoc
global_codec = record { serialize = global; parse = parse_global; parse-serialize = λ t. refl }

abbrev pub parse_session : Blob → Option ValidationSession
parse_session (session r) = some r
parse_session empty = some blank_validation_session
parse_session _ = none

abbrev pub session_codec : Codec Blob ValidationSession
session_codec = record { serialize = session; parse = parse_session; parse-serialize = λ t. refl }

abbrev pub parse_token : Blob → Option TokenAuth
parse_token (token r) = some r
parse_token empty = some blank_token_auth
parse_token _ = none

abbrev pub token_codec : Codec Blob TokenAuth
token_codec = record { serialize = token; parse = parse_token; parse-serialize = λ t. refl }

abbrev pub parse_avion : Blob → Option ParAvion
parse_avion (avion r) = some r
parse_avion empty = some blank_par_avion
parse_avion _ = none

abbrev pub avion_codec : Codec Blob ParAvion
avion_codec = record { serialize = avion; parse = parse_avion; parse-serialize = λ t. refl }

abbrev pub to_items : List (TransItem Blob) → Items
to_items [] = nil
to_items (i ∷ is) = cons i.key i.value i.to_del (to_items is)

abbrev pub of_items : Items → List (TransItem Blob)
of_items nil = []
of_items (cons k v d is) = record { key = k; value = v; to_del = d } ∷ of_items is

pub of_items-to_items : (is : List (TransItem Blob)) → of_items (to_items is) ≡ is
of_items-to_items [] = refl
of_items-to_items (i ∷ is) = ap (λ r. i ∷ r) (of_items-to_items is)

abbrev pub write_transaction : Transaction Blob → Blob
write_transaction t = transaction t.id (to_items t.item) t.ts t.notfound

abbrev pub parse_transaction : Blob → Option (Transaction Blob)
parse_transaction (transaction i is ts nf) =
    some (record { id = i; item = of_items is; ts = ts; notfound = nf })
parse_transaction empty = some blank_transaction
parse_transaction _ = none

pub parse-write_transaction :
    (t : Transaction Blob) → parse_transaction (write_transaction t) ≡ some t
parse-write_transaction t = ap (λ is. some (record t { item = is })) (of_items-to_items t.item)

abbrev pub transaction_codec : Codec Blob (Transaction Blob)
transaction_codec = record {
  serialize = write_transaction;
  parse = parse_transaction;
  parse-serialize = parse-write_transaction;
}

abbrev pub parse_access : Blob → Option AccessKey
parse_access (access r) = some r
parse_access empty = some blank_access_key
parse_access _ = none

abbrev pub access_codec : Codec Blob AccessKey
access_codec = record { serialize = access; parse = parse_access; parse-serialize = λ t. refl }

abbrev pub parse_blob_data : Blob → Option BlobStore
parse_blob_data (blob_data r) = some r
parse_blob_data empty = some blank_blob_store
parse_blob_data _ = none

abbrev pub blob_data_codec : Codec Blob BlobStore
blob_data_codec = record {
  serialize = blob_data;
  parse = parse_blob_data;
  parse-serialize = λ t. refl;
}

abbrev pub parse_ephemeral : Blob → Option EphemeralPublicKey
parse_ephemeral (ephemeral r) = some r
parse_ephemeral empty = some blank_ephemeral_public_key
parse_ephemeral _ = none

abbrev pub ephemeral_codec : Codec Blob EphemeralPublicKey
ephemeral_codec = record {
  serialize = ephemeral;
  parse = parse_ephemeral;
  parse-serialize = λ t. refl;
}

abbrev pub parse_invite : Blob → Option InviteToken
parse_invite (invite r) = some r
parse_invite empty = some blank_invite_token
parse_invite _ = none

abbrev pub invite_codec : Codec Blob InviteToken
invite_codec = record { serialize = invite; parse = parse_invite; parse-serialize = λ t. refl }

abbrev pub parse_sent : Blob → Option MailSent
parse_sent (sent r) = some r
parse_sent empty = some blank_mail_sent
parse_sent _ = none

abbrev pub sent_codec : Codec Blob MailSent
sent_codec = record { serialize = sent; parse = parse_sent; parse-serialize = λ t. refl }
