-- ===== src/Tests/ServiceTests.antt =====
-- Instances of the theorems on records and sessions that are committed.
use identt.Prelude.{◌≡◌, ◌≢◌, refl, inl, inr, List, [], true, false, arith, codes, beq, blt}
use identt.Exception.{ok}
use identt.Keys.{
  KeyType, k_lognode, encode_primary_key, encode_secondary_key, encode_key_type, joined, part_bytes,
  uint_only,
}
use identt.Keys.Hex.{hex}
use identt.Engine.Ordered.{lookup, insert, apply, apply_op}
use identt.Messages.{TransItem, blank_transaction}
use identt.Server.{Server}
use identt.Table.{
  Table, add_record, add_found, get_one, fetch, fetch_by_node, read_record, mem, unique_clash,
  get_secondary_value, dump_record, update_keys, update_key, batch, batch_op, add_trans,
}
use identt.Table.Laws.{Holds}
use identt.Table.Indexed.{IsIndexed}
use identt.Table.Frame.{OfTable}
use identt.Table.Preserved.{add_record-IsIndexed}
use identt.Trans.{
  commit, commit_log, commit_data, commit_next, commit_logged, log_written, update_cache, push,
  stamped,
}
use identt.Trans.Records.{commit-add_record}
use identt.Tables.Records.{ValidationSession, blank_validation_session, TokenAuth, blank_token_auth}
use identt.Tables.Unique.{
  validation_session_key, validation_session_table, token_auth_key, token_auth_table,
}
use identt.Tables.UniqueLaws.{local_assoc_table-IsTable, validation_session_table-IsTable}
use identt.Services.Requests.{SubmitToken, now_validated}
use identt.Services.Numbers.{stoul, minus}
use identt.Services.Common.{find, add, added, commit_items}
use identt.Services.Validate.{submit_token, check_token, check_open, validate}
use identt.Services.ThreePid.{get_validated_3pid}
use identt.Services.Validated.{get_validated_3pid-validate, get_validated_3pid_checks, Vouched}
use identt.Services.Sessions.{submit_token_checks, validate_lem, Submitted}
use identt.Tests.Memory.{Memory, Blob, memory, node_codec, local_codec, session_codec, token_codec}
use identt.Tests.TableTests.{alice, locals, added_items, empty-IsIndexed, alice_added}
use identt.Tests.TransTests.{world, server}

abbrev bare : Server Blob Memory
bare = record server { db = [] }

abbrev alice_committed : Server Blob Memory
alice_committed = (commit world true (record blank_transaction { item = added_items }) bare).1

alice_commit :
    commit world true (record blank_transaction { item = added_items }) bare
    ≡ (ok tt, alice_committed)
unfolding commit commit_log commit_data commit_next commit_logged log_written update_cache push
    stamped apply apply_op batch batch_op dump_record add_trans update_keys update_key
alice_commit = refl

alice_not_log :
    (k : KeyType)
    → OfTable memory node_codec locals (local_assoc_table-IsTable local_codec) k
    → k ≢ k_lognode
unfolding mem
alice_not_log k (inl e) same = omega (arith, e, same)
alice_not_log k (inr sec) same = absurd (ground arith)

commit-add_record_example :
    IsIndexed memory node_codec locals alice_committed.db
    × Holds memory locals alice_committed.db 2 alice
commit-add_record_example =
    commit-add_record world locals (local_assoc_table-IsTable local_codec) bare alice_committed
      alice false true added_items alice_not_log empty-IsIndexed (omega arith) alice_added
      alice_commit

abbrev pending : ValidationSession
pending = record blank_validation_session {
  id = 5;
  medium = codes "email";
  address = codes "a@b.co";
  client_secret = codes "secret";
  mtime = 900;
}

abbrev validated : ValidationSession
validated = record pending { validated = 1; mtime = 1000 }

abbrev mailed : TokenAuth
mailed = record blank_token_auth { id = 6; validation_session = 5; token = codes "123456" }

abbrev sessions : Table Blob ValidationSession
sessions = validation_session_table session_codec

abbrev tokens : Table Blob TokenAuth
tokens = token_auth_table token_codec

abbrev session_items : List (TransItem Blob)
session_items = dump_record memory node_codec sessions false blank_validation_session pending []

abbrev with_session : Memory
with_session = apply (batch session_items) []

abbrev with_token : Memory
with_token =
    apply (batch (dump_record memory node_codec tokens false blank_token_auth mailed []))
      with_session

no-session-IsIndexed : IsIndexed memory node_codec sessions []
unfolding lookup
no-session-IsIndexed = record {
  own_id = λ i r p l h. cc h.stored;
  forward = λ i r k p l h s. cc h.stored;
  backward = λ r k v s g. cc g;
}

session_added : add_record memory node_codec sessions [] pending [] false ≡ ok (true, session_items)
unfolding add_record add_found get_one fetch read_record unique_clash get_secondary_value mem lookup
    validation_session_key beq dump_record update_keys update_key
session_added = refl

with-session-IsIndexed : IsIndexed memory node_codec sessions with_session
with-session-IsIndexed =
    (add_record-IsIndexed memory node_codec sessions
      (validation_session_table-IsTable session_codec) [] with_session pending false session_items
      no-session-IsIndexed (omega arith) session_added refl).0

abbrev opened : Server Blob Memory
opened = record server { db = with_session }

abbrev closed : Server Blob Memory
closed = (validate world pending opened).1

validates : validate world pending opened ≡ (ok now_validated, closed)
unfolding validate add added commit_items commit commit_log commit_data commit_next commit_logged
    log_written update_cache push stamped apply apply_op batch batch_op add_record add_found get_one
    fetch read_record unique_clash get_secondary_value mem lookup validation_session_key beq
    dump_record add_trans update_keys update_key insert encode_secondary_key encode_key_type hex
    encode_primary_key blt uint_only joined part_bytes
validates = refl

validate_lem_example :
    (now_validated ≡ now_validated)
    × IsIndexed memory node_codec sessions closed.db
    × Holds memory sessions closed.db 5 validated
validate_lem_example =
    validate_lem world pending opened closed now_validated with-session-IsIndexed (omega arith) refl
      validates

abbrev pub submission : SubmitToken
submission = record {
  sid = codes "5";
  client_secret = codes "secret";
  token = codes "123456";
  mxid = [];
}

abbrev pub asked : Server Blob Memory
asked = record server { db = with_token }

abbrev pub answered : Server Blob Memory
answered = (submit_token world submission asked).1

pub submits : submit_token world submission asked ≡ (ok now_validated, answered)
unfolding submit_token find check_token check_open stoul validate add added commit_items commit
    commit_log commit_data commit_next commit_logged log_written update_cache push stamped apply
    apply_op batch batch_op add_record add_found get_one fetch read_record unique_clash
    get_secondary_value mem lookup validation_session_key token_auth_key beq dump_record add_trans
    update_keys update_key fetch_by_node insert encode_secondary_key encode_key_type hex
    encode_primary_key blt joined part_bytes uint_only minus
submits = refl

submit_token_checks_example : Submitted world submission asked answered now_validated
submit_token_checks_example =
    submit_token_checks world submission asked answered now_validated submits

sid_read : stoul (codes "5") ≡ ok 5
unfolding stoul
sid_read = refl

get_validated_3pid-validate_example :
    get_validated_3pid (record world { currtime = 5000 }) submission closed ≡ (
      ok (record { medium = codes "email"; address = codes "a@b.co"; validated_at = 1000 }),
      closed,
    )
get_validated_3pid-validate_example =
    get_validated_3pid-validate world submission pending opened closed now_validated 5000
      with-session-IsIndexed (omega arith) (omega arith) refl sid_read refl refl validates

read_back : get_validated_3pid world submission closed ≡ (
  ok (record { medium = codes "email"; address = codes "a@b.co"; validated_at = 1000 }),
  closed,
)
read_back =
    get_validated_3pid-validate world submission pending opened closed now_validated 1000
      with-session-IsIndexed (omega arith) (omega arith) refl sid_read refl refl validates

get_validated_3pid_checks_example :
    Vouched world submission closed closed
      (record { medium = codes "email"; address = codes "a@b.co"; validated_at = 1000 })
get_validated_3pid_checks_example =
    get_validated_3pid_checks world submission closed closed
      (record { medium = codes "email"; address = codes "a@b.co"; validated_at = 1000 }) read_back
