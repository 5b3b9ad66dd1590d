-- ===== src/Tests/TransTests.antt =====
-- Tests of transactions, their log and its reading, and instances of their theorems.
use identt.Prelude.{ℕ, ◌≡◌, ◌+◌, refl, [], ◌∷◌, true, false, arith, codes, starts_with}
use identt.Exception.{ok}
use identt.Keys.{encode_primary_key, encode_key_type}
use identt.Keys.Hex.{hex}
use identt.Engine.Ordered.{insert, apply, apply_op}
use identt.Engine.Sorted.{with_prefix}
use identt.Messages.{Transaction, TransItem, TransList, blank_transaction}
use identt.Table.{batch, batch_op}
use identt.Server.{World, Server}
use identt.Trans.{
  commit, commit_log, commit_data, commit_next, commit_logged, log_written, update_cache, push,
  stamped,
}
use identt.Trans.ReadLog.{read_log}
use identt.Trans.Replay.{replay, replayed, commit-replayed, commit-ok, commit-slave, Reliable}
use identt.Trans.Log.{IsLog, log_entries, log_key, log_prefix, commit-IsLog}
use identt.Trans.Pages.{read_log-IsLog, answered}
use identt.Sync.{Network, apply_list, request}
use identt.Sync.CatchUp.{apply_list-replay, apply_list-ok, catch_up}
use identt.Tests.Memory.{
  Memory, memory, Blob, empty, node_codec, local_codec, global_codec, session_codec, token_codec,
  avion_codec, transaction_codec, access_codec, blob_data_codec, ephemeral_codec, invite_codec,
  sent_codec,
}

abbrev pub world : World Blob Memory
world = record {
  engine = memory;
  nodes = node_codec;
  transaction = transaction_codec;
  local_assoc = local_codec;
  global_assoc = global_codec;
  validation_session = session_codec;
  token_auth = token_codec;
  access_key = access_codec;
  blob_store = blob_data_codec;
  ephemeral = ephemeral_codec;
  invite_token = invite_codec;
  par_avion = avion_codec;
  mail_sent = sent_codec;
  currtime = 1000;
  committime = 1001;
  send_to_remote = λ a t. true;
}

-- A new server: the fence of the log, and both counters at 1.
abbrev pub server : Server Blob Memory
server = record {
  db = (log_key 0, empty) ∷ [];
  maincounter = 1;
  logcounter = 1;
  is_master = true;
  is_ready = true;
  lookup_uses_local = false;
  master = codes "http://m";
  hostname = codes "m";
  baseurl = codes "http://m";
  thisurl = codes "http://m";
  lastslave = [];
  remotes = [];
  transactions = [];
  dbcache = [];
}

abbrev pub slave : Server Blob Memory
slave = record server { is_master = false; thisurl = codes "http://s" }

abbrev item : TransItem Blob
item = record { key = codes "0f1"; value = empty; to_del = false }

abbrev first_trans : Transaction Blob
first_trans = record blank_transaction { item = item ∷ [] }

abbrev logged_first : Transaction Blob
logged_first = record first_trans { id = 2; ts = 1001 }

abbrev committed : Memory
committed =
    insert (codes "0f1") empty
      (insert (log_key 2) (transaction_codec.serialize logged_first) server.db)

abbrev server_after : Server Blob Memory
server_after = record server { db = committed; logcounter = 2 }

first_commit : commit world true first_trans server ≡ (ok tt, server_after)
unfolding commit commit_log commit_data commit_next commit_logged log_written update_cache push
    stamped apply apply_op batch batch_op
first_commit = refl

slave-commit :
    commit world false logged_first slave ≡ (ok tt, record slave { db = committed; logcounter = 2 })
unfolding commit commit_log commit_data commit_next commit_logged log_written update_cache push
    stamped apply apply_op batch batch_op
slave-commit = refl

commit-replayed_example :
    (committed ≡ replayed world (stamped world true 2 first_trans) server.db) × (◌≡◌ {A = ℕ} 2 2)
commit-replayed_example =
    commit-replayed world true first_trans server server_after refl first_commit

reliable : Reliable world
reliable = (λ d k v. (insert k v d, refl), λ d ops. (apply ops d, refl))

commit-ok_example : (commit world true first_trans server).0 ≡ ok tt
commit-ok_example = commit-ok world true first_trans server reliable refl

commit-slave_example : (committed ≡ committed) × (◌≡◌ {A = ℕ} 2 2)
unfolding stamped
commit-slave_example =
    commit-slave world world first_trans server server_after slave
      (record slave { db = committed; logcounter = 2 }) (λ u. refl) refl refl refl first_commit
      slave-commit

empty-IsLog : IsLog world empty 2 [] server
unfolding with_prefix starts_with encode_primary_key encode_key_type hex log_entries
empty-IsLog = record {
  sorted = (tt, tt);
  entries = refl;
  numbered = tt;
  positive = omega arith;
  counter = refl;
}

no_log_items : starts_with (codes "0f1") log_prefix ≡ false
unfolding starts_with encode_key_type hex
no_log_items = refl

commit-IsLog_example : IsLog world empty 2 (stamped world true 2 first_trans ∷ []) server_after
commit-IsLog_example =
    commit-IsLog world empty 2 [] true first_trans server server_after empty-IsLog
      (no_log_items, tt) (omega arith) refl first_commit

one-IsLog : IsLog world empty 2 (stamped world true 2 first_trans ∷ []) server_after
one-IsLog =
    commit-IsLog world empty 2 [] true first_trans server server_after empty-IsLog
      (no_log_items, tt) (omega arith) refl first_commit

abbrev asked : TransList Blob
asked = record {
  lastid = 1;
  limit = 1000;
  trans = [];
  currid = 0;
  ts = 1000;
  endpoint = codes "http://s";
}

read_log-IsLog_example :
    read_log world server_after asked
    ≡ ok (answered world server_after asked (stamped world true 2 first_trans ∷ []))
read_log-IsLog_example =
    read_log-IsLog world empty 2 (stamped world true 2 first_trans ∷ []) server_after asked
      one-IsLog (omega arith) (omega arith) (omega arith) (omega arith)

abbrev network : Network Blob
network = record {
  readone = λ a t. ok t;
  translog = λ n a l. ok l;
  register = λ n a s. ok s;
  registers = λ n k a s. true;
}

apply_one :
    apply_list world network (logged_first ∷ []) slave
    ≡ (ok tt, record slave { db = committed; logcounter = 2 })
unfolding apply_list commit commit_log commit_data commit_next commit_logged log_written
    update_cache push stamped apply apply_op batch batch_op
apply_one = refl

apply_list-replay_example :
    (committed ≡ replay world (logged_first ∷ []) slave.db) × (◌≡◌ {A = ℕ} 2 (1 + 1))
apply_list-replay_example =
    apply_list-replay world network (logged_first ∷ []) slave
      (record slave { db = committed; logcounter = 2 }) (refl, tt) (refl, tt) (omega arith)
      apply_one

apply_list-ok_example : (apply_list world network (logged_first ∷ []) slave).0 ≡ ok tt
apply_list-ok_example = apply_list-ok world network (logged_first ∷ []) slave reliable refl

answer :
    read_log world server_after (request world network slave)
    ≡ ok (answered world server_after asked (logged_first ∷ []))
unfolding request stamped
answer =
    read_log-IsLog world empty 2 (stamped world true 2 first_trans ∷ []) server_after asked
      one-IsLog (omega arith) (omega arith) (omega arith) (omega arith)

replayed_first : committed ≡ replay world (logged_first ∷ []) server.db
unfolding replay replayed apply apply_op batch batch_op
replayed_first = refl

nothing_yet : server.db ≡ replay world [] server.db
unfolding replay
nothing_yet = refl

stamped_replayed : committed ≡ replay world (stamped world true 2 first_trans ∷ []) server.db
unfolding replay replayed stamped apply apply_op batch batch_op
stamped_replayed = refl

catch_up_example : (committed ≡ committed) × (◌≡◌ {A = ℕ} 2 2)
unfolding stamped
catch_up_example =
    catch_up world world network empty 2 (stamped world true 2 first_trans ∷ []) server.db
      server_after slave (record slave { db = committed; logcounter = 2 })
      (answered world server_after asked (logged_first ∷ [])) one-IsLog (refl, tt) (omega arith)
      stamped_replayed nothing_yet (omega arith) (omega arith) (omega arith) (omega arith) answer
      apply_one
