-- ===== src/Engine.antt =====
-- The key-value engine under `usemydb` (leveldb or rocksdb) and the protobuf messages stored in it.
-- Both are other projects' code: they are parameters, with their documented behaviour as laws. The
-- engine is an ordered map from byte strings to values, whose writes may fail.
pub mod Ordered
pub mod Sorted
pub mod Scan
use identt.Prelude.{ℕ, ◌≡◌, Bytes, Option, none, some, List}
use Ordered.{Entries, Op, insert, apply, lookup, from, until}

-- A message type with `SerializeToString` and `ParseFromString`.
pub record Codec (Value T : Type 0) : Type 0 where
  pub serialize : T → Value
  pub parse : Value → Option T
  pub parse-serialize : (t : T) → parse (serialize t) ≡ some t

-- An open database: `Get`, `Put`, `Write` of a batch, and an iterator after `Seek`. A read that
-- does not return a value, and a write whose status is not ok, are `none`.
pub record Engine (Value Db : Type 0) : Type 0 where
  -- The empty string.
  pub empty : Value
  pub get : Db → Bytes → Option Value
  pub put : Db → Bytes → Value → Option Db
  pub write : Db → List (Op Value) → Option Db
  pub seek : Db → Bytes → Entries Value
  -- The entries that `Prev` walks back over after a `Seek` that is valid, in the order of the keys.
  pub before : Db → Bytes → Entries Value
  -- What the database holds, in the order of the keys.
  pub view : Db → Entries Value
  pub get-view : (d : Db) (k : Bytes) → get d k ≡ lookup k (view d)
  pub put-view :
      (d e : Db) (k : Bytes) (v : Value) → put d k v ≡ some e → view e ≡ insert k v (view d)
  pub write-view :
      (d e : Db) (ops : List (Op Value)) → write d ops ≡ some e → view e ≡ apply ops (view d)
  pub seek-view : (d : Db) (k : Bytes) → seek d k ≡ from k (view d)
  pub before-view : (d : Db) (k : Bytes) → before d k ≡ until k (view d)
