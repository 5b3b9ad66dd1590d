-- ===== src/Table.antt =====
-- include/store/StoreTable.hpp: a table of messages in the database, one entry for each record
-- under its primary key, and for each secondary key an entry that holds the record's id.
pub mod Laws
pub mod Effects
pub mod Reads
pub mod Adds
pub mod Indexed
pub mod Preserved
pub mod Lookups
pub mod Scans
pub mod IndexReads
pub mod Frame
use identt.Prelude.{
  ℕ, zero, suc, ◌+◌, Bytes, List, [], ◌∷◌, ◌++◌, Bool, true, false, ◌&&◌, ◌||◌, not, Option, none,
  some, ◌==◌, ltb, leb, length, beq, starts_with, if◌then◌else◌,
}
use identt.Exception.{Result, ok, err, bad_data, bad_code, ◌>>=◌, ◌>>◌}
use identt.Keys.{KeyType, encode_key_type, encode_primary_key, keyid_len}
use identt.Engine.{Engine, Codec}
use identt.Engine.Ordered.{Entries, Op, put_op, delete_op}
use identt.Messages.{Node, TransItem}

-- The members of `StoreTable<T>`, its virtual `GetKey`, and what the generated class of `T` gives.
pub record Table (Value T : Type 0) : Type 0 where
  pub primary_key : KeyType
  -- a `std::set` is walked in ascending order
  pub unique_keys : List KeyType
  pub index_keys : List KeyType
  pub get_key : T → KeyType → Bool → Bytes
  pub codec : Codec Value T
  pub blank : T
  pub id : T → ℕ
  pub set_id : ℕ → T → T
  pub notfound : T → Bool

-- `set.find(keytype) != set.end()`
unfoldable pub mem : KeyType → List KeyType → Bool
mem k [] = false
mem k (j ∷ ks) = k == j || mem k ks

module _ {Value Db T : Type 0} (e : Engine Value Db) (nodes : Codec Value Node)
    (t : Table Value T) where
  open t use {primary_key, unique_keys, index_keys, get_key}

  -- The end of `GetOne`: parse what the primary key holds.
  unfoldable pub read_record : T → Option Value → Result (Bool × T)
  read_record r none = ok (false, r)
  read_record r (some value) = elim (t.codec.parse value) [
    | none ↦ err (bad_data "Record cannot be parsed")
    | some stored ↦ ok (true, stored)
  ]

  -- The record under the primary key of the id in `r`.
  unfoldable pub fetch : Db → T → Result (Bool × T)
  fetch d r = read_record r (e.get d (get_key r primary_key false))

  -- `GetOne` through a secondary key: the id of the node that the key holds.
  unfoldable pub fetch_by_node : Db → T → Option Value → Result (Bool × T)
  fetch_by_node d r none = ok (false, r)
  fetch_by_node d r (some value) = elim (nodes.parse value) [
    | none ↦ ok (false, r)
    | some node ↦ fetch d (t.set_id node.id r)
  ]

  -- GetOne. The record is an in-out argument: its last value comes back beside the result.
  unfoldable pub get_one : Db → T → KeyType → Result (Bool × T)
  get_one d r keytype =
      if keytype == primary_key
      then fetch d r
      else if mem keytype unique_keys || mem keytype index_keys
      then fetch_by_node d r (e.get d (get_key r keytype false))
      else err (bad_data "Keytype invalid")

  -- AddTrans: an item to delete keeps the default value, which is empty.
  unfoldable pub add_trans : List (TransItem Value) → Bytes → Value → Bool → List (TransItem Value)
  add_trans trans key value to_del =
      trans ++ record { key = key; value = if to_del then e.empty else value; to_del = to_del } ∷ []

  -- GetSecondaryValue: the node, or `none` for the result `false`.
  unfoldable pub get_secondary_value : Db → T → KeyType → Option Node
  get_secondary_value d r keytype =
      if not (mem keytype unique_keys) && not (mem keytype index_keys)
      then none
      else elim (e.get d (get_key r keytype false)) [ none ↦ none | some value ↦ nodes.parse value ]

  -- The first loop of `AddRecord`: does a unique key belong to another record?
  unfoldable pub unique_clash : Db → T → List KeyType → Bool
  unique_clash d r [] = false
  unique_clash d r (keytype ∷ rest) =
      let later = unique_clash d r rest in
      elim (get_secondary_value d r keytype) [
        | none ↦ later
        | some node ↦ if t.id r == node.id then later else true
      ]

  -- The body of its two further loops: delete the old key and put the new one, keep it if the same.
  unfoldable pub update_key :
      Bool → T → T → Value → KeyType → List (TransItem Value) → List (TransItem Value)
  update_key old_record_exists old r dumpid keytype trans =
      let u_new = get_key r keytype false in
      let u_old = get_key old keytype false in
      if old_record_exists
      then (if beq u_old u_new
          then trans
          else add_trans (add_trans trans u_old dumpid true) u_new dumpid false)
      else add_trans trans u_new dumpid false

  unfoldable pub update_keys :
      Bool → T → T → Value → List KeyType → List (TransItem Value) → List (TransItem Value)
  update_keys exists old r dumpid [] trans = trans
  update_keys exists old r dumpid (keytype ∷ rest) trans =
      update_keys exists old r dumpid rest (update_key exists old r dumpid keytype trans)

  -- What `AddRecord` appends once its checks have passed.
  unfoldable pub dump_record : Bool → T → T → List (TransItem Value) → List (TransItem Value)
  dump_record exists old r trans =
      let dumpid = nodes.serialize (record { keytype = primary_key; id = t.id r }) in
      add_trans
        (update_keys exists old r dumpid index_keys
          (update_keys exists old r dumpid unique_keys trans))
        (get_key r primary_key false) (t.codec.serialize r) false

  -- The rest of `AddRecord`, after its call of `GetOne`.
  unfoldable pub add_found :
      Db → T → List (TransItem Value) → Bool → Bool × T → Result (Bool × List (TransItem Value))
  add_found d r trans upsert (exists, old) =
      if exists && not upsert
      then ok (false, trans)
      else if unique_clash d r unique_keys
      then ok (false, trans)
      else ok (true, dump_record exists old r trans)

  -- AddRecord: whether the record was added, and the transaction.
  unfoldable pub add_record :
      Db → T → List (TransItem Value) → Bool → Result (Bool × List (TransItem Value))
  add_record d r trans upsert =
      if t.notfound r then ok (false, trans) else if t.id r == 0 then ok (false, trans) else do
        found ← get_one d (t.set_id (t.id r) t.blank) primary_key
        add_found d r trans upsert found

  unfoldable pub delete_keys : T → List KeyType → List (TransItem Value) → List (TransItem Value)
  delete_keys r [] trans = trans
  delete_keys r (keytype ∷ rest) trans =
      delete_keys r rest (add_trans trans (get_key r keytype false) e.empty true)

  -- DelRecord
  unfoldable pub del_record : T → List (TransItem Value) → Bool × List (TransItem Value)
  del_record r trans = if t.notfound r then (false, trans) else (
    true,
    delete_keys r index_keys (
        delete_keys r unique_keys
          (add_trans trans (encode_primary_key primary_key (t.id r)) e.empty true)),
  )

-- CommitData of src/store/StoreTrans.cc: the write batch of the items of a transaction.
unfoldable pub batch_op : {Value : Type 0} → TransItem Value → Op Value
batch_op item = if item.to_del then delete_op item.key else put_op item.key item.value

unfoldable pub batch : {Value : Type 0} → List (TransItem Value) → List (Op Value)
batch [] = []
batch (item ∷ rest) = batch_op item ∷ batch rest
