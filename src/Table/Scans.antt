-- ===== src/Table/Scans.antt =====
-- `GetKeysFromIndex`, `GetMany` and `ScanTable` of include/store/StoreTable.hpp: iterations over the
-- database.
use identt.Prelude.{
  ℕ, suc, ◌+◌, ◌%◌, ◌^◌, Bytes, List, [], ◌∷◌, Bool, true, false, ◌&&◌, not, none, some, ◌==◌, ltb,
  leb, length, starts_with, if◌then◌else◌,
}
use identt.Exception.{Result, ok, err, bad_data, bad_code, ◌>>=◌}
use identt.Keys.{KeyType, encode_key_type, encode_primary_key, keyid_len}
use identt.Engine.{Engine, Codec}
use identt.Engine.Ordered.{Entries}
use identt.Messages.{Node}
use identt.Table.{Table, mem}

-- `nodes->add_node()` parsed from the value; the result of the parse is not looked at, and a node
-- that cannot be parsed is taken for a blank one.
unfoldable pub node_of : {Value : Type 0} → Codec Value Node → Value → Node
node_of nodes value = elim (nodes.parse value) [
  | none ↦ record { keytype = 0; id = 0 }
  | some node ↦ node
]

-- The loop of `GetKeysFromIndex`, over the entries that the iterator still has.
unfoldable pub index_loop :
    {Value : Type 0} → Codec Value Node → Bytes → ℕ → ℕ → ℕ → Entries Value → List Node
index_loop nodes match skip limit counter [] = []
index_loop nodes match skip limit counter ((key, value) ∷ rest) =
    let next = index_loop nodes match skip limit (suc counter) rest in
    if starts_with key match
    then (if leb (suc counter) skip
        then next
        else node_of nodes value ∷ (if suc counter == (skip + limit) % 2 ^ 64 then [] else next))
    else []

unfoldable pub at_least_one : List Node → Bool × List Node
at_least_one [] = (false, [])
at_least_one (n ∷ ns) = (true, n ∷ ns)

-- `(*records)[id] = record`
unfoldable pub map_put : {T : Type 0} → ℕ → T → List (ℕ × T) → List (ℕ × T)
map_put i r [] = (i, r) ∷ []
map_put i r ((j, s) ∷ m) = let rest = map_put i r m in if j == i then (i, r) ∷ m else (j, s) ∷ rest

module _ {Value Db T : Type 0} (e : Engine Value Db) (nodes : Codec Value Node)
    (t : Table Value T) where
  open t use {primary_key, unique_keys, index_keys, get_key}

  -- GetKeysFromIndex: whether one was found, and the nodes.
  unfoldable pub get_keys_from_index : Db → KeyType → T → ℕ → ℕ → Bool × List Node
  get_keys_from_index d keytype r skip limit =
      let key = get_key r keytype true in
      if not (mem keytype unique_keys) && not (mem keytype index_keys)
      then (false, [])
      else if leb (length key) keyid_len
      then (false, [])
      else at_least_one (index_loop nodes key skip limit 0 (e.seek d key))

  -- The loop of `GetMany`: read the record of each node into the map.
  unfoldable pub read_nodes : Db → T → List Node → List (ℕ × T) → Result (List (ℕ × T))
  read_nodes d r [] records = ok records
  read_nodes d r (node ∷ rest) records =
      if node.keytype == primary_key
      then elim (e.get d (get_key (t.set_id node.id r) primary_key false)) [
        | none ↦ err (bad_data "Record is missing ")
        | some value ↦ elim (t.codec.parse value) [
          | none ↦ err (bad_data "Record cannot be parsed")
          | some stored ↦ read_nodes d stored rest (map_put (t.id stored) stored records)
        ]
      ]
      else err (bad_data "Record is bad ")

  -- `GetMany` after the index has been read.
  unfoldable pub read_found : Db → List (ℕ × T) → Bool × List Node → Result (Bool × List (ℕ × T))
  read_found d records (false, ns) = ok (false, records)
  read_found d records (true, ns) = do m ← read_nodes d t.blank ns records; ok (true, m)

  -- GetMany adds to the map that it is given.
  unfoldable pub get_many : Db → T → List (ℕ × T) → KeyType → ℕ → ℕ → Result (Bool × List (ℕ × T))
  get_many d refer records keytype skip limit =
      if keytype == primary_key
      then err (bad_code "This cannot be used for primary key")
      else read_found d records (get_keys_from_index d keytype refer skip limit)

  -- The loop of `ScanTable`: the records given to the function, and how the loop ends.
  unfoldable pub scan_loop : Bytes → ℕ → ℕ → Entries Value → List T × Result (Unit {0})
  scan_loop match limit counter [] = ([], ok tt)
  scan_loop match limit counter ((key, value) ∷ rest) =
      let next = scan_loop match limit (suc counter) rest in
      if starts_with key match
      then elim (t.codec.parse value) [
        | none ↦ ([], err (bad_data "Record cannot be parsed"))
        | some r ↦ if suc counter == limit then (r ∷ [], ok tt) else (r ∷ next.0, next.1)
      ]
      else ([], ok tt)

  -- ScanTable
  unfoldable pub scan_table : Db → ℕ → ℕ → List T × Result (Unit {0})
  scan_table d startid limit =
      let start = if ltb 0 startid then startid else 1 in
      scan_loop (encode_key_type primary_key) limit 0
        (e.seek d (encode_primary_key primary_key start))
