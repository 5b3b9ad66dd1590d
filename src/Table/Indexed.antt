-- ===== src/Table/Indexed.antt =====
-- The invariant of a table: primary and secondary entries agree.
use identt.Prelude.{ℕ, ◌^◌, ◌<◌, ◌≡◌, Bytes, false, some, arith}
use identt.Keys.{KeyType}
use identt.Engine.{Engine, Codec}
use identt.Messages.{Node}
use identt.Table.{Table}
use identt.Table.Laws.{IsTable, Secondary, Holds}

module _ {Value Db T : Type 0} (e : Engine Value Db) (nodes : Codec Value Node)
    (t : Table Value T) where
  -- The entry of a secondary key for the record with this id.
  abbrev pub node_value : ℕ → Value
  node_value i = nodes.serialize (record { keytype = t.primary_key; id = i })

  -- A secondary entry `v` is the node of a record that has the key.
  pub record Points (d : Db) (key : Bytes) (k : KeyType) (v : Value) : Type 0 where
    pub id : ℕ
    pub target : T
    pub is_node : v ≡ node_value id
    pub positive : 0 < id
    pub in_range : id < 2 ^ 64
    pub held : Holds e t d id target
    pub same_key : t.get_key target k false ≡ key

  -- Ids are those of a uint64 other than 0, which marks the fence that opens the table.
  pub record IsIndexed (d : Db) : Type 0 where
    -- a record is stored under its own id
    pub own_id : (i : ℕ) (r : T) → 0 < i → i < 2 ^ 64 → Holds e t d i r → t.id r ≡ i
    -- each secondary key of a record is there and leads back to it
    pub forward :
        (i : ℕ) (r : T) (k : KeyType)
        → 0 < i
        → i < 2 ^ 64
        → Holds e t d i r
        → Secondary t k
        → e.get d (t.get_key r k false) ≡ some (node_value i)
    -- each secondary entry belongs to a record
    pub backward :
        (r : T) (k : KeyType) (v : Value)
        → Secondary t k
        → e.get d (t.get_key r k false) ≡ some v
        → Points d (t.get_key r k false) k v

  pub node_value_inj : (i j : ℕ) → node_value i ≡ node_value j → i ≡ j
  node_value_inj i j h = ground (
    arith,
    nodes.parse-serialize (record { keytype = t.primary_key; id = i }),
    nodes.parse-serialize (record { keytype = t.primary_key; id = j }),
  )

  module _ (laws : IsTable t) where
    -- Two records with one unique key are one record.
    pub unique_key_inj :
        (d : Db) (i j : ℕ) (r s : T) (k : KeyType)
        → IsIndexed d
        → 0 < i
        → i < 2 ^ 64
        → 0 < j
        → j < 2 ^ 64
        → Holds e t d i r
        → Holds e t d j s
        → Secondary t k
        → t.get_key r k false ≡ t.get_key s k false
        → i ≡ j
    unique_key_inj d i j r s k x pi li pj lj hr hs sec same =
        node_value_inj i j (cc (x.forward i r k pi li hr sec, x.forward j s k pj lj hs sec, same))
