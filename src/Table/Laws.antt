-- ===== src/Table/Laws.antt =====
-- What `StoreTable` relies on in the tables derived from it: the shape of the keys that `GetKey`
-- makes.
use identt.Prelude.{ℕ, ◌^◌, ◌<◌, ◌≡◌, ◌≢◌, Bytes, ◌++◌, true, false, ◌||◌, some}
use identt.Keys.{KeyType, encode_key_type, encode_primary_key}
use identt.Engine.{Engine}
use identt.Table.{Table, mem}

-- The key begins with the two digits of the key type.
abbrev pub HasType : Bytes → KeyType → Type 0
HasType key keytype = (s : Bytes) × (key ≡ encode_key_type keytype ++ s)

-- A secondary key type of the table.
abbrev pub Secondary : {Value T : Type 0} → Table Value T → KeyType → Type 0
Secondary t k = (mem k t.unique_keys || mem k t.index_keys) ≡ true

pub record IsTable {Value T : Type 0} (t : Table Value T) : Type 0 where
  pub id-set_id : (i : ℕ) (r : T) → t.id (t.set_id i r) ≡ i
  pub primary_small : t.primary_key < 256
  pub get_key_primary :
      (r : T) → t.get_key r t.primary_key false ≡ encode_primary_key t.primary_key (t.id r)
  pub secondary_small : (k : KeyType) → Secondary t k → k < 256
  pub secondary_ne_primary : (k : KeyType) → Secondary t k → k ≢ t.primary_key
  pub get_key_type : (r : T) (k : KeyType) → Secondary t k → HasType (t.get_key r k false) k
  -- Setting the id leaves the unique keys.
  pub unique_key_set_id :
      (i : ℕ) (r : T) (k : KeyType)
      → mem k t.unique_keys ≡ true
      → t.get_key (t.set_id i r) k false ≡ t.get_key r k false
  -- An index key ends in the id of its record.
  pub index_key_id :
      (r s : T) (k : KeyType)
      → mem k t.index_keys ≡ true
      → t.id r < 2 ^ 64
      → t.id s < 2 ^ 64
      → t.get_key r k false ≡ t.get_key s k false
      → t.id r ≡ t.id s

module _ {Value Db T : Type 0} (e : Engine Value Db) (t : Table Value T) where
  -- The database holds the record `r` under the id `i`.
  pub record Holds (d : Db) (i : ℕ) (r : T) : Type 0 where
    pub value : Value
    pub stored : e.get d (encode_primary_key t.primary_key i) ≡ some value
    pub parsed : t.codec.parse value ≡ some r
