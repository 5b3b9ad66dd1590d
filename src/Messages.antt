-- ===== src/Messages.antt =====
-- The protobuf messages of proto/Store.proto that the model keeps in a database or sends between
-- servers. A string is a byte string, a uint64 or uint32 a number, an int32 its bit pattern. Each
-- `blank` is the message that the generated default constructor makes.
use identt.Prelude.{ℕ, Bytes, [], List, Bool, false}
use identt.Keys.{KeyType}

pub record Node : Type 0 where
  pub keytype : KeyType
  pub id : ℕ

pub record TransItem (Value : Type 0) : Type 0 where
  pub key : Bytes
  pub value : Value
  pub to_del : Bool

pub record Transaction (Value : Type 0) : Type 0 where
  pub id : ℕ
  pub item : List (TransItem Value)
  pub ts : ℕ
  pub notfound : Bool

abbrev pub blank_transaction : {Value : Type 0} → Transaction Value
blank_transaction = record { id = 0; item = []; ts = 0; notfound = false }

pub record TransList (Value : Type 0) : Type 0 where
  pub lastid : ℕ
  pub limit : ℕ
  pub trans : List (Transaction Value)
  pub currid : ℕ
  pub ts : ℕ
  pub endpoint : Bytes
