-- ===== src/Cache.antt =====
-- src/store/StoreCache.cc: the local associations that a server with `lookup_uses_local` keeps in
-- memory. The locks of the class only keep the calls apart.
use identt.Prelude.{ℕ, ◌+◌, Bytes, List, [], ◌∷◌, Option, none, some, ◌==◌, length, if◌then◌else◌}
use identt.Exception.{Result, ok, err}
use identt.Keys.{
  KeyType, strn, keyid_len, node_len, k_localassoc, u_localassoc_medium_address,
  encode_secondary_key, decode_primary_key,
}
use identt.Engine.{Codec}
use identt.Engine.Ordered.{Entries, lookup, insert, erase}
use identt.Messages.{TransItem}
use identt.Tables.Records.{LocalAssoc}

module _ {Value : Type 0} (local_assoc : Codec Value LocalAssoc) where
  -- SetAssoc
  unfoldable pub set_assoc : Bytes → Value → Entries Value → Entries Value
  set_assoc hash assoc cache = insert hash assoc cache

  -- GetAssoc
  unfoldable pub get_assoc : Bytes → Entries Value → Option Value
  get_assoc hash cache = lookup hash cache

  -- DelAssoc
  unfoldable pub del_assoc : Bytes → Entries Value → Entries Value
  del_assoc hash cache = erase hash cache

  unfoldable pub medium_address : Bytes → Bytes → Bytes
  medium_address medium address =
      encode_secondary_key u_localassoc_medium_address (strn medium ∷ strn address ∷ [])

  -- The item of a local association.
  unfoldable pub cache_record : TransItem Value → Option LocalAssoc → Entries Value → Entries Value
  cache_record item none cache = cache
  cache_record item (some record_) cache =
      if item.to_del
      then del_assoc (medium_address record_.medium record_.address) cache
      else set_assoc (medium_address record_.medium record_.address) item.value cache

  unfoldable pub cache_key : TransItem Value → KeyType × ℕ → Entries Value → Entries Value
  cache_key item (keytype, id) cache =
      if keytype == k_localassoc
      then cache_record item (local_assoc.parse item.value) cache
      else cache

  -- The loop of `AddToCache`; a key that cannot be decoded ends it with an exception.
  unfoldable pub add_to_cache :
      List (TransItem Value) → Entries Value → Result (Unit {0}) × Entries Value
  add_to_cache [] cache = (ok tt, cache)
  add_to_cache (item ∷ items) cache =
      if length item.key == keyid_len + node_len
      then elim (decode_primary_key item.key) [
        | err x ↦ (err x, cache)
        | ok kp ↦ add_to_cache items (cache_key item kp cache)
      ]
      else add_to_cache items cache
