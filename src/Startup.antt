-- ===== src/Startup.antt =====
-- The start of a server: src/store/StoreLevel.cc opens the database, puts the fixed records and
-- finds the counters; src/main/WorkServer.cc sets them and fills the cache. `DB::Open` and the
-- creation of the signing key are arguments: the opened database, if there is one, and whether the
-- key can be made from its seed.
pub mod Fences
pub mod Last
pub mod Counters
pub mod Restart
pub mod LogKept
pub mod Restored
pub mod Begin
pub mod NewIds
use Prim.Native.String.{String}
use identt.Prelude.{
  ℕ, zero, suc, ◌-◌, ◌≡◌, ◌^◌, Bytes, List, [], ◌∷◌, Bool, true, false, not, Option, none, some,
  ltb, ◌==◌, length, starts_with, if◌then◌else◌,
}
use identt.Exception.{Result, ok, err, initial, config, bad_data, ◌>>=◌}
use identt.Keys.{
  KeyType, k_nonode, k_lognode, k_maxnode, encode_key_type, encode_primary_key, decode_primary_key,
}
use identt.Engine.Ordered.{Entries}
use identt.Server.{World, Server, Action}
use identt.Trans.{is_empty}
use identt.Table.Scans.{scan_table}
use identt.Tables.Records.{LocalAssoc}
use identt.Tables.Unique.{local_assoc_table}
use identt.Cache.{set_assoc, medium_address}
use identt.Services.Numbers.{stoul}

-- The last entry, if there is one.
unfoldable pub last : {A : Type 0} → List A → Option A
last [] = none
last (x ∷ xs) = elim (last xs) [ none ↦ some x | some y ↦ some y ]

module _ {Value Db : Type 0} (w : World Value Db) where
  -- The status of a `Put`, and the database after it.
  unfoldable pub put_fence : Db → Option Db → Bool × Db
  put_fence d none = (false, d)
  put_fence d (some e) = (true, e)

  -- One round of the loop that adds the top fences: `Get`, and `Put` if that was not ok.
  unfoldable pub fence : KeyType → Db → Bool × Db
  unfolding put_fence
  fence keytype d = elim (w.engine.get d (encode_primary_key keytype 0)) [
    | some value ↦ (true, d)
    | none ↦ put_fence d (w.engine.put d (encode_primary_key keytype 0) w.engine.empty)
  ]

  -- The loop: each round overwrites `status`.
  unfoldable pub fences : ℕ → KeyType → Bool × Db → Bool × Db
  fences zero keytype s = s
  fences (suc rounds) keytype s = fences rounds (suc keytype) (fence keytype s.1)

  -- The key at which the iterator stands after `Prev`.
  unfoldable pub prev_key : String → Option (Bytes × Value) → Result Bytes
  prev_key missing none = err (initial missing)
  prev_key missing (some e) = ok e.0

  -- `Seek` to the first key of a type, `Prev`, and the id of that key, if its type is `match`.
  -- The texts are those of the two exceptions.
  unfoldable pub last_id : String → String → Db → KeyType → KeyType → ℕ → Result ℕ
  unfolding prev_key last
  last_id no_seek no_prev d keytype match last_key =
      if is_empty (w.engine.seek d (encode_key_type keytype)) then err (initial no_seek) else do
        key ← prev_key no_prev (last (w.engine.before d (encode_key_type keytype)))
        if not (starts_with key (encode_key_type match)) then ok last_key else do
          decoded ← decode_primary_key key
          ok (if ltb last_key decoded.1 then decoded.1 else last_key)

  -- The loop over the types, from K_LOGNODE down to the one after K_NONODE.
  unfoldable pub last_ids : Db → ℕ → KeyType → ℕ → Result ℕ
  unfolding last_id
  last_ids d zero keytype last_pkey = ok last_pkey
  last_ids d (suc rounds) keytype last_pkey = do
    id ←
        last_id "Some fixed records missing" "Some zero records missing" d keytype (keytype - 1)
          last_pkey
    last_ids d rounds (keytype - 1) id

  -- What follows the loop of the fences.
  unfoldable pub read_counters : Bool × Db → ℕ → ℕ → Result (Db × ℕ × ℕ)
  unfolding last_ids
  read_counters (false, d) last_pkey last_lkey = err (initial "Cannot Write DB: ")
  read_counters (true, d) last_pkey last_lkey = do
    lkey ←
        last_id "Fixed record K_MAXNODE missing" "Zero record before K_MAXNODE missing" d k_maxnode
          k_lognode last_lkey
    pkey ← last_ids d 13 k_lognode last_pkey
    ok (d, pkey, lkey)

  -- StoreLevel::Initialize: the database, `last_pkey` and `last_lkey`.
  unfoldable pub initialize : Option Db → ℕ → ℕ → Result (Db × ℕ × ℕ)
  unfolding read_counters fences
  initialize none last_pkey last_lkey = err (initial "Cannot Open DB: ")
  initialize (some d) last_pkey last_lkey =
      read_counters (fences 15 k_nonode (true, d)) last_pkey last_lkey

  -- The function that `init` gives to `ScanTable`, on the records in turn.
  unfoldable pub cache_all : List LocalAssoc → Entries Value → Entries Value
  cache_all [] cache = cache
  cache_all (r ∷ rs) cache = cache_all rs (
      set_assoc w.local_assoc (medium_address w.local_assoc r.medium r.address)
        (w.local_assoc.serialize r) cache)

  -- The records that the scan has seen are in the cache also when it throws.
  unfoldable pub fill_cache : Action (Server Value Db) (Unit {0})
  unfolding cache_all
  fill_cache s =
      let seen =
        scan_table w.engine w.nodes (local_assoc_table w.local_assoc) s.db 0 (2 ^ 64 - 1) in
      (seen.1, record s { dbcache = cache_all seen.0 s.dbcache })

  -- `(last > 0) ? last : 1`
  unfoldable pub counter_of : ℕ → ℕ
  counter_of last_key = if ltb 0 last_key then last_key else 1

  unfoldable pub set_counters : Result (Db × ℕ × ℕ) → Action (Server Value Db) (Unit {0})
  unfolding counter_of
  set_counters (err x) s = (err x, s)
  set_counters (ok found) s = (
    ok tt,
    record s { db = found.0; maincounter = counter_of found.1; logcounter = counter_of found.2 },
  )

  -- The signing key is made, and then the cache filled if lookups use it.
  unfoldable pub after_counters :
      Result (Unit {0}) → Result (Unit {0}) × Server Value Db → Result (Unit {0}) × Server Value Db
  unfolding fill_cache
  after_counters key (err x, s) = (err x, s)
  after_counters (err x) (ok u, s) = (err x, s)
  after_counters (ok v) (ok u, s) = if s.lookup_uses_local then fill_cache s else (ok tt, s)

  -- WorkServer::init, with the parameters `datadir`, `cachesize` and `hostseed_ed25519`.
  unfoldable pub init :
      (Bytes → ℕ → Option Db)
      → (Bytes → Result (Unit {0}))
      → List Bytes
      → Action (Server Value Db) (Unit {0})
  unfolding after_counters set_counters initialize
  init open_db create_key (datadir ∷ cachesize ∷ hostseed ∷ []) s = elim (stoul cachesize) [
    | err x ↦ (err x, s)
    | ok size ↦
        if is_empty datadir
        then (err (initial "datadir is needed"), s)
        else after_counters (create_key hostseed)
            (set_counters (initialize (open_db datadir size) 0 0) s)
  ]
  init open_db create_key params s =
      (err (config "WorkServer: params and required size mismatch"), s)
