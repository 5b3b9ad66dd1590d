-- ===== src/Services/Lookup.antt =====
-- src/store/LookupService.cc: which user an address belongs to, from the global associations or
-- from the cache of the local ones.
use identt.Prelude.{ℕ, List, [], ◌∷◌, Bool, Option, none, some, if◌then◌else◌}
use identt.Exception.{Result, ok, err}
use identt.Keys.{i_globalassoc_medium_address}
use identt.Server.{World, Server}
use identt.Trans.{is_empty}
use identt.Cache.{get_assoc, medium_address}
use identt.Table.Scans.{get_many, map_put}
use identt.Tables.Records.{GlobalAssoc, blank_global_assoc, LocalAssoc}
use identt.Tables.Indexes.{global_assoc_table}
use identt.Services.Requests.{LookupQuery, LookupResult, blank_lookup_result}
use identt.Services.ThreePid.{values}

unfoldable pub global_result : GlobalAssoc → LookupResult
global_result a = record {
  medium = a.medium;
  address = a.address;
  mxid = a.mxid;
  ts = a.ts;
  not_before = a.not_before;
  not_after = a.not_after;
}

unfoldable pub local_result : LocalAssoc → LookupResult
local_result a = record {
  medium = a.medium;
  address = a.address;
  mxid = a.mxid;
  ts = a.ts;
  not_before = a.not_before;
  not_after = a.not_after;
}

-- The first of what was found, or an empty result.
unfoldable pub first_global : List GlobalAssoc → LookupResult
first_global [] = blank_lookup_result
first_global (a ∷ more) = global_result a

-- The results that have a user.
unfoldable pub with_user : List LookupResult → List LookupResult
with_user [] = []
with_user (r ∷ rs) = let rest = with_user rs in if is_empty r.mxid then rest else r ∷ rest

unfoldable pub map_results : {A : Type 0} → (A → LookupResult) → List A → List LookupResult
map_results f [] = []
map_results f (a ∷ more) = f a ∷ map_results f more

module _ {Value Db : Type 0} (w : World Value Db) where
  -- `GetMany` of the associations of an address, at most one, into a map.
  unfoldable pub global_many :
      Server Value Db
      → LookupQuery
      → List (ℕ × GlobalAssoc)
      → Result (Bool × List (ℕ × GlobalAssoc))
  global_many s query records =
      get_many w.engine w.nodes (global_assoc_table w.global_assoc) s.db
        (record blank_global_assoc { medium = query.medium; address = query.address }) records
        i_globalassoc_medium_address 0 1

  unfoldable pub global_found : Result (Bool × List (ℕ × GlobalAssoc)) → Result LookupResult
  global_found (err x) = err x
  global_found (ok (found, records)) =
      ok (if found then first_global (values records) else blank_lookup_result)

  -- LookupGlobal
  unfoldable pub lookup_global : LookupQuery → Server Value Db → Result LookupResult
  lookup_global query s = global_found (global_many s query [])

  -- What the cache holds for the query.
  unfoldable pub cached : LookupQuery → Server Value Db → Option LocalAssoc
  cached query s =
      elim (get_assoc w.local_assoc (medium_address w.local_assoc query.medium query.address)
        s.dbcache) [ none ↦ none | some data_ ↦ w.local_assoc.parse data_ ]

  -- LookupLocal
  unfoldable pub lookup_local : LookupQuery → Server Value Db → LookupResult
  lookup_local query s = elim (cached query s) [
    | none ↦ blank_lookup_result
    | some assoc ↦ local_result assoc
  ]

  -- LookupAction
  unfoldable pub lookup_action : LookupQuery → Server Value Db → Result LookupResult
  lookup_action query s =
      if s.lookup_uses_local then ok (lookup_local query s) else lookup_global query s

  -- The loop of `BulkLookupGlobal`, which collects in one map.
  unfoldable pub bulk_global :
      List LookupQuery → Server Value Db → List (ℕ × GlobalAssoc) → Result (List (ℕ × GlobalAssoc))
  bulk_global [] s records = ok records
  bulk_global (q ∷ qs) s records = elim (global_many s q records) [
    | err x ↦ err x
    | ok many ↦ bulk_global qs s many.1
  ]

  -- The loop of `BulkLookupLocal`.
  unfoldable pub bulk_local :
      List LookupQuery → Server Value Db → List (ℕ × LocalAssoc) → List (ℕ × LocalAssoc)
  bulk_local [] s records = records
  bulk_local (q ∷ qs) s records = elim (cached q s) [
    | none ↦ bulk_local qs s records
    | some assoc ↦ bulk_local qs s (map_put assoc.id assoc records)
  ]

  unfoldable pub bulk_answer : Result (List (ℕ × GlobalAssoc)) → Result (List LookupResult)
  bulk_answer (err x) = err x
  bulk_answer (ok records) = ok (with_user (map_results global_result (values records)))

  -- BulkLookupAction: both loops run over the whole list, from 0 to its size less one.
  unfoldable pub bulk_lookup : List LookupQuery → Server Value Db → Result (List LookupResult)
  bulk_lookup queries s =
      if s.lookup_uses_local
      then ok (with_user (map_results local_result (values (bulk_local queries s []))))
      else bulk_answer (bulk_global queries s [])
