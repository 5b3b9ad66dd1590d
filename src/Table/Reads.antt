-- ===== src/Table/Reads.antt =====
-- What `GetOne` returns, by the records that the database holds.
use identt.Prelude.{◌≡◌, refl, ap, sym, ◌∙◌, true, false, Option, none, some, arith, ==_refl}
use identt.Exception.{ok}
use identt.Keys.{encode_primary_key}
use identt.Engine.{Engine, Codec}
use identt.Messages.{Node}
use identt.Table.{Table, read_record, fetch, get_one}
use identt.Table.Laws.{IsTable, Holds}

module _ {Value Db T : Type 0} (e : Engine Value Db) (nodes : Codec Value Node) (t : Table Value T)
    (laws : IsTable t) where
  -- A record that the database holds is what `fetch` returns for its id.
  pub fetch-Holds : (d : Db) (r s : T) → Holds e t d (t.id r) s → fetch e nodes t d r ≡ ok (true, s)
  unfolding fetch read_record
  fetch-Holds d r s h = rw (laws.get_key_primary r, h.stored) (rw (h.parsed, read_record))

  read_record_found :
      (r s : T) (o : Option Value)
      → read_record e nodes t r o ≡ ok (true, s)
      → (v : Value) × (o ≡ some v) × (t.codec.parse v ≡ some s)
  unfolding read_record
  read_record_found r s none h = cc
  read_record_found r s (some v) h = (v, refl, ground arith)

  -- What `fetch` finds is held under the id.
  pub Holds-of_fetch :
      (d : Db) (r s : T) → fetch e nodes t d r ≡ ok (true, s) → Holds e t d (t.id r) s
  unfolding fetch
  Holds-of_fetch d r s h =
      let (v, p, q) = read_record_found r s (e.get d (t.get_key r t.primary_key false)) h in
      record { value = v; stored = ap (e.get d) (sym (laws.get_key_primary r)) ∙ p; parsed = q }

  -- If `fetch` finds nothing, the id has no entry.
  read_record_missing :
      (r s : T) (o : Option Value) → read_record e nodes t r o ≡ ok (false, s) → o ≡ none
  unfolding read_record
  read_record_missing r s none h = refl
  read_record_missing r s (some v) h = ground arith

  pub fetch_missing :
      (d : Db) (r s : T)
      → fetch e nodes t d r ≡ ok (false, s)
      → e.get d (encode_primary_key t.primary_key (t.id r)) ≡ none
  unfolding fetch
  fetch_missing d r s h =
      rw (← laws.get_key_primary r)
        (read_record_missing r s (e.get d (t.get_key r t.primary_key false)) h)

  -- By the primary key `GetOne` fetches the record of the id.
  pub get_one_primary : (d : Db) (r : T) → get_one e nodes t d r t.primary_key ≡ fetch e nodes t d r
  unfolding get_one
  get_one_primary d r = rw (==_refl t.primary_key)
