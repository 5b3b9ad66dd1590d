-- ===== src/Table/Lookups.antt =====
-- `GetOne` through a unique key, on a consistent table.
use identt.Prelude.{
  ℕ, ◌^◌, ◌<◌, ◌≡◌, ◌≢◌, ap, sym, ◌∙◌, List, [], Bool, true, false, none, some, arith, Option-cases,
  subst, inl, inr, ==_iff,
}
use identt.Exception.{Result, ok}
use identt.Keys.{KeyType}
use identt.Engine.{Engine, Codec}
use identt.Messages.{Node, TransItem}
use identt.Table.{Table, mem, fetch_by_node, get_one, add_record, batch}
use identt.Table.Laws.{IsTable, Secondary, Holds}
use identt.Table.Reads.{fetch-Holds}
use identt.Table.Adds.{Added-of_add_record, no_clash_node}
use identt.Table.Indexed.{IsIndexed, node_value}
use identt.Table.Preserved.{secondary_node, add_record-IsIndexed}

module _ {Value Db T : Type 0} (e : Engine Value Db) (nodes : Codec Value Node) (t : Table Value T)
    (laws : IsTable t) where
  get_one_secondary :
      (d : Db) (r : T) (k : KeyType)
      → Secondary t k
      → get_one e nodes t d r k ≡ fetch_by_node e nodes t d r (e.get d (t.get_key r k false))
  unfolding get_one
  get_one_secondary d r k sec =
      ground (arith, ==_iff k t.primary_key, laws.secondary_ne_primary k sec)

  fetch_node :
      (d : Db) (r s : T) (i : ℕ)
      → Holds e t d i s
      → fetch_by_node e nodes t d r (some (node_value e nodes t i)) ≡ ok (true, s)
  unfolding fetch_by_node
  fetch_node d r s i h =
      rw (nodes.parse-serialize, fetch_by_node)
        (fetch-Holds e nodes t laws d (t.set_id i r) s
          (subst (λ n. Holds e t d n s) (sym (laws.id-set_id i r)) h))

  -- On a consistent table, `GetOne` by a secondary key that a stored record has finds that record,
  -- whatever else the argument holds.
  pub get_one_finds :
      (d : Db) (q s : T) (k : KeyType) (i : ℕ)
      → IsIndexed e nodes t d
      → Secondary t k
      → 0 < i
      → i < 2 ^ 64
      → Holds e t d i s
      → t.get_key q k false ≡ t.get_key s k false
      → get_one e nodes t d q k ≡ ok (true, s)
  get_one_finds d q s k i x sec p l h same =
      get_one_secondary d q k sec
      ∙ ap (fetch_by_node e nodes t d q) (ap (e.get d) same ∙ x.forward i s k p l h sec)
      ∙ fetch_node d q s i h

  nothing_found :
      (d : Db) (q s : T) (k : KeyType)
      → Secondary t k
      → e.get d (t.get_key q k false) ≡ none
      → get_one e nodes t d q k ≢ ok (true, s)
  unfolding fetch_by_node
  nothing_found d q s k sec missing found =
      cc (get_one_secondary d q k sec, ap (fetch_by_node e nodes t d q) missing, found)

  ok_inj : {a b : T} → ◌≡◌ {A = Result (Bool × T)} (ok (true, a)) (ok (true, b)) → a ≡ b
  ok_inj h = cc

  -- Conversely, if `GetOne` by a secondary key reports a record on a consistent table, the
  -- database holds it under its id and it has the key that was asked for.
  pub get_one_sound :
      (d : Db) (q s : T) (k : KeyType)
      → IsIndexed e nodes t d
      → Secondary t k
      → get_one e nodes t d q k ≡ ok (true, s)
      → Holds e t d (t.id s) s × (t.get_key s k false ≡ t.get_key q k false)
  get_one_sound d q s k x sec found = elim (Option-cases (e.get d (t.get_key q k false))) [
    | inl missing ↦ absurd (nothing_found d q s k sec missing found)
    | inr (v, there) ↦
        let p = x.backward q k v sec there in
        let same : p.target ≡ s = ok_inj (
          sym
            (get_one_finds d q p.target k p.id x sec p.positive p.in_range p.held (sym p.same_key))
          ∙ found) in
        let own = x.own_id p.id p.target p.positive p.in_range p.held in
        (
          subst (λ r. Holds e t d (t.id r) r) same
              (subst (λ n. Holds e t d n p.target) (sym own) p.held),
          subst (λ r. t.get_key r k false ≡ t.get_key q k false) same p.same_key,
        )
  ]

  -- A record whose unique key belongs to a stored record with another id is never added.
  pub add_record_clash :
      (d : Db) (r s : T) (k : KeyType) (i : ℕ) (upsert : Bool) (trans : List (TransItem Value))
      → IsIndexed e nodes t d
      → mem k t.unique_keys ≡ true
      → 0 < i
      → i < 2 ^ 64
      → Holds e t d i s
      → i ≢ t.id r
      → t.get_key r k false ≡ t.get_key s k false
      → add_record e nodes t d r [] upsert ≢ ok (true, trans)
  add_record_clash d r s k i upsert trans x m p l h ne same added =
      let sec : Secondary t k = ground arith in
      let a = Added-of_add_record e nodes t laws d r upsert trans added in
      ne (
        sym (
          no_clash_node e nodes t laws d r t.unique_keys k
            (record { keytype = t.primary_key; id = i }) a.no_clash m
            (secondary_node e nodes t d r k i sec (ap (e.get d) same ∙ x.forward i s k p l h sec))))

  -- What `AddRecord` added and the engine wrote, `GetOne` returns for every query with one of the
  -- record's secondary keys.
  pub get_one-add_record :
      (d d' : Db) (r q : T) (k : KeyType) (upsert : Bool) (trans : List (TransItem Value))
      → IsIndexed e nodes t d
      → t.id r < 2 ^ 64
      → Secondary t k
      → t.get_key q k false ≡ t.get_key r k false
      → add_record e nodes t d r [] upsert ≡ ok (true, trans)
      → e.write d (batch trans) ≡ some d'
      → get_one e nodes t d' q k ≡ ok (true, r)
  get_one-add_record d d' r q k upsert trans x l sec same added written =
      let (x', h) = add_record-IsIndexed e nodes t laws d d' r upsert trans x l added written in
      let a = Added-of_add_record e nodes t laws d r upsert trans added in
      get_one_finds d' q r k (t.id r) x' sec a.positive l h same
