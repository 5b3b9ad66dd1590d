-- ===== src/Table/Adds.antt =====
-- What `AddRecord` has checked when it reports success, and what its written batch holds.
use identt.Prelude.{
  ℕ, ◌<◌, ◌≡◌, sym, ◌∙◌, Bytes, List, [], ◌∷◌, Bool, true, false, none, some, ◌==◌, if◌then◌else◌,
  arith, Bool-cases, subst, inl, inr, ==_iff,
}
use identt.Exception.{ok, >>=-eq-ok}
use identt.Keys.{KeyType, encode_primary_key}
use identt.Engine.{Engine, Codec}
use identt.Engine.Ordered.{lookup-apply}
use identt.Messages.{Node, TransItem}
use identt.Table.{
  Table, mem, get_one, get_secondary_value, unique_clash, dump_record, add_found, add_record, batch,
}
use identt.Table.Laws.{IsTable, Holds}
use identt.Table.Reads.{Holds-of_fetch, fetch_missing, get_one_primary}
use identt.Table.Effects.{after}

module _ {Value Db T : Type 0} (e : Engine Value Db) (nodes : Codec Value Node)
    (t : Table Value T) where
  -- Whether a record was there before, and which.
  abbrev pub Was : Db → ℕ → Bool → T → Type 0
  Was d i true old = Holds e t d i old
  Was d i false old = e.get d (encode_primary_key t.primary_key i) ≡ none

  pub record Added (d : Db) (r : T) (trans : List (TransItem Value)) : Type 0 where
    pub exists : Bool
    pub old : T
    pub was : Was d (t.id r) exists old
    pub positive : 0 < t.id r
    pub no_clash : unique_clash e nodes t d r t.unique_keys ≡ false
    pub is_dump : trans ≡ dump_record e nodes t exists old r []

  -- A batch that was written leaves under each key what its operations say.
  pub get-write :
      (d d' : Db) (items : List (TransItem Value)) (j : Bytes)
      → e.write d (batch items) ≡ some d'
      → e.get d' j ≡ after items j (e.get d j)
  get-write d d' items j w =
      rw (e.get-view d' j, e.get-view d j, e.write-view d d' (batch items) w)
        (lookup-apply (batch items) j (e.view d))

  module _ (laws : IsTable t) where
    Was-of_get_one :
        (d : Db) (i : ℕ) (exists : Bool) (old : T)
        → get_one e nodes t d (t.set_id i t.blank) t.primary_key ≡ ok (exists, old)
        → Was d i exists old
    Was-of_get_one d i true old h =
        subst (λ n. Holds e t d n old) (laws.id-set_id i t.blank)
          (Holds-of_fetch e nodes t laws d _ old
            (sym (get_one_primary e nodes t laws d (t.set_id i t.blank)) ∙ h))
    Was-of_get_one d i false old h =
        subst (λ n. e.get d (encode_primary_key t.primary_key n) ≡ none) (laws.id-set_id i t.blank)
          (fetch_missing e nodes t laws d _ old
            (sym (get_one_primary e nodes t laws d (t.set_id i t.blank)) ∙ h))

    Added-of_checks :
        (d : Db) (r : T) (upsert exists : Bool) (old : T) (trans : List (TransItem Value))
        → 0 < t.id r
        → Was d (t.id r) exists old
        → add_found e nodes t d r [] upsert (exists, old) ≡ ok (true, trans)
        → Added d r trans
    unfolding add_found
    Added-of_checks d r upsert exists old trans p w h = record {
      exists = exists;
      old = old;
      was = w;
      positive = p;
      no_clash = ground arith;
      is_dump = ground arith;
    }

    pub Added-of_add_record :
        (d : Db) (r : T) (upsert : Bool) (trans : List (TransItem Value))
        → add_record e nodes t d r [] upsert ≡ ok (true, trans)
        → Added d r trans
    unfolding add_record
    Added-of_add_record d r upsert trans h = elim (Bool-cases (t.notfound r)) [
      | inl p ↦ absurd (ground arith)
      | inr p ↦ elim (Bool-cases (t.id r == 0)) [
        | inl z ↦ absurd (ground arith)
        | inr z ↦
            let (found, g, rest) =
              >>=-eq-ok (get_one e nodes t d (t.set_id (t.id r) t.blank) t.primary_key)
                (add_found e nodes t d r [] upsert) (rw (p, z) at h) in
            Added-of_checks d r upsert found.0 found.1 trans (ground arith)
              (Was-of_get_one d (t.id r) found.0 found.1 g) rest
      ]
    ]

    abbrev clash_step : Db → T → KeyType → Bool → Bool
    clash_step d r k later = elim (get_secondary_value e nodes t d r k) [
      | none ↦ later
      | some node ↦ if t.id r == node.id then later else true
    ]

    no_clash_later :
        (d : Db) (r : T) (k : KeyType) (later : Bool)
        → clash_step d r k later ≡ false
        → later ≡ false
    no_clash_later d r k later c = ground arith

    no_clash_here :
        (d : Db) (r : T) (k : KeyType) (later : Bool) (node : Node)
        → clash_step d r k later ≡ false
        → get_secondary_value e nodes t d r k ≡ some node
        → t.id r ≡ node.id
    no_clash_here d r k later node c g = ground arith

    -- With no clash, the node that a unique key of `r` holds is that of `r`.
    pub no_clash_node :
        (d : Db) (r : T) (kts : List KeyType) (k : KeyType) (node : Node)
        → unique_clash e nodes t d r kts ≡ false
        → mem k kts ≡ true
        → get_secondary_value e nodes t d r k ≡ some node
        → t.id r ≡ node.id
    unfolding unique_clash mem
    no_clash_node d r [] k node c m g = cc
    no_clash_node d r (j ∷ kts) k node c m g = elim (Bool-cases (k == j)) [
      | inl same ↦
          let eq : k ≡ j = (==_iff k j).0 same in
          no_clash_here d r j (unique_clash e nodes t d r kts) node c
            (subst (λ i. get_secondary_value e nodes t d r i ≡ some node) eq g)
      | inr other ↦
          no_clash_node d r kts k node (no_clash_later d r j (unique_clash e nodes t d r kts) c)
            (ground arith) g
    ]
