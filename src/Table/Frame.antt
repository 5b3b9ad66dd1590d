-- ===== src/Table/Frame.antt =====
-- Proofs on the tables of include/store/StoreTable.hpp: writes of keys of another type.
use identt.Prelude.{
  ℕ, ◌≡◌, ◌⊎◌, inl, inr, refl, ap, sym, ◌∙◌, Bytes, List, [], ◌∷◌, Bool, true, false, ◌||◌, ◌&&◌,
  not, Option, none, some, arith, ◌==◌, Bool-cases, if◌then◌else◌,
}
use identt.Keys.{KeyType, encode_primary_key, uint_only}
use identt.Engine.{Engine, Codec}
use identt.Messages.{Node, TransItem}
use identt.Table.{
  Table, mem, read_record, fetch, get_one, get_secondary_value, unique_clash, add_found, add_record,
}
use identt.Table.Laws.{IsTable, Secondary, Holds, HasType}
use identt.Table.Indexed.{IsIndexed, Points}
use identt.Table.Reads.{get_one_primary}

module _ {Value Db T : Type 0} (e : Engine Value Db) (nodes : Codec Value Node) (t : Table Value T)
    (laws : IsTable t) where
  -- The key types of the table.
  abbrev pub OfTable : KeyType → Type 0
  OfTable k = (k ≡ t.primary_key) ⊎ Secondary t k

  -- Two databases hold the same under the keys of the table's types.
  abbrev pub SameTable : Db → Db → Type 0
  SameTable d f =
      (key : Bytes) (k : KeyType) → OfTable k → HasType key k → e.get f key ≡ e.get d key

  primary_HasType : (i : ℕ) → HasType (encode_primary_key t.primary_key i) t.primary_key
  unfolding encode_primary_key
  primary_HasType i = (uint_only i, refl)

  -- One turn of the loop of `unique_clash`.
  abbrev clash_of : T → Option Node → Bool → Bool
  clash_of r o later = elim o [
    | none ↦ later
    | some node ↦ if t.id r == node.id then later else true
  ]

  module _ (d f : Db) (same : SameTable d f) where
    same_primary :
        (i : ℕ)
        → e.get f (encode_primary_key t.primary_key i)
          ≡ e.get d (encode_primary_key t.primary_key i)
    same_primary i =
        same (encode_primary_key t.primary_key i) t.primary_key (inl refl) (primary_HasType i)

    same_secondary :
        (r : T) (k : KeyType)
        → Secondary t k
        → e.get f (t.get_key r k false) ≡ e.get d (t.get_key r k false)
    same_secondary r k sec = same (t.get_key r k false) k (inr sec) (laws.get_key_type r k sec)

    -- A record is held by both or by none.
    pub same-Holds : (i : ℕ) (r : T) → Holds e t f i r → Holds e t d i r
    same-Holds i r h = record {
      value = h.value;
      stored = sym (same_primary i) ∙ h.stored;
      parsed = h.parsed;
    }

    back-Holds : (i : ℕ) (r : T) → Holds e t d i r → Holds e t f i r
    back-Holds i r h = record {
      value = h.value;
      stored = same_primary i ∙ h.stored;
      parsed = h.parsed;
    }

    back-Points :
        (key : Bytes) (k : KeyType) (v : Value)
        → Points e nodes t d key k v
        → Points e nodes t f key k v
    back-Points key k v p = record {
      id = p.id;
      target = p.target;
      is_node = p.is_node;
      positive = p.positive;
      in_range = p.in_range;
      held = back-Holds p.id p.target p.held;
      same_key = p.same_key;
    }

    -- The table is consistent in both or in none.
    pub same-IsIndexed : IsIndexed e nodes t d → IsIndexed e nodes t f
    same-IsIndexed x = record {
      own_id = λ i r p l h. x.own_id i r p l (same-Holds i r h);
      forward =
          λ i r k p l h sec. same_secondary r k sec ∙ x.forward i r k p l (same-Holds i r h) sec;
      backward = λ r k v sec g.
          back-Points (t.get_key r k false) k v
            (x.backward r k v sec (sym (same_secondary r k sec) ∙ g));
    }

    same_fetch : (r : T) → fetch e nodes t f r ≡ fetch e nodes t d r
    unfolding fetch
    same_fetch r = ap (read_record e nodes t r) (
        ap (e.get f) (laws.get_key_primary r)
        ∙ same_primary (t.id r)
        ∙ ap (e.get d) (sym (laws.get_key_primary r)))

    same_secondary_value :
        (r : T) (k : KeyType)
        → get_secondary_value e nodes t f r k ≡ get_secondary_value e nodes t d r k
    unfolding get_secondary_value
    same_secondary_value r k = elim (Bool-cases (mem k t.unique_keys || mem k t.index_keys)) [
      | inl sec ↦ rw (same_secondary r k sec) refl
      | inr other ↦
          let out : (not (mem k t.unique_keys) && not (mem k t.index_keys)) ≡ true = ground arith in
          rw out refl
    ]

    same_clash :
        (r : T) (kts : List KeyType)
        → unique_clash e nodes t f r kts ≡ unique_clash e nodes t d r kts
    unfolding unique_clash
    same_clash r [] = refl
    same_clash r (k ∷ kts) =
        ap (λ o. clash_of r o (unique_clash e nodes t f r kts)) (same_secondary_value r k)
        ∙ ap (clash_of r (get_secondary_value e nodes t d r k)) (same_clash r kts)

    -- `AddRecord` does the same on both.
    pub same_add_record :
        (r : T) (trans : List (TransItem Value)) (upsert : Bool)
        → add_record e nodes t f r trans upsert ≡ add_record e nodes t d r trans upsert
    unfolding add_record add_found
    same_add_record r trans upsert =
        let old = t.set_id (t.id r) t.blank in
        let found : get_one e nodes t f old t.primary_key ≡ get_one e nodes t d old t.primary_key =
          get_one_primary e nodes t laws f old
          ∙ same_fetch old
          ∙ sym (get_one_primary e nodes t laws d old) in
        rw (found, same_clash r t.unique_keys) refl
