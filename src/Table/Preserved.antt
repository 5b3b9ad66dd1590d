-- ===== src/Table/Preserved.antt =====
-- Proofs on AddRecord of include/store/StoreTable.hpp and the invariant of a table.
use identt.Prelude.{
  ℕ, ◌^◌, ◌<◌, ◌≡◌, ◌≢◌, ap, sym, ◌∙◌, Bytes, List, [], Bool, true, false, none, some, ◌==◌, beq,
  beq_iff, if◌then◌else◌, arith, Bool-cases, subst, ◌↔◌, inl, inr, beq_refl,
}
use native.Mathlib.Decide.{ℕ_discrete}
use identt.Exception.{ok}
use identt.Keys.{KeyType, encode_primary_key}
use identt.Engine.{Engine, Codec}
use identt.Messages.{Node, TransItem}
use identt.Table.{Table, mem, get_secondary_value, unique_clash, dump_record, add_record, batch}
use identt.Table.Laws.{IsTable, Secondary, Holds}
use identt.Table.Effects.{effect, after, after-dump_record_primary, after-dump_record_secondary}
use identt.Table.Adds.{Was, Added, Added-of_add_record, get-write, no_clash_node}
use identt.Table.Indexed.{IsIndexed, Points, node_value, node_value_inj}

module _ {Value Db T : Type 0} (e : Engine Value Db) (nodes : Codec Value Node)
    (t : Table Value T) where
  Was-true :
      (d : Db) (i : ℕ) (b : Bool) (old : T) → b ≡ true → Was e nodes t d i b old → Holds e t d i old
  Was-true d i true old p w = w
  Was-true d i false old p w = cc

  Was-false :
      (d : Db) (i : ℕ) (b : Bool) (old : T)
      → b ≡ false
      → Was e nodes t d i b old
      → e.get d (encode_primary_key t.primary_key i) ≡ none
  Was-false d i true old p w = cc
  Was-false d i false old p w = w

  Holds-unique : (d : Db) (i : ℕ) (a b : T) → Holds e t d i a → Holds e t d i b → a ≡ b
  Holds-unique d i a b p q = cc (p.stored, p.parsed, q.stored, q.parsed)

  -- What `GetSecondaryValue` finds under a key that holds the node of `i`.
  pub secondary_node :
      (d : Db) (r : T) (k : KeyType) (i : ℕ)
      → Secondary t k
      → e.get d (t.get_key r k false) ≡ some (node_value e nodes t i)
      → get_secondary_value e nodes t d r k ≡ some (record { keytype = t.primary_key; id = i })
  unfolding get_secondary_value
  secondary_node d r k i sec g =
      ground (arith, nodes.parse-serialize (record { keytype = t.primary_key; id = i }))

  wrote_dump :
      (d d' : Db) (r : T) (trans : List (TransItem Value)) (a : Added e nodes t d r trans)
      → e.write d (batch trans) ≡ some d'
      → (j : Bytes) → e.get d' j ≡ after (dump_record e nodes t a.exists a.old r []) j (e.get d j)
  wrote_dump d d' r trans a written j =
      get-write e nodes t d d' trans j written ∙ ap (λ items. after items j (e.get d j)) a.is_dump

-- The facts about one call of `AddRecord`, shared by the parts of the proof.
module _ {Value Db T : Type 0} (e : Engine Value Db) (nodes : Codec Value Node) (t : Table Value T)
    (laws : IsTable t) (d d' : Db) (exists : Bool) (old r : T) (x : IsIndexed e nodes t d)
    (was : Was e nodes t d (t.id r) exists old) (positive : 0 < t.id r) (in_range : t.id r < 2 ^ 64)
    (no_clash : unique_clash e nodes t d r t.unique_keys ≡ false)
    (wrote : (j : Bytes)
      → e.get d' j ≡ after (dump_record e nodes t exists old r []) j (e.get d j)) where
  primary_after :
      (i : ℕ)
      → i < 2 ^ 64
      → e.get d' (encode_primary_key t.primary_key i) ≡ (
          if t.id r == i
          then some (t.codec.serialize r)
          else e.get d (encode_primary_key t.primary_key i))
  primary_after i h =
      wrote (encode_primary_key t.primary_key i)
      ∙ after-dump_record_primary e nodes t laws exists old r i _ h in_range

  secondary_after :
      (s : T) (k : KeyType)
      → Secondary t k
      → e.get d' (t.get_key s k false)
        ≡ effect e nodes t exists old r
            (node_value e nodes t (t.id r))
            k
            (t.get_key s k false)
            (e.get d (t.get_key s k false))
  secondary_after s k sec =
      wrote (t.get_key s k false)
      ∙ after-dump_record_secondary e nodes t laws exists old r k (t.get_key s k false) _ sec
          (laws.get_key_type s k sec)

  new_held : Holds e t d' (t.id r) r
  new_held = record {
    value = t.codec.serialize r;
    stored = ground (arith, primary_after (t.id r) in_range);
    parsed = t.codec.parse-serialize r;
  }

  -- Under another id the record is as it was.
  kept : (i : ℕ) (s : T) → i < 2 ^ 64 → i ≢ t.id r → Holds e t d i s → Holds e t d' i s
  kept i s h ne p = record {
    value = p.value;
    stored = ground (arith, primary_after i h, p.stored);
    parsed = p.parsed;
  }

  was_held : (i : ℕ) (s : T) → i < 2 ^ 64 → i ≢ t.id r → Holds e t d' i s → Holds e t d i s
  was_held i s h ne p = record {
    value = p.value;
    stored = ground (arith, primary_after i h, p.stored);
    parsed = p.parsed;
  }

  new_is : (s : T) → Holds e t d' (t.id r) s → s ≡ r
  new_is s p =
      ground (arith, primary_after (t.id r) in_range, p.stored, p.parsed, t.codec.parse-serialize r)

  own_id : (i : ℕ) (s : T) → 0 < i → i < 2 ^ 64 → Holds e t d' i s → t.id s ≡ i
  own_id i s h l p = elim (ℕ_discrete i (t.id r)) [
    | yes same ↦ ap t.id (new_is s (subst (λ n. Holds e t d' n s) same p)) ∙ sym same
    | no other ↦ x.own_id i s h l (was_held i s l other p)
  ]

  -- The entry of a secondary key of the record that was there.
  old_entry :
      exists ≡ true
      → (k : KeyType) → Secondary t k
      → e.get d (t.get_key old k false) ≡ some (node_value e nodes t (t.id r))
  old_entry ex k sec =
      x.forward (t.id r) old k positive in_range (Was-true e nodes t d (t.id r) exists old ex was)
        sec

  -- The entry of a secondary key of the new record.
  forward_new :
      (k : KeyType)
      → Secondary t k
      → e.get d' (t.get_key r k false) ≡ some (node_value e nodes t (t.id r))
  unfolding effect
  forward_new k sec = ground (
    arith,
    secondary_after r k sec,
    beq_refl (t.get_key r k false),
    beq_iff (t.get_key old k false) (t.get_key r k false),
    λ (ex : exists ≡ true). old_entry ex k sec,
  )

  -- A record under another id shares no secondary key with the new one, nor with the old.
  apart_new :
      (i : ℕ) (s : T) (k : KeyType)
      → 0 < i
      → i < 2 ^ 64
      → i ≢ t.id r
      → Holds e t d i s
      → Secondary t k
      → t.get_key r k false ≢ t.get_key s k false
  apart_new i s k h l ne p sec same = elim (Bool-cases (mem k t.unique_keys)) [
    | inl m ↦ ne (
        sym (
          no_clash_node e nodes t laws d r t.unique_keys k
            (record { keytype = t.primary_key; id = i }) no_clash m
            (secondary_node e nodes t d r k i sec (ap (e.get d) same ∙ x.forward i s k h l p sec))))
    | inr m ↦
        let own = x.own_id i s h l p in
        ne (sym (laws.index_key_id r s k (ground arith) in_range (omega arith) same ∙ own))
  ]

  apart_old :
      (i : ℕ) (s : T) (k : KeyType)
      → 0 < i
      → i < 2 ^ 64
      → i ≢ t.id r
      → Holds e t d i s
      → Secondary t k
      → exists ≡ true
      → t.get_key old k false ≢ t.get_key s k false
  apart_old i s k h l ne p sec ex same = ne (
      node_value_inj e nodes t i (t.id r)
        (cc (x.forward i s k h l p sec, old_entry ex k sec, same)))

  forward_other :
      (i : ℕ) (s : T) (k : KeyType)
      → 0 < i
      → i < 2 ^ 64
      → i ≢ t.id r
      → Holds e t d i s
      → Secondary t k
      → e.get d' (t.get_key s k false) ≡ some (node_value e nodes t i)
  unfolding effect
  forward_other i s k h l ne p sec = ground (
    arith,
    secondary_after s k sec,
    x.forward i s k h l p sec,
    beq_iff (t.get_key r k false) (t.get_key s k false),
    beq_iff (t.get_key old k false) (t.get_key s k false),
    apart_new i s k h l ne p sec,
    λ (ex : exists ≡ true). apart_old i s k h l ne p sec ex,
  )

  forward :
      (i : ℕ) (s : T) (k : KeyType)
      → 0 < i
      → i < 2 ^ 64
      → Holds e t d' i s
      → Secondary t k
      → e.get d' (t.get_key s k false) ≡ some (node_value e nodes t i)
  forward i s k h l p sec = elim (ℕ_discrete i (t.id r)) [
    | yes same ↦ cc (new_is s (subst (λ n. Holds e t d' n s) same p), same, forward_new k sec)
    | no other ↦ forward_other i s k h l other (was_held i s l other p) sec
  ]

  -- The entry under a key that is the new record's leads to it.
  Points-new :
      (s : T) (k : KeyType) (v : Value)
      → Secondary t k
      → t.get_key r k false ≡ t.get_key s k false
      → e.get d' (t.get_key s k false) ≡ some v
      → Points e nodes t d' (t.get_key s k false) k v
  Points-new s k v sec same g = record {
    id = t.id r;
    target = r;
    is_node = cc (g, forward_new k sec, same);
    positive = positive;
    in_range = in_range;
    held = new_held;
    same_key = same;
  }

  -- Any other entry was there before, and its record is not the one replaced.
  before_entry :
      (s : T) (k : KeyType) (v : Value)
      → Secondary t k
      → t.get_key r k false ≢ t.get_key s k false
      → e.get d' (t.get_key s k false) ≡ some v
      → e.get d (t.get_key s k false) ≡ some v
  unfolding effect
  before_entry s k v sec ne g =
      ground (arith, secondary_after s k sec, beq_iff (t.get_key r k false) (t.get_key s k false))

  replaced_gone :
      (s : T) (k : KeyType) (v : Value)
      → Secondary t k
      → t.get_key r k false ≢ t.get_key s k false
      → e.get d' (t.get_key s k false) ≡ some v
      → exists ≡ true
      → t.get_key old k false ≢ t.get_key s k false
  unfolding effect
  replaced_gone s k v sec ne g ex same = ground (
    arith,
    secondary_after s k sec,
    beq_iff (t.get_key r k false) (t.get_key s k false),
    beq_iff (t.get_key old k false) (t.get_key s k false),
    beq_iff (t.get_key old k false) (t.get_key r k false),
  )

  not_replaced :
      (s : T) (k : KeyType) (v : Value)
      → Secondary t k
      → t.get_key r k false ≢ t.get_key s k false
      → e.get d' (t.get_key s k false) ≡ some v
      → (p : Points e nodes t d (t.get_key s k false) k v) → p.id ≢ t.id r
  not_replaced s k v sec ne g p same = elim (Bool-cases exists) [
    | inl ex ↦ replaced_gone s k v sec ne g ex (
        ap (λ o. t.get_key o k false)
          (Holds-unique e nodes t d (t.id r) old p.target
            (Was-true e nodes t d (t.id r) exists old ex was)
            (subst (λ n. Holds e t d n p.target) same p.held))
        ∙ p.same_key)
    | inr new ↦ cc (Was-false e nodes t d (t.id r) exists old new was, p.held.stored, same)
  ]

  Points-old :
      (s : T) (k : KeyType) (v : Value)
      → Secondary t k
      → t.get_key r k false ≢ t.get_key s k false
      → e.get d' (t.get_key s k false) ≡ some v
      → Points e nodes t d (t.get_key s k false) k v
      → Points e nodes t d' (t.get_key s k false) k v
  Points-old s k v sec ne g p = record {
    id = p.id;
    target = p.target;
    is_node = p.is_node;
    positive = p.positive;
    in_range = p.in_range;
    held = kept p.id p.target p.in_range (not_replaced s k v sec ne g p) p.held;
    same_key = p.same_key;
  }

  backward :
      (s : T) (k : KeyType) (v : Value)
      → Secondary t k
      → e.get d' (t.get_key s k false) ≡ some v
      → Points e nodes t d' (t.get_key s k false) k v
  backward s k v sec g = elim (Bool-cases (beq (t.get_key r k false) (t.get_key s k false))) [
    | inl same ↦ Points-new s k v sec ((beq_iff _ _).0 same) g
    | inr differ ↦
        let ne : t.get_key r k false ≢ t.get_key s k false =
          λ p. absurd (ground (arith, beq_iff (t.get_key r k false) (t.get_key s k false))) in
        Points-old s k v sec ne g (x.backward s k v sec (before_entry s k v sec ne g))
  ]

  kept_IsIndexed : IsIndexed e nodes t d'
  kept_IsIndexed = record { own_id = own_id; forward = forward; backward = backward }

-- If `AddRecord` reports success for a record whose id is a uint64, and the batch of the
-- transaction that it made is written to a consistent table, then the table stays consistent and
-- the database holds the record under its id.
pub add_record-IsIndexed :
    {Value Db T : Type 0} (e : Engine Value Db) (nodes : Codec Value Node) (t : Table Value T)
    (laws : IsTable t) (d d' : Db) (r : T) (upsert : Bool) (trans : List (TransItem Value))
    → IsIndexed e nodes t d
    → t.id r < 2 ^ 64
    → add_record e nodes t d r [] upsert ≡ ok (true, trans)
    → e.write d (batch trans) ≡ some d'
    → IsIndexed e nodes t d' × Holds e t d' (t.id r) r
add_record-IsIndexed e nodes t laws d d' r upsert trans x l added written =
    let a = Added-of_add_record e nodes t laws d r upsert trans added in
    let wrote = wrote_dump e nodes t d d' r trans a written in
    (
      kept_IsIndexed e nodes t laws d d' a.exists a.old r x a.was a.positive l a.no_clash wrote,
      new_held e nodes t laws d d' a.exists a.old r x a.was a.positive l a.no_clash wrote,
    )

-- Under the same conditions the database holds under every other uint64 id what it held before,
-- and no more.
pub add_record-Holds_ne :
    {Value Db T : Type 0} (e : Engine Value Db) (nodes : Codec Value Node) (t : Table Value T)
    (laws : IsTable t) (d d' : Db) (r : T) (upsert : Bool) (trans : List (TransItem Value)) (i : ℕ)
    (s : T)
    → IsIndexed e nodes t d
    → t.id r < 2 ^ 64
    → add_record e nodes t d r [] upsert ≡ ok (true, trans)
    → e.write d (batch trans) ≡ some d'
    → i < 2 ^ 64
    → i ≢ t.id r
    → Holds e t d i s ↔ Holds e t d' i s
add_record-Holds_ne e nodes t laws d d' r upsert trans i s x l added written h ne =
    let a = Added-of_add_record e nodes t laws d r upsert trans added in
    let wrote = wrote_dump e nodes t d d' r trans a written in
    (
      kept e nodes t laws d d' a.exists a.old r x a.was a.positive l a.no_clash wrote i s h ne,
      was_held e nodes t laws d d' a.exists a.old r x a.was a.positive l a.no_clash wrote i s h ne,
    )
