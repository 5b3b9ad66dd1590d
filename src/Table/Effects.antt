-- ===== src/Table/Effects.antt =====
-- What the transaction that `AddRecord` builds does to a key, once its batch is written.
use identt.Prelude.{
  ℕ, ◌^◌, ◌<◌, ◌≡◌, ◌≢◌, refl, ap, sym, ◌∙◌, Bytes, List, [], ◌∷◌, ◌++◌, Bool, true, false, Option,
  none, some, ◌==◌, beq, beq_iff, beq_ne, if◌then◌else◌, arith, Bool-cases, inl, inr, ==_iff,
}
use identt.Keys.{KeyType, encode_key_type, encode_primary_key, uint_only}
use identt.Keys.Distinct.{key_type_ne, encode_primary_key_inj}
use identt.Engine.{Engine, Codec}
use identt.Engine.Ordered.{after_op, after_ops}
use identt.Messages.{Node, TransItem}
use identt.Table.{Table, mem, add_trans, update_key, update_keys, dump_record, batch, batch_op}
use identt.Table.Laws.{HasType, IsTable, Secondary}

-- What is under the key `j` after the batch of the items, if `old` was there before.
abbrev pub after : {Value : Type 0} → List (TransItem Value) → Bytes → Option Value → Option Value
after items j old = after_ops (batch items) j old

pub after-append :
    {Value : Type 0} (xs ys : List (TransItem Value)) (j : Bytes) (old : Option Value)
    → after (xs ++ ys) j old ≡ after ys j (after xs j old)
unfolding after_ops batch
after-append [] ys j old = refl
after-append (x ∷ xs) ys j old = after-append xs ys j (after_op (batch_op x) j old)

HasType_ne :
    (a b : KeyType) (j k : Bytes)
    → a < 256
    → b < 256
    → a ≢ b
    → HasType j a
    → HasType k b
    → beq k j ≡ false
HasType_ne a b j k h l ne (s, p) (u, q) =
    beq_ne k j (λ e. key_type_ne a b s u h l ne (sym p ∙ sym e ∙ q))

empty_after : {Value : Type 0} (j : Bytes) (old : Option Value) → after [] j old ≡ old
unfolding after_ops batch
empty_after j old = refl

primary_eq : (k : KeyType) (i : ℕ) → encode_primary_key k i ≡ encode_key_type k ++ uint_only i
unfolding encode_primary_key
primary_eq k i = refl

module _ {Value Db T : Type 0} (e : Engine Value Db) (nodes : Codec Value Node)
    (t : Table Value T) where
  pub after-add_trans :
      (trans : List (TransItem Value)) (key j : Bytes) (value : Value) (to_del : Bool)
      (old : Option Value)
      → after (add_trans e nodes t trans key value to_del) j old
        ≡ (if beq key j then (if to_del then none else some value) else after trans j old)
  unfolding add_trans
  after-add_trans trans key j value true old =
      after-append trans _ j old ∙ (unfold after_ops batch batch_op after_op in refl)
  after-add_trans trans key j value false old =
      after-append trans _ j old ∙ (unfold after_ops batch batch_op after_op in refl)

  -- The effect of `update_key` on the key `j`.
  unfoldable pub effect : Bool → T → T → Value → KeyType → Bytes → Option Value → Option Value
  effect exists old r dumpid k j before =
      let u_new = t.get_key r k false in
      let u_old = t.get_key old k false in
      if exists
      then (if beq u_old u_new
          then before
          else if beq u_new j
          then some dumpid
          else if beq u_old j
          then none
          else before)
      else if beq u_new j
      then some dumpid
      else before

  after-update_key :
      (exists : Bool) (old r : T) (dumpid : Value) (k : KeyType) (trans : List (TransItem Value))
      (j : Bytes) (before : Option Value)
      → after (update_key e nodes t exists old r dumpid k trans) j before
        ≡ effect exists old r dumpid k j (after trans j before)
  unfolding update_key effect
  after-update_key true old r dumpid k trans j before =
      elim (Bool-cases (beq (t.get_key old k false) (t.get_key r k false))) [
        | inl same ↦ rw (same, update_key, effect) refl
        | inr other ↦
            rw (other, update_key, effect)
              (after-add_trans _ (t.get_key r k false) j dumpid false before
                ∙ ap (λ x. if beq (t.get_key r k false) j then some dumpid else x)
                    (after-add_trans trans (t.get_key old k false) j dumpid true before))
      ]
  after-update_key false old r dumpid k trans j before =
      after-add_trans trans (t.get_key r k false) j dumpid false before

  effect_idem :
      (exists : Bool) (old r : T) (dumpid : Value) (k : KeyType) (j : Bytes) (before : Option Value)
      → effect exists old r dumpid k j (effect exists old r dumpid k j before)
        ≡ effect exists old r dumpid k j before
  unfolding effect
  effect_idem exists old r dumpid k j before = ground arith

  module _ (laws : IsTable t) where
    -- A key of another type is left alone.
    effect_other :
        (exists : Bool) (old r : T) (dumpid : Value) (k k0 : KeyType) (j : Bytes)
        (before : Option Value)
        → Secondary t k
        → k0 < 256
        → k0 ≢ k
        → HasType j k0
        → effect exists old r dumpid k j before ≡ before
    unfolding effect
    effect_other exists old r dumpid k k0 j before s h ne ty = ground (
      arith,
      HasType_ne k0 k j (t.get_key r k false) h (laws.secondary_small k s) ne ty
          (laws.get_key_type r k s),
      HasType_ne k0 k j (t.get_key old k false) h (laws.secondary_small k s) ne ty
          (laws.get_key_type old k s),
    )

    after-update_keys :
        (exists : Bool) (old r : T) (dumpid : Value) (kts : List KeyType)
        (trans : List (TransItem Value)) (k0 : KeyType) (j : Bytes) (before : Option Value)
        → ((k : KeyType) → mem k kts ≡ true → Secondary t k)
        → k0 < 256
        → HasType j k0
        → after (update_keys e nodes t exists old r dumpid kts trans) j before ≡ (
            if mem k0 kts
            then effect exists old r dumpid k0 j (after trans j before)
            else after trans j before)
    unfolding update_keys mem
    after-update_keys exists old r dumpid [] trans k0 j before sec h ty = refl
    after-update_keys exists old r dumpid (k ∷ kts) trans k0 j before sec h ty =
        let next = update_key e nodes t exists old r dumpid k trans in
        let now = after trans j before in
        let ih =
          after-update_keys exists old r dumpid kts next k0 j before (λ i m. sec i (or_right i k m))
            h ty in
        let one = after-update_key exists old r dumpid k trans j before in
        elim (Bool-cases (k0 == k)) [
          | inl same ↦
              let eq : k0 ≡ k = (==_iff k0 k).0 same in
              ground (arith, ih, one, eq, effect_idem exists old r dumpid k0 j now)
          | inr other ↦
              let ne : k0 ≢ k = λ p. absurd (ground arith) in
              ground (
                arith,
                ih,
                one,
                effect_other exists old r dumpid k k0 j now (sec k (or_left k)) h ne ty,
              )
        ]
      where
        or_left : (i : KeyType) → mem i (i ∷ kts) ≡ true
        or_left i = ground arith

        or_right : (i j : KeyType) → mem i kts ≡ true → mem i (j ∷ kts) ≡ true
        or_right i j m = ground arith

    Secondary_unique : (k : KeyType) → mem k t.unique_keys ≡ true → Secondary t k
    Secondary_unique k m = ground arith

    Secondary_index : (k : KeyType) → mem k t.index_keys ≡ true → Secondary t k
    Secondary_index k m = ground arith

    no_primary :
        (kts : List KeyType)
        → ((k : KeyType) → mem k kts ≡ true → Secondary t k)
        → mem t.primary_key kts ≡ false
    no_primary kts sec = elim (Bool-cases (mem t.primary_key kts)) [
      | inl m ↦ absurd (laws.secondary_ne_primary t.primary_key (sec t.primary_key m) refl)
      | inr m ↦ m
    ]

    primary_type : (i : ℕ) → HasType (encode_primary_key t.primary_key i) t.primary_key
    unfolding encode_primary_key
    primary_type i = (uint_only i, refl)

    -- Under a secondary key the written transaction has the effect of its key type's update.
    pub after-dump_record_secondary :
        (exists : Bool) (old r : T) (k : KeyType) (j : Bytes) (before : Option Value)
        → Secondary t k
        → HasType j k
        → after (dump_record e nodes t exists old r []) j before
          ≡ effect exists old r
              (nodes.serialize (record { keytype = t.primary_key; id = t.id r }))
              k
              j
              before
    unfolding dump_record
    after-dump_record_secondary exists old r k j before s ty =
        let dumpid = nodes.serialize (record { keytype = t.primary_key; id = t.id r }) in
        let small = laws.secondary_small k s in
        let uniques = update_keys e nodes t exists old r dumpid t.unique_keys [] in
        let keys = update_keys e nodes t exists old r dumpid t.index_keys uniques in
        let pkey = t.get_key r t.primary_key false in
        let apart : beq pkey j ≡ false =
          HasType_ne k t.primary_key j pkey small laws.primary_small (laws.secondary_ne_primary k s)
            ty (uint_only (t.id r), laws.get_key_primary r ∙ primary_eq t.primary_key (t.id r)) in
        ground (
          arith,
          s,
          apart,
          empty_after j before,
          after-add_trans keys pkey j (t.codec.serialize r) false before,
          after-update_keys exists old r dumpid t.index_keys uniques k j before Secondary_index
              small ty,
          after-update_keys exists old r dumpid t.unique_keys [] k j before Secondary_unique small
              ty,
          effect_idem exists old r dumpid k j before,
        )

    -- Under a primary key it has the record at its id, and leaves the others.
    pub after-dump_record_primary :
        (exists : Bool) (old r : T) (i : ℕ) (before : Option Value)
        → i < 2 ^ 64
        → t.id r < 2 ^ 64
        → after (dump_record e nodes t exists old r []) (encode_primary_key t.primary_key i) before
          ≡ (if t.id r == i then some (t.codec.serialize r) else before)
    unfolding dump_record
    after-dump_record_primary exists old r i before h l =
        let dumpid = nodes.serialize (record { keytype = t.primary_key; id = t.id r }) in
        let j = encode_primary_key t.primary_key i in
        let uniques = update_keys e nodes t exists old r dumpid t.unique_keys [] in
        let keys = update_keys e nodes t exists old r dumpid t.index_keys uniques in
        let pkey = t.get_key r t.primary_key false in
        ground (
          arith,
          beq_iff pkey j,
          laws.get_key_primary r,
          encode_primary_key_inj t.primary_key (t.id r) i l h,
          empty_after j before,
          after-add_trans keys pkey j (t.codec.serialize r) false before,
          after-update_keys exists old r dumpid t.index_keys uniques t.primary_key j before
              Secondary_index laws.primary_small (primary_type i),
          after-update_keys exists old r dumpid t.unique_keys [] t.primary_key j before
              Secondary_unique laws.primary_small (primary_type i),
          no_primary t.index_keys Secondary_index,
          no_primary t.unique_keys Secondary_unique,
        )
