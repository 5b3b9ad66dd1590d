-- ===== src/Startup/Counters.antt =====
-- The counters that the start reads off the keys.
use identt.Prelude.{
  ℕ, zero, suc, ◌^◌, ◌+◌, ◌-◌, ◌<◌, ◌≤◌, ◌≡◌, ap, sym, ◌∙◌, Bytes, ◌++◌, true, false, not, some,
  blt, if◌then◌else◌, arith, Bool-cases, Option-cases, inl, inr, ltb, ◌==◌, starts_with,
}
use Prim.Native.String.{String}
use identt.Exception.{Result, ok, ◌>>=◌, >>=-eq-ok}
use identt.Keys.{
  KeyType, k_lognode, encode_key_type, encode_primary_key, uint_only, decode_primary_key,
}
use identt.Keys.Order.{
  blt-encode_key_type, blt-encode_primary_key, starts_with-encode_key_type, blt_types,
}
use identt.Keys.Roundtrip.{decode_primary_key-encode_primary_key}
use identt.Engine.Ordered.{Entries, lookup}
use identt.Server.{World}
use identt.Trans.{is_empty}
use identt.Startup.{last, prev_key, last_id, last_ids}
use identt.Startup.Last.{Stands, last-Stands, Stands-exists, from_not_empty}
use identt.Startup.Fences.{IsStore, AllKeyed-lookup}

-- What stands before the keys of the type after `k`, at or after a key of the type `k`, is a
-- primary key of the type `k`, whose id is not smaller.
pub record Greatest (k : KeyType) (e : Bytes) : Type 0 where
  pub id : ℕ
  pub small : id < 2 ^ 64
  pub is_key : e ≡ encode_primary_key k id

module _ {Value : Type 0} where
  Stands-type :
      (k : KeyType) (m : Entries Value) (e : Bytes × Value) (r : Bytes)
      → k ≤ k_lognode
      → IsStore m
      → Stands (encode_key_type (suc k)) m e
      → blt e.0 (encode_key_type k ++ r) ≡ false
      → Greatest k e.0
  Stands-type k m e r small store s n =
      let keyed = AllKeyed-lookup e.0 e.1 m store.keyed s.stored in
      let below : ltb keyed.keytype (suc k) ≡ true =
        sym
          (blt-encode_key_type keyed.keytype (suc k) keyed.rest keyed.small (omega (arith, small)))
        ∙ ap (λ x. blt x (encode_key_type (suc k))) (sym keyed.split)
        ∙ s.below in
      let above : blt (encode_key_type keyed.keytype ++ keyed.rest) (encode_key_type k ++ r)
          ≡ false =
        ap (λ x. blt x (encode_key_type k ++ r)) (sym keyed.split) ∙ n in
      let same : keyed.keytype ≡ k =
        ground (arith, blt_types keyed.keytype k keyed.rest r keyed.small) in
      let (id, l, is) = keyed.primary (omega (arith, same, small)) in
      record { id = id; small = l; is_key = is ∙ ap (λ x. encode_primary_key x id) same }

eq_k : (j k : ℕ) → (j == k) ≡ true → j ≡ k
eq_k j k h = ground arith

below_k : (j k : ℕ) → j < suc k → (j == k) ≡ false → j < k
below_k j k h n = ground arith

module _ {Value Db : Type 0} (w : World Value Db) where
  open_seek :
      (a b : String) (d : Db) (k match l r : ℕ)
      → last_id w a b d k match l ≡ ok r
      → is_empty (w.engine.seek d (encode_key_type k)) ≡ false
  unfolding last_id
  open_seek a b d k match l r h = ground arith

  -- What is read off the key at which the iterator stands.
  read_id : Bytes → KeyType → ℕ → Result ℕ
  read_id key match l =
      if not (starts_with key (encode_key_type match))
      then ok l
      else decode_primary_key key >>= λ decoded. ok (if ltb l decoded.1 then decoded.1 else l)

  -- The iterator stands on an entry if the id is read.
  last_id-Stands :
      (a b : String) (d : Db) (k match l r : ℕ)
      → IsStore (w.engine.view d)
      → last_id w a b d k match l ≡ ok r
      → (e : Bytes × Value) × Stands (encode_key_type k) (w.engine.view d) e
        × (read_id e.0 match l ≡ ok r)
  unfolding last_id prev_key read_id
  last_id-Stands a b d k match l r store h =
      let (key, found, rest) =
        >>=-eq-ok (prev_key w b (last (w.engine.before d (encode_key_type k)))) _
          (rw (open_seek a b d k match l r h) at h) in
      elim (Option-cases (last (w.engine.before d (encode_key_type k)))) [
        | inl nothing ↦ absurd (ground arith)
        | inr (e, stands) ↦
            let it : e.0 ≡ key = ground arith in
            (
              e,
              last-Stands (encode_key_type k) (w.engine.view d) e store.sorted
                  (ap last (sym (w.engine.before-view d (encode_key_type k))) ∙ stands),
              ap (λ x. read_id x match l) it ∙ rest,
            )
      ]

  read_id-le : (key : Bytes) (match l r : ℕ) → read_id key match l ≡ ok r → l ≤ r
  unfolding read_id
  read_id-le key match l r h = elim (Bool-cases (starts_with key (encode_key_type match))) [
    | inr other ↦ ground arith
    | inl same ↦
        let (decoded, found, rest) =
          >>=-eq-ok (decode_primary_key key)
            (λ decoded. ok (if ltb l decoded.1 then decoded.1 else l)) (rw same at h) in
        ground arith
  ]

  -- The id of a primary key of the type counts.
  read_id_key :
      (k id l : ℕ)
      → k ≤ k_lognode
      → id < 2 ^ 64
      → read_id (encode_primary_key k id) k l ≡ ok (if ltb l id then id else l)
  unfolding read_id encode_primary_key
  read_id_key k id l small fits =
      let same : starts_with (encode_primary_key k id) (encode_key_type k) ≡ true =
        starts_with-encode_key_type k k (uint_only id) (omega arith) (omega arith) ∙ ground arith in
      let read : decode_primary_key (encode_primary_key k id) ≡ ok (k, id) =
        decode_primary_key-encode_primary_key k id (omega arith) fits in
      rw (same, read)

  read_id-primary :
      (k id l r : ℕ)
      → k ≤ k_lognode
      → id < 2 ^ 64
      → read_id (encode_primary_key k id) k l ≡ ok r
      → r ≡ (if ltb l id then id else l)
  read_id-primary k id l r small fits h =
      let it : ok r ≡ ok (if ltb l id then id else l) = sym h ∙ read_id_key k id l small fits in
      cc it

  -- The id that is read is at least the last one and every id under a key of the type.
  pub last_id_bound :
      (a b : String) (d : Db) (k l r : ℕ)
      → k ≤ k_lognode
      → IsStore (w.engine.view d)
      → last_id w a b d (suc k) k l ≡ ok r
      → (l ≤ r)
        × ((id : ℕ) (v : Value)
            → id < 2 ^ 64
            → lookup (encode_primary_key k id) (w.engine.view d) ≡ some v
            → id ≤ r)
  unfolding encode_primary_key
  last_id_bound a b d k l r small store h =
      let (e, stands, read) = last_id-Stands a b d (suc k) k l r store h in
      (
        read_id-le e.0 k l r read,
        λ id v fits stored.
            let under : blt (encode_primary_key k id) (encode_key_type (suc k)) ≡ true =
              blt-encode_key_type k (suc k) (uint_only id) (omega arith) (omega arith)
              ∙ ground arith in
            let (f, s, n) =
              Stands-exists (encode_key_type (suc k)) (encode_primary_key k id) v (w.engine.view d)
                store.sorted stored under in
            let same : f ≡ e = ground (arith, s.is_last, stands.is_last) in
            let n' : blt e.0 (encode_primary_key k id) ≡ false =
              ap (λ x. blt x.0 (encode_primary_key k id)) (sym same) ∙ n in
            let g = Stands-type k (w.engine.view d) e (uint_only id) small store stands n' in
            let counted =
              read_id-primary k g.id l r small g.small
                (ap (λ x. read_id x k l) (sym g.is_key) ∙ read) in
            let order : ltb g.id id ≡ false =
              sym (blt-encode_primary_key k g.id id g.small fits)
              ∙ ap (λ x. blt x (encode_primary_key k id)) (sym g.is_key)
              ∙ n' in
            ground arith,
      )

  pub last_ids_bound :
      (d : Db) (n k l r : ℕ)
      → k ≤ k_lognode
      → n ≤ k
      → IsStore (w.engine.view d)
      → last_ids w d n k l ≡ ok r
      → (l ≤ r)
        × ((j id : ℕ) (v : Value)
            → k ≤ j + n
            → j < k
            → id < 2 ^ 64
            → lookup (encode_primary_key j id) (w.engine.view d) ≡ some v
            → id ≤ r)
  unfolding last_ids
  last_ids_bound d zero k l r small le store h =
      (ground arith, λ j id v a b fits stored. absurd (omega arith))
  last_ids_bound d (suc n) zero l r small le store h = absurd (omega arith)
  last_ids_bound d (suc n) (suc k) l r small le store h =
      let e : suc k - 1 ≡ k = omega arith in
      let (m, first, rest) =
        >>=-eq-ok
          (last_id w "Some fixed records missing" "Some zero records missing" d (suc k) (suc k - 1)
            l)
          (λ m. last_ids w d n (suc k - 1) m) h in
      let (a, b) =
        last_id_bound "Some fixed records missing" "Some zero records missing" d k l m (omega arith)
          store
          (ap
              (λ x.
                last_id w "Some fixed records missing" "Some zero records missing" d (suc k) x l)
              (sym e)
            ∙ first) in
      let (c, g) =
        last_ids_bound d n k m r (omega arith) (omega arith) store
          (ap (λ x. last_ids w d n x m) (sym e) ∙ rest) in
      (
        omega (arith, a, c),
        λ j id v lo hi fits stored. elim (Bool-cases (j == k)) [
          | inl same ↦ omega (
            arith,
            c,
            b id v fits (
                ap (λ x. lookup (encode_primary_key x id) (w.engine.view d)) (sym (eq_k j k same))
                ∙ stored),
          )
          | inr differ ↦ g j id v (omega arith) (below_k j k hi differ) fits stored
        ],
      )

  Stands-read :
      (a b : String) (d : Db) (k match l : ℕ) (e : Bytes × Value)
      → is_empty (w.engine.seek d (encode_key_type k)) ≡ false
      → Stands (encode_key_type k) (w.engine.view d) e
      → last_id w a b d k match l ≡ read_id e.0 match l
  unfolding last_id read_id
  Stands-read a b d k match l e open_ s =
      let at_ : last (w.engine.before d (encode_key_type k)) ≡ some e =
        ap last (w.engine.before-view d (encode_key_type k)) ∙ s.is_last in
      rw open_ (rw (at_, prev_key))

  -- With a fixed record of the type and of the next one, an id is read: the greatest of the type.
  pub last_id-ok :
      (a b : String) (d : Db) (k l : ℕ) (u v : Value)
      → k ≤ k_lognode
      → IsStore (w.engine.view d)
      → lookup (encode_primary_key k 0) (w.engine.view d) ≡ some u
      → lookup (encode_primary_key (suc k) 0) (w.engine.view d) ≡ some v
      → (id : ℕ) × (id < 2 ^ 64)
        × ((x : Value) × (lookup (encode_primary_key k id) (w.engine.view d) ≡ some x))
        × (last_id w a b d (suc k) k l ≡ ok (if ltb l id then id else l))
  unfolding encode_primary_key
  last_id-ok a b d k l u v small store p q =
      let after : blt (encode_primary_key (suc k) 0) (encode_key_type (suc k)) ≡ false =
        blt-encode_key_type (suc k) (suc k) (uint_only 0) (omega arith) (omega arith)
        ∙ ground arith in
      let open_ : is_empty (w.engine.seek d (encode_key_type (suc k))) ≡ false =
        ap is_empty (w.engine.seek-view d (encode_key_type (suc k)))
        ∙ from_not_empty (encode_key_type (suc k)) (encode_primary_key (suc k) 0) v
            (w.engine.view d) q after in
      let under : blt (encode_primary_key k 0) (encode_key_type (suc k)) ≡ true =
        blt-encode_key_type k (suc k) (uint_only 0) (omega arith) (omega arith) ∙ ground arith in
      let (e, s, n) =
        Stands-exists (encode_key_type (suc k)) (encode_primary_key k 0) u (w.engine.view d)
          store.sorted p under in
      let g = Stands-type k (w.engine.view d) e (uint_only 0) small store s n in
      (
        g.id,
        g.small,
        (e.1, ap (λ x. lookup x (w.engine.view d)) (sym g.is_key) ∙ s.stored),
        Stands-read a b d (suc k) k l e open_ s
            ∙ ap (λ x. read_id x k l) g.is_key
            ∙ read_id_key k g.id l small g.small,
      )
