-- ===== src/Tables/LongerAddress.antt =====
-- The scan of `GlobalAssocTable` for the associations of an address.
use mathlib.Core.List.{Memᴰ}
use identt.Prelude.{
  ℕ, suc, zero, ◌^◌, ◌≤◌, ◌<◌, ◌≡◌, refl, ap, sym, subst, ◌∙◌, Bytes, [], ◌∷◌, ◌++◌, true, false,
  some, List, if◌then◌else◌, Bool-cases, inl, inr, length, length-append, take, map, starts_with,
  beq, beq_iff, arith,
}
use identt.Keys.{
  encode_secondary_key, encode_key_type, joined, part_bytes, i_globalassoc_medium_address,
}
use identt.Keys.Separator.{index_prefix_matches}
use identt.Engine.{Engine, Codec}
use identt.Engine.Ordered.{Entries, lookup}
use identt.Engine.Sorted.{IsSorted, with_prefix}
use identt.Keys.Hex.{hex}
use identt.Messages.{Node}
use identt.Table.{mem}
use identt.Table.Scans.{node_of, at_least_one, get_keys_from_index}
use identt.Table.Laws.{Secondary}
use identt.Table.IndexReads.{node_at, get_keys_from_index_lem}
use identt.Tables.Records.{GlobalAssoc}
use identt.Tables.Indexes.{global_assoc_key, global_assoc_table}

Memᴰ-map : {A B : Type 0} (f : A → B) (x : A) (xs : List A) → Memᴰ x xs → Memᴰ (f x) (map f xs)
Memᴰ-map f x [] m = elim m [ ]
Memᴰ-map f x (y ∷ ys) (Memᴰ.head e) = Memᴰ.head (ap f e)
Memᴰ-map f x (y ∷ ys) (Memᴰ.tail d) = Memᴰ.tail (Memᴰ-map f x ys d)

take_all : {A : Type 0} (n : ℕ) (xs : List A) → length xs ≤ n → take n xs ≡ xs
take_all zero [] h = refl
take_all zero (x ∷ xs) h = absurd (omega arith)
take_all (suc n) [] h = refl
take_all (suc n) (x ∷ xs) h = ap (◌∷◌ x) (take_all n xs (omega arith))

module _ {Value : Type 0} where
  with_prefix_short : (p : Bytes) (m : Entries Value) → length (with_prefix p m) ≤ length m
  unfolding with_prefix
  with_prefix_short p [] = omega arith
  with_prefix_short p ((k, v) ∷ m) = ground (arith, with_prefix_short p m)

  -- An entry whose key has the prefix is one of the entries with it.
  with_prefix-lookup :
      (p k : Bytes) (v : Value) (m : Entries Value)
      → lookup k m ≡ some v
      → starts_with k p ≡ true
      → Memᴰ (k, v) (with_prefix p m)
  unfolding lookup with_prefix
  with_prefix-lookup p k v [] e h = cc e
  with_prefix-lookup p k v ((j, u) ∷ m) e h = elim (Bool-cases (beq j k)) [
    | inl same ↦
        let j≡k : j ≡ k = (beq_iff j k).0 same in
        let prefixed : starts_with j p ≡ true = ap (λ i. starts_with i p) j≡k ∙ h in
        let found : (if beq j k then some u else lookup k m) ≡ some v = e in
        let u≡v : u ≡ v = cc (same, found) in
        rw prefixed (Memᴰ.head (sym (ap (λ i. (i, u)) j≡k ∙ ap (λ z. (k, z)) u≡v)))
    | inr other ↦
        let later : lookup k m ≡ some v =
          sym (ap (λ b. if b then some u else lookup k m) other) ∙ e in
        elim (Bool-cases (starts_with j p)) [
          | inl keep ↦ rw keep (Memᴰ.tail (with_prefix-lookup p k v m later h))
          | inr drop ↦ rw drop (with_prefix-lookup p k v m later h)
        ]
  ]

at_least_one_nodes : (ns : List Node) → (at_least_one ns).1 ≡ ns
unfolding at_least_one
at_least_one_nodes [] = refl
at_least_one_nodes (n ∷ ns) = refl

is_index :
    {Value : Type 0} (c : Codec Value GlobalAssoc)
    → Secondary (global_assoc_table c) i_globalassoc_medium_address
unfolding mem
is_index c = refl

prefix_long : (q : GlobalAssoc) → 2 < length (global_assoc_key q i_globalassoc_medium_address true)
unfolding global_assoc_key encode_secondary_key encode_key_type joined part_bytes hex
prefix_long q = rw (length-append q.medium (58 ∷ q.address)) (omega arith)

-- The key of a record with a longer address begins with the prefix key of the query.
prefix_of_longer :
    (r q : GlobalAssoc) (x : Bytes)
    → r.medium ≡ q.medium
    → r.address ≡ q.address ++ x
    → starts_with
        (global_assoc_key r i_globalassoc_medium_address false)
        (global_assoc_key q i_globalassoc_medium_address true)
      ≡ true
unfolding global_assoc_key
prefix_of_longer r q x m a =
    rw (m, a) (index_prefix_matches i_globalassoc_medium_address q.medium q.address x r.id)

-- `GetKeysFromIndex` for an address, from the start of the index and with a limit that leaves
-- nothing out, returns the nodes of longer addresses too: the node of every entry that the
-- database, in key order, holds under the index key of an association of the same medium whose
-- address only begins with the one that is asked for.
pub longer_address_found :
    {Value Db : Type 0} (e : Engine Value Db) (nodes : Codec Value Node)
    (c : Codec Value GlobalAssoc) (d : Db) (r q : GlobalAssoc) (x : Bytes) (v : Value) (limit : ℕ)
    → IsSorted (e.view d)
    → e.get d (global_assoc_key r i_globalassoc_medium_address false) ≡ some v
    → r.medium ≡ q.medium
    → r.address ≡ q.address ++ x
    → 0 < limit
    → length (e.view d) ≤ limit
    → limit < 2 ^ 64
    → Memᴰ
        (node_of nodes v)
        (get_keys_from_index e nodes
          (global_assoc_table c)
          d
          i_globalassoc_medium_address
          q
          0
          limit).1
longer_address_found e nodes c d r q x v limit sorted held m a some_limit fits small =
    let key = global_assoc_key r i_globalassoc_medium_address false in
    let prefix = global_assoc_key q i_globalassoc_medium_address true in
    let scanned =
      get_keys_from_index_lem e nodes (global_assoc_table c) d i_globalassoc_medium_address q 0
        limit sorted (is_index c) (prefix_long q) some_limit (omega arith) in
    let whole : take limit (with_prefix prefix (e.view d)) ≡ with_prefix prefix (e.view d) =
      take_all limit (with_prefix prefix (e.view d))
        (omega (arith, with_prefix_short prefix (e.view d))) in
    let found : Memᴰ (key, v) (with_prefix prefix (e.view d)) =
      with_prefix-lookup prefix key v (e.view d) (sym (e.get-view d key) ∙ held)
        (prefix_of_longer r q x m a) in
    subst (λ ns. Memᴰ (node_of nodes v) ns)
      (sym (
        ap (λ p. p.1) scanned
        ∙ at_least_one_nodes (map (node_at nodes) (take limit (with_prefix prefix (e.view d))))
        ∙ ap (map (node_at nodes)) whole))
      (Memᴰ-map (node_at nodes) (key, v) (with_prefix prefix (e.view d)) found)
