-- ===== src/Table/IndexReads.antt =====
-- Which entries an index read returns.
use identt.Prelude.{
  ℕ, suc, ◌+◌, ◌-◌, ◌%◌, ◌^◌, ◌≤◌, ◌<◌, ◌≡◌, refl, ap, sym, ◌∙◌, subst, Bytes, [], ◌∷◌, Bool, true,
  false, ◌&&◌, ◌||◌, not, ◌==◌, leb, length, take, drop, map, starts_with, arith, Bool-cases, inl,
  inr, blt, take-nil, drop-nil,
}
use native.Mathlib.Decide.{dec_lt}
use identt.Keys.{KeyType}
use identt.Engine.{Engine, Codec}
use identt.Engine.Ordered.{Entries, from}
use identt.Engine.Sorted.{IsSorted, while_prefix, with_prefix}
use identt.Engine.Scan.{while_prefix-from}
use identt.Messages.{Node}
use identt.Table.{Table, mem}
use identt.Table.Laws.{Secondary}
use identt.Table.Scans.{node_of, index_loop, at_least_one, get_keys_from_index}

abbrev pub node_at : {Value : Type 0} → Codec Value Node → Bytes × Value → Node
node_at nodes (k, v) = node_of nodes v

le→leb : (a b : ℕ) → b < a → leb a b ≡ false
le→leb a b h = ground arith

lt→leb : (a b : ℕ) → a ≤ b → leb a b ≡ true
lt→leb a b h = ground arith

take_last :
    {A : Type 0} (k : Bytes) (v : A) (xs : Entries A) (n : ℕ)
    → n ≡ 1
    → take n ((k, v) ∷ xs) ≡ (k, v) ∷ []
take_last k v xs n h = subst (λ i. take i ((k, v) ∷ xs) ≡ (k, v) ∷ []) (sym h) refl

take_more :
    {A : Type 0} (k : Bytes) (v : A) (xs : Entries A) (n i : ℕ)
    → n ≡ suc i
    → take n ((k, v) ∷ xs) ≡ (k, v) ∷ take i xs
take_more k v xs n i h = subst (λ j. take j ((k, v) ∷ xs) ≡ (k, v) ∷ take i xs) (sym h) refl

drop_more :
    {A : Type 0} (k : Bytes) (v : A) (xs : Entries A) (n i : ℕ)
    → n ≡ suc i
    → drop n ((k, v) ∷ xs) ≡ drop i xs
drop_more k v xs n i h = subst (λ j. drop j ((k, v) ∷ xs) ≡ drop i xs) (sym h) refl

module _ {Value : Type 0} (nodes : Codec Value Node) (match : Bytes) (skip limit : ℕ)
    (some_limit : 0 < limit) (no_overflow : skip + limit < 2 ^ 64) where
  -- Past the skipped entries the loop takes what is left of the limit.
  loop_takes :
      (m : Entries Value) (counter : ℕ)
      → skip ≤ counter
      → counter < skip + limit
      → index_loop nodes match skip limit counter m
        ≡ map (node_at nodes) (take (skip + limit - counter) (while_prefix match m))
  unfolding index_loop while_prefix
  loop_takes [] c h l = ap (map (node_at nodes)) (sym (take-nil (skip + limit - c)))
  loop_takes ((k, v) ∷ m) c h l = elim (Bool-cases (starts_with k match)) [
    | inr no_match ↦ rw no_match (ap (map (node_at nodes)) (sym (take-nil (skip + limit - c))))
    | inl matches ↦ elim (Bool-cases (suc c == (skip + limit) % 2 ^ 64)) [
      | inl last ↦
          rw (matches, last, le→leb (suc c) skip (omega arith))
            (ap (map (node_at nodes))
              (sym (take_last k v (while_prefix match m) (skip + limit - c) ((ground arith)))))
      | inr more ↦
          rw (matches, more, le→leb (suc c) skip (omega arith))
            (ap (◌∷◌ (node_of nodes v)) (loop_takes m (suc c) (omega arith) (ground arith))
              ∙ ap (map (node_at nodes)) (
                  sym (
                    take_more k v (while_prefix match m) (skip + limit - c) (skip + limit - suc c)
                      (omega arith))))
    ]
  ]

  loop_skips :
      (m : Entries Value) (counter : ℕ)
      → counter ≤ skip
      → index_loop nodes match skip limit counter m
        ≡ map (node_at nodes) (take limit (drop (skip - counter) (while_prefix match m)))
  unfolding index_loop while_prefix
  loop_skips [] c h =
      ap (map (node_at nodes)) (sym (ap (take limit) (drop-nil (skip - c)) ∙ take-nil limit))
  loop_skips ((k, v) ∷ m) c h = elim (dec_lt c skip) [
    | no done ↦
        let rest : skip + limit - c ≡ limit = omega arith in
        let none_left : 0 ≡ skip - c = omega arith in
        loop_takes ((k, v) ∷ m) c (omega arith) (omega arith)
        ∙ ap (λ n. map (node_at nodes) (take n (while_prefix match ((k, v) ∷ m)))) rest
        ∙ ap (λ n. map (node_at nodes) (take limit (drop n (while_prefix match ((k, v) ∷ m)))))
            none_left
    | yes more ↦ elim (Bool-cases (starts_with k match)) [
      | inr no_match ↦
          rw no_match (
            ap (map (node_at nodes)) (sym (ap (take limit) (drop-nil (skip - c)) ∙ take-nil limit)))
      | inl matches ↦
          rw (matches, lt→leb (suc c) skip more)
            (loop_skips m (suc c) more
              ∙ ap (λ l. map (node_at nodes) (take limit l))
                  (sym
                    (drop_more k v (while_prefix match m) (skip - c) (skip - suc c) (omega arith))))
    ]
  ]

prefix_not_below : (p k : Bytes) → starts_with k p ≡ true → blt k p ≡ false
unfolding starts_with blt
prefix_not_below [] [] h = refl
prefix_not_below [] (x ∷ k) h = refl
prefix_not_below (y ∷ p) [] h = cc
prefix_not_below (y ∷ p) (x ∷ k) h = ground (arith, prefix_not_below p k)

-- Every key with the prefix is at or after the prefix.
from_prefix :
    {Value : Type 0} (p : Bytes) (m : Entries Value) → from p (with_prefix p m) ≡ with_prefix p m
unfolding from with_prefix
from_prefix p [] = refl
from_prefix p ((k, v) ∷ m) = ground (arith, from_prefix p m, prefix_not_below p k)

starts_with_self : (p : Bytes) → starts_with p p ≡ true
unfolding starts_with
starts_with_self [] = refl
starts_with_self (x ∷ p) = ground (arith, starts_with_self p)

secondary_test : (a b : Bool) → (a || b) ≡ true → (not a && not b) ≡ false
secondary_test a b h = ground arith

-- On a database in key order, `GetKeysFromIndex` with a limit above 0 returns the nodes of the
-- entries whose key begins with the prefix key of the query, in key order, without the first
-- `skip`, and at most `limit`. It reports whether there is one.
pub get_keys_from_index_lem :
    {Value Db T : Type 0} (e : Engine Value Db) (nodes : Codec Value Node) (t : Table Value T)
    (d : Db) (k : KeyType) (r : T) (skip limit : ℕ)
    → IsSorted (e.view d)
    → Secondary t k
    → 2 < length (t.get_key r k true)
    → 0 < limit
    → skip + limit < 2 ^ 64
    → get_keys_from_index e nodes t d k r skip limit
      ≡ at_least_one (
          map
            (node_at nodes)
            (take limit (drop skip (with_prefix (t.get_key r k true) (e.view d)))))
unfolding get_keys_from_index
get_keys_from_index_lem e nodes t d k r skip limit o sec l h n =
    let key = t.get_key r k true in
    let all : skip - 0 ≡ skip = omega arith in
    let scanned =
      ap (λ m. map (node_at nodes) (take limit (drop skip m)))
        (ap (while_prefix key) (e.seek-view d key)
          ∙ while_prefix-from key key (e.view d) (starts_with_self key) o
          ∙ from_prefix key (e.view d)) in
    rw (secondary_test (mem k t.unique_keys) (mem k t.index_keys) sec, le→leb (length key) 2 l)
      (ap at_least_one (
        loop_skips nodes key skip limit h n (e.seek d key) 0 (omega arith)
        ∙ ap (λ n. map (node_at nodes) (take limit (drop n (while_prefix key (e.seek d key))))) all
        ∙ scanned))
