-- ===== src/Trans/Log.antt =====
-- The log in the database: the fence that `StoreLevel` puts, then the transactions under
-- consecutive ids.
use identt.Prelude.{
  ℕ, suc, ◌+◌, ◌^◌, ◌<◌, ◌≡◌, refl, ap, sym, ◌∙◌, subst, Bytes, List, [], ◌∷◌, ◌++◌, Bool, true,
  false, arith, length, length-append, beq_iff, starts_with, starts_with-append, ltb, Bool-cases,
  inl, inr,
}
use identt.Exception.{ok}
use identt.Keys.{k_lognode, encode_primary_key, encode_key_type, uint_only}
use identt.Keys.Order.{blt-encode_primary_key}
use identt.Engine.Ordered.{Entries, insert, apply, apply_op}
use identt.Engine.Sorted.{IsSorted, insert-IsSorted, apply-IsSorted, erase-IsSorted, with_prefix}
use identt.Engine.Scan.{with_prefix-insert, with_prefix-erase}
use identt.Messages.{Transaction, TransItem}
use identt.Table.{batch, batch_op}
use identt.Server.{World, Server, next}
use identt.Trans.{commit, stamped, is_empty}
use identt.Trans.Replay.{replayed, commit-replayed}

-- The key under which a transaction is logged.
abbrev pub log_key : ℕ → Bytes
log_key id = encode_primary_key k_lognode id

abbrev pub log_prefix : Bytes
log_prefix = encode_key_type k_lognode

-- Transactions with the ids `n`, `n + 1`, and so on.
abbrev pub Numbered : {Value : Type 0} → ℕ → List (Transaction Value) → Type 0
Numbered n [] = Unit {0}
Numbered n (t ∷ ts) = (t.id ≡ n) × Numbered (suc n) ts

-- No item's key is a log key, as for the items that tables make.
abbrev pub NoLogItems : {Value : Type 0} → List (TransItem Value) → Type 0
NoLogItems [] = Unit {0}
NoLogItems (i ∷ is) = (starts_with i.key log_prefix ≡ false) × NoLogItems is

pub log_key_prefix : (id : ℕ) → starts_with (log_key id) log_prefix ≡ true
unfolding encode_primary_key
log_key_prefix id = starts_with-append (encode_key_type k_lognode) (uint_only id)

pub Numbered-append :
    {Value : Type 0} (n : ℕ) (ts : List (Transaction Value)) (t : Transaction Value)
    → Numbered n ts
    → t.id ≡ n + length ts
    → Numbered n (ts ++ t ∷ [])
Numbered-append n [] t h e = (omega arith, tt)
Numbered-append n (u ∷ ts) t h e = (h.0, Numbered-append (suc n) ts t h.1 (omega arith))

module _ {Value Db : Type 0} (w : World Value Db) where
  unfoldable pub log_entries : List (Transaction Value) → Entries Value
  log_entries [] = []
  log_entries (t ∷ ts) = (log_key t.id, w.transaction.serialize t) ∷ log_entries ts

  -- The log of a server holds `ts` under the ids from `first` to its log counter.
  pub record IsLog (fence : Value) (first : ℕ) (ts : List (Transaction Value)) (s : Server Value Db)
      : Type 0 where
    pub sorted : IsSorted (w.engine.view s.db)
    pub entries : with_prefix log_prefix (w.engine.view s.db) ≡ (log_key 0, fence) ∷ log_entries ts
    pub numbered : Numbered first ts
    pub positive : 0 < first
    pub counter : suc s.logcounter ≡ first + length ts

  insert_last :
      (n id : ℕ) (v : Value) (ts : List (Transaction Value))
      → Numbered n ts
      → id ≡ n + length ts
      → id < 2 ^ 64
      → insert (log_key id) v (log_entries ts) ≡ log_entries ts ++ (log_key id, v) ∷ []
  unfolding insert log_entries
  insert_last n id v [] h e l = refl
  insert_last n id v (t ∷ ts) h e l =
      let below : ltb t.id id ≡ true = ground arith in
      let above : ltb id t.id ≡ false = ground arith in
      let small : t.id < 2 ^ 64 = omega arith in
      ground (
        arith,
        beq_iff (log_key t.id) (log_key id),
        blt-encode_primary_key k_lognode t.id id small l,
        blt-encode_primary_key k_lognode id t.id l small,
        blt-encode_primary_key k_lognode id id l l,
        insert_last (suc n) id v ts h.1 (omega arith) l,
      )

  insert_after_fence :
      (fence : Value) (n id : ℕ) (v : Value) (ts : List (Transaction Value))
      → Numbered n ts
      → 0 < n
      → id ≡ n + length ts
      → id < 2 ^ 64
      → insert (log_key id) v ((log_key 0, fence) ∷ log_entries ts)
        ≡ (log_key 0, fence) ∷ (log_entries ts ++ (log_key id, v) ∷ [])
  unfolding insert
  insert_after_fence fence n id v ts h p e l =
      let below : ltb 0 id ≡ true = ground arith in
      let above : ltb id 0 ≡ false = ground arith in
      ground (
        arith,
        beq_iff (log_key 0) (log_key id),
        blt-encode_primary_key k_lognode 0 id (omega arith) l,
        blt-encode_primary_key k_lognode id 0 l (omega arith),
        blt-encode_primary_key k_lognode id id l l,
        insert_last n id v ts h e l,
      )

  log_entries-append :
      (ts : List (Transaction Value)) (t : Transaction Value)
      → log_entries (ts ++ t ∷ [])
        ≡ log_entries ts ++ (log_key t.id, w.transaction.serialize t) ∷ []
  unfolding log_entries
  log_entries-append [] t = refl
  log_entries-append (u ∷ ts) t =
      ap (◌∷◌ (log_key u.id, w.transaction.serialize u)) (log_entries-append ts t)

  with_prefix-apply_op :
      (i : TransItem Value) (m : Entries Value)
      → starts_with i.key log_prefix ≡ false
      → IsSorted m
      → with_prefix log_prefix (apply_op (batch_op i) m) ≡ with_prefix log_prefix m
  unfolding apply_op batch_op
  with_prefix-apply_op i m h o = elim (Bool-cases i.to_del) [
    | inl d ↦ rw (d, with_prefix-erase log_prefix i.key m, h) refl
    | inr d ↦ rw (d, with_prefix-insert log_prefix i.key i.value m o, h) refl
  ]

  op-IsSorted :
      (i : TransItem Value) (m : Entries Value) → IsSorted m → IsSorted (apply_op (batch_op i) m)
  unfolding apply_op batch_op
  op-IsSorted i m o = elim (Bool-cases i.to_del) [
    | inl d ↦ rw d (erase-IsSorted i.key m o)
    | inr d ↦ rw d (insert-IsSorted i.key i.value m o)
  ]

  -- The items leave the log.
  with_prefix-batch :
      (is : List (TransItem Value)) (m : Entries Value)
      → NoLogItems is
      → IsSorted m
      → with_prefix log_prefix (apply (batch is) m) ≡ with_prefix log_prefix m
  unfolding batch apply
  with_prefix-batch [] m h o = refl
  with_prefix-batch (i ∷ is) m h o =
      with_prefix-batch is (apply_op (batch_op i) m) h.1 (op-IsSorted i m o)
      ∙ with_prefix-apply_op i m h.0 o

  -- A commit that succeeds, of items that are no log entries, appends the transaction as it was
  -- logged to the log, if the log ids do not run out.
  pub commit-IsLog :
      (fence : Value) (first : ℕ) (ts : List (Transaction Value)) (b : Bool) (t : Transaction Value)
      (s s' : Server Value Db)
      → IsLog fence first ts s
      → NoLogItems t.item
      → suc s.logcounter < 2 ^ 64
      → is_empty t.item ≡ false
      → commit w b t s ≡ (ok tt, s')
      → IsLog fence first (ts ++ stamped w b (next s.logcounter) t ∷ []) s'
  unfolding replayed stamped
  commit-IsLog fence first ts b t s s' x h l items c =
      let m = w.engine.view s.db in
      let id : next s.logcounter ≡ suc s.logcounter = omega arith in
      let u = stamped w b (next s.logcounter) t in
      let r = commit-replayed w b t s s' items c in
      let m' = insert (log_key u.id) (w.transaction.serialize u) m in
      let o = insert-IsSorted (log_key u.id) (w.transaction.serialize u) m x.sorted in
      record {
        sorted = subst IsSorted (sym r.0) (apply-IsSorted (batch t.item) m' o);
        entries =
            ap (with_prefix log_prefix) r.0
            ∙ with_prefix-batch t.item m' h o
            ∙ with_prefix-insert log_prefix (log_key u.id) (w.transaction.serialize u) m x.sorted
            ∙ rw (log_key_prefix u.id, x.entries)
                (insert_after_fence fence first u.id (w.transaction.serialize u) ts x.numbered
                    x.positive (omega (arith, x.counter)) (omega arith)
                  ∙ ap (◌∷◌ (log_key 0, fence)) (sym (log_entries-append ts u)));
        numbered = Numbered-append first ts u x.numbered (omega (arith, x.counter));
        positive = x.positive;
        counter = omega (arith, x.counter, r.1, length-append ts (u ∷ []));
      }
