-- ===== src/Trans/Records.antt =====
-- Proofs on AddRecord and Commit together.
use identt.Prelude.{
  ℕ, ◌^◌, ◌<◌, ◌≡◌, ◌≢◌, inl, inr, refl, ap, sym, ◌∙◌, Bytes, List, [], ◌∷◌, ◌++◌, Bool, true,
  false, some, arith, beq_ne,
}
use identt.Exception.{ok}
use identt.Keys.{KeyType, k_lognode, encode_primary_key, uint_only}
use identt.Keys.Distinct.{key_type_ne}
use identt.Engine.Ordered.{lookup, lookup-insert}
use identt.Messages.{TransItem, blank_transaction}
use identt.Server.{World, Server}
use identt.Table.{Table, add_trans, dump_record, add_record}
use identt.Table.Laws.{IsTable, Holds, HasType}
use identt.Table.Indexed.{IsIndexed}
use identt.Table.Adds.{Added-of_add_record}
use identt.Table.Preserved.{add_record-IsIndexed}
use identt.Table.Frame.{OfTable, SameTable, same-IsIndexed, same_add_record}
use identt.Trans.{commit, is_empty}
use identt.Trans.Replay.{commit_writes}

module _ {Value Db T : Type 0} (w : World Value Db) (t : Table Value T) (laws : IsTable t) where
  last_not_empty : {A : Type 0} (xs : List A) (x : A) → is_empty (xs ++ x ∷ []) ≡ false
  last_not_empty [] x = refl
  last_not_empty (y ∷ xs) x = refl

  dump_has_items :
      (exists : Bool) (old r : T)
      → is_empty (dump_record w.engine w.nodes t exists old r []) ≡ false
  unfolding dump_record add_trans
  dump_has_items exists old r = last_not_empty _ _

  table_small : (k : KeyType) → OfTable w.engine w.nodes t laws k → k < 256
  table_small k (inl e) = omega (arith, e, laws.primary_small)
  table_small k (inr sec) = laws.secondary_small k sec

  -- A log entry is under no key of the table.
  log_key_apart :
      (id : ℕ) (key : Bytes) (k : KeyType)
      → OfTable w.engine w.nodes t laws k
      → k ≢ k_lognode
      → HasType key k
      → encode_primary_key k_lognode id ≢ key
  unfolding encode_primary_key
  log_key_apart id key k of ne (s, e) same =
      key_type_ne k_lognode k (uint_only id) s (omega arith) (table_small k of) (λ p. ne (sym p))
        (same ∙ e)

  -- The write of a log entry leaves the table.
  put_log-SameTable :
      (d f : Db) (id : ℕ) (v : Value)
      → ((k : KeyType) → OfTable w.engine w.nodes t laws k → k ≢ k_lognode)
      → w.engine.put d (encode_primary_key k_lognode id) v ≡ some f
      → SameTable w.engine w.nodes t laws d f
  put_log-SameTable d f id v apart p key k of typed =
      w.engine.get-view f key
      ∙ ap (lookup key) (w.engine.put-view d f (encode_primary_key k_lognode id) v p)
      ∙ lookup-insert (encode_primary_key k_lognode id) key v (w.engine.view d)
      ∙ rw
          (beq_ne (encode_primary_key k_lognode id) key
            (log_key_apart id key k of (apart k of) typed))
          (sym (w.engine.get-view d key))

  -- If `AddRecord` reports success on a consistent table, none of whose keys is a log key, and the
  -- commit of the transaction that it made succeeds, then the table is consistent in the new
  -- database, which holds the record under its id.
  pub commit-add_record :
      (s s' : Server Value Db) (r : T) (upsert b : Bool) (trans : List (TransItem Value))
      → ((k : KeyType) → OfTable w.engine w.nodes t laws k → k ≢ k_lognode)
      → IsIndexed w.engine w.nodes t s.db
      → t.id r < 2 ^ 64
      → add_record w.engine w.nodes t s.db r [] upsert ≡ ok (true, trans)
      → commit w b (record blank_transaction { item = trans }) s ≡ (ok tt, s')
      → IsIndexed w.engine w.nodes t s'.db × Holds w.engine t s'.db (t.id r) r
  commit-add_record s s' r upsert b trans apart x l added c =
      let a = Added-of_add_record w.engine w.nodes t laws s.db r upsert trans added in
      let items : is_empty trans ≡ false =
        ap is_empty a.is_dump ∙ dump_has_items a.exists a.old r in
      let (d, p, q) = commit_writes w b (record blank_transaction { item = trans }) s items s' c in
      let same = put_log-SameTable s.db d _ _ apart p in
      add_record-IsIndexed w.engine w.nodes t laws d s'.db r upsert trans
        (same-IsIndexed w.engine w.nodes t laws s.db d same x) l
        (same_add_record w.engine w.nodes t laws s.db d same r [] upsert ∙ added) q
