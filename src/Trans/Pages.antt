-- ===== src/Trans/Pages.antt =====
-- Proofs on ReadLog of src/store/StoreTrans.cc.
use mathlib.Core.List.{append_assoc, append-nil}
use identt.Prelude.{
  ℕ, zero, suc, ◌+◌, ◌-◌, ◌^◌, ◌≤◌, ◌<◌, ◌≡◌, refl, ap, sym, ◌∙◌, subst, Bytes, List, [], ◌∷◌, ◌++◌,
  true, false, arith, length, take, drop, take_step, drop_step, starts_with, ltb, leb, ◌==◌,
  Bool-cases, Option-cases, drop-nil, take-nil, length-drop, inl, inr,
}
use identt.Exception.{ok}
use identt.Keys.{k_lognode}
use identt.Keys.Order.{blt-encode_primary_key}
use identt.Engine.Ordered.{Entries, from}
use identt.Engine.Sorted.{while_prefix}
use identt.Engine.Scan.{while_prefix-from}
use identt.Messages.{Transaction, TransList}
use identt.Server.{World, Server, next}
use identt.Trans.ReadLog.{read_loop, read_log, take_record, finish}
use identt.Trans.Log.{log_key, log_prefix, log_key_prefix, Numbered, log_entries, IsLog}

module _ {Value : Type 0} where
  pub Numbered-drop :
      (f k : ℕ) (ts : List (Transaction Value)) → Numbered f ts → Numbered (f + k) (drop k ts)
  Numbered-drop f zero ts h = subst (λ n. Numbered n ts) (omega arith) h
  Numbered-drop f (suc k) [] h = tt
  Numbered-drop f (suc k) (t ∷ ts) h =
      subst (λ n. Numbered n (drop k ts)) (omega arith) (Numbered-drop (suc f) k ts h.1)

  -- The transaction with the id `n` is at the place that its number says.
  drop_at :
      (f n : ℕ) (ts : List (Transaction Value))
      → Numbered f ts
      → f ≤ n
      → n < f + length ts
      → (t : Transaction Value) × (drop (n - f) ts ≡ t ∷ drop (suc n - f) ts) × (t.id ≡ n)
  drop_at f n [] h a b = absurd (omega arith)
  drop_at f n (t ∷ ts) h a b = elim (Bool-cases (f == n)) [
    | inl here ↦
        let z : n - f ≡ 0 = ground arith in
        let one : suc n - f ≡ 1 = ground arith in (t, rw (z, one) refl, ground (arith, h.0))
    | inr later ↦
        let above : suc f ≤ n = ground arith in
        let (u, e, i) = drop_at (suc f) n ts h.1 above (omega arith) in
        let one : n - f - 1 ≡ n - suc f = omega arith in
        let two : suc n - f - 1 ≡ suc n - suc f = omega arith in
        (
          u,
          rw
              (
                drop_step (n - f) t ts (omega arith),
                drop_step (suc n - f) t ts (omega arith),
                one,
                two,
              )
              e,
          i,
        )
  ]

  -- The list after a page has been read into it.
  abbrev pub paged : ℕ → TransList Value → List (Transaction Value) → ℕ × TransList Value
  paged counter tlist page = (
    counter + length page,
    record tlist { lastid = tlist.lastid + length page; trans = tlist.trans ++ page },
  )

module _ {Value Db : Type 0} (w : World Value Db) where
  from-log_entries :
      (f n : ℕ) (ts : List (Transaction Value))
      → Numbered f ts
      → f + length ts ≤ 2 ^ 64
      → n < 2 ^ 64
      → from (log_key n) (log_entries w ts) ≡ log_entries w (drop (n - f) ts)
  unfolding from log_entries
  from-log_entries f n [] h l k = ap (log_entries w) (sym (drop-nil (n - f)))
  from-log_entries f n (t ∷ ts) h l k = elim (Bool-cases (ltb f n)) [
    | inl below ↦
        let one : n - f - 1 ≡ n - suc f = omega arith in
        let earlier : ltb t.id n ≡ true = ground arith in
        rw (blt-encode_primary_key k_lognode t.id n (omega arith) k, earlier)
          (from-log_entries (suc f) n ts h.1 (omega arith) k)
        ∙ ap (log_entries w) (sym (drop_step (n - f) t ts (ground arith) ∙ ap (λ i. drop i ts) one))
    | inr here ↦
        let z : 0 ≡ n - f = ground arith in
        let later : ltb t.id n ≡ false = ground arith in
        rw (blt-encode_primary_key k_lognode t.id n (omega arith) k, later) refl
        ∙ ap (λ i. log_entries w (drop i (t ∷ ts))) z
  ]

  -- The loop stops by itself at the first entry without the prefix.
  read_loop-while_prefix :
      (p : Bytes) (c : ℕ) (l : TransList Value) (m : Entries Value)
      → read_loop w p c l m ≡ read_loop w p c l (while_prefix p m)
  unfolding read_loop while_prefix
  read_loop-while_prefix p c l [] = refl
  read_loop-while_prefix p c l ((k, v) ∷ m) = elim (Bool-cases (starts_with k p)) [
    | inl h ↦ elim (Option-cases (w.transaction.parse v)) [
      | inl q ↦ rw (h, h, q) (read_loop-while_prefix p c l m)
      | inr (r, q) ↦
          rw
            (
              h,
              h,
              q,
              read_loop-while_prefix p c l m,
              read_loop-while_prefix p (suc c) (take_record r l) m,
            )
            refl
    ]
    | inr h ↦ rw h refl
  ]

  -- One more transaction in front of a page.
  paged_step :
      (c : ℕ) (l : TransList Value) (t : Transaction Value) (page : List (Transaction Value))
      → t.id ≡ suc l.lastid
      → paged (suc c) (take_record t l) page ≡ paged c l (t ∷ page)
  unfolding take_record
  paged_step c l t page e =
      let count : suc c + length page ≡ c + suc (length page) = omega arith in
      let last : t.id + length page ≡ l.lastid + suc (length page) = omega arith in
      rw (count, last, append_assoc l.trans (t ∷ []) page) refl

  paged_nil : (c : ℕ) (l : TransList Value) → (c, l) ≡ paged c l []
  paged_nil c l =
      let count : c + 0 ≡ c = omega arith in
      let last : l.lastid + 0 ≡ l.lastid = omega arith in rw (count, last, append-nil l.trans) refl

  -- The loop takes what follows in the log, until the counter has passed the limit.
  read_loop_page :
      (c : ℕ) (l : TransList Value) (ts : List (Transaction Value))
      → Numbered (suc l.lastid) ts
      → suc l.lastid + length ts ≤ 2 ^ 64
      → c ≤ l.limit
      → read_loop w log_prefix c l (log_entries w ts) ≡ paged c l (take (suc l.limit - c) ts)
  unfolding read_loop log_entries take_record
  read_loop_page c l [] h b k = paged_nil c l ∙ ap (paged c l) (sym (take-nil (suc l.limit - c)))
  read_loop_page c l (t ∷ ts) h b k =
      let skip : (t.id == l.lastid) ≡ false = ground (arith, h.0) in
      let numbered : (next l.lastid == t.id) ≡ true = ground (arith, h.0) in
      let rest = take_step (suc l.limit - c) t ts (omega arith) in
      rw (log_key_prefix t.id, w.transaction.parse-serialize t, skip, numbered)
        (elim (Bool-cases (ltb l.limit (suc c))) [
          | inl full ↦
              let one : suc l.limit - c - 1 ≡ 0 = ground arith in
              rw full (paged_nil (suc c) (take_record t l))
              ∙ paged_step c l t [] h.0
              ∙ ap (paged c l) (sym (rest ∙ ap (λ i. t ∷ take i ts) one))
          | inr more ↦
              let one : suc l.limit - c - 1 ≡ suc l.limit - suc c = omega arith in
              let later : Numbered (suc t.id) ts = subst (λ n. Numbered (suc n) ts) (sym h.0) h.1 in
              rw more (
                read_loop_page (suc c) (take_record t l) ts later (omega (arith, h.0))
                  (ground arith))
              ∙ paged_step c l t (take (suc l.limit - suc c) ts) h.0
              ∙ ap (paged c l) (sym (rest ∙ ap (λ i. t ∷ take i ts) one))
        ])

  -- An entry of the transaction that the slave has last is skipped.
  skip_own :
      (l : TransList Value) (t : Transaction Value) (ts : List (Transaction Value))
      → t.id ≡ l.lastid
      → read_loop w log_prefix 0 l (log_entries w (t ∷ ts))
        ≡ read_loop w log_prefix 0 l (log_entries w ts)
  unfolding read_loop log_entries
  skip_own l t ts e =
      let own : (t.id == l.lastid) ≡ true = ground arith in
      rw (log_key_prefix t.id, w.transaction.parse-serialize t, own) refl

  -- From the transactions at or after the last one of the slave, the loop takes those after it.
  read_loop_log :
      (f : ℕ) (l : TransList Value) (ts : List (Transaction Value))
      → Numbered f ts
      → f ≤ suc l.lastid
      → l.lastid < f + length ts
      → f + length ts ≤ 2 ^ 64
      → read_loop w log_prefix 0 l (log_entries w (drop (l.lastid - f) ts))
        ≡ paged 0 l (take (suc l.limit) (drop (suc l.lastid - f) ts))
  read_loop_log f l ts h a b k =
      let all : suc l.limit - 0 ≡ suc l.limit = omega arith in
      let page =
        read_loop_page 0 l (drop (suc l.lastid - f) ts)
          (subst (λ n. Numbered n (drop (suc l.lastid - f) ts)) (omega arith)
            (Numbered-drop f (suc l.lastid - f) ts h))
          (omega (arith, length-drop (suc l.lastid - f) ts)) (omega arith)
        ∙ ap (λ i. paged 0 l (take i (drop (suc l.lastid - f) ts))) all in
      elim (Bool-cases (leb f l.lastid)) [
        | inl there ↦
            let (t, e, i) = drop_at f l.lastid ts h (ground arith) b in
            rw e (skip_own l t (drop (suc l.lastid - f) ts) i ∙ page)
        | inr first ↦ let same : l.lastid - f ≡ suc l.lastid - f = ground arith in rw same page
      ]

  -- What `ReadLog` sends for a page of the log.
  abbrev pub answered :
      Server Value Db → TransList Value → List (Transaction Value) → TransList Value
  answered s l page = record l {
    lastid = l.lastid + length page;
    limit = length page - 1;
    trans = l.trans ++ page;
    currid = s.logcounter;
    ts = w.currtime;
  }

  finish_page :
      (s : Server Value Db) (l : TransList Value) (t : Transaction Value)
      (ts : List (Transaction Value))
      → finish w s.logcounter (paged 0 l (t ∷ ts)) ≡ answered s l (t ∷ ts)
  unfolding finish
  finish_page s l t ts =
      let there : ltb 0 (0 + length (t ∷ ts)) ≡ true = ground arith in
      let count : 0 + length (t ∷ ts) - 1 ≡ length (t ∷ ts) - 1 = omega arith in
      rw (there, count) refl

  skip_fence :
      (fence : Value) (n : ℕ) (ts : List (Transaction Value))
      → 0 < n
      → n < 2 ^ 64
      → from (log_key n) ((log_key 0, fence) ∷ log_entries w ts)
        ≡ from (log_key n) (log_entries w ts)
  unfolding from
  skip_fence fence n ts p h =
      let below : ltb 0 n ≡ true = ground arith in
      rw (blt-encode_primary_key k_lognode 0 n (omega arith) h, below) refl

  -- What the loop reads from the place that `ReadLog` seeks.
  read_loop_seek :
      (fence : Value) (first : ℕ) (ts : List (Transaction Value)) (s : Server Value Db)
      (l : TransList Value)
      → IsLog w fence first ts s
      → first ≤ suc l.lastid
      → 0 < l.lastid
      → l.lastid < s.logcounter
      → s.logcounter < 2 ^ 64
      → read_loop w log_prefix 0 l (w.engine.seek s.db (log_key l.lastid))
        ≡ paged 0 l (take (suc l.limit) (drop (suc l.lastid - first) ts))
  read_loop_seek fence first ts s l x a p b k =
      let n = l.lastid in
      read_loop-while_prefix log_prefix 0 l (w.engine.seek s.db (log_key n))
      ∙ ap (read_loop w log_prefix 0 l) (
          ap (while_prefix log_prefix) (w.engine.seek-view s.db (log_key n))
          ∙ while_prefix-from log_prefix (log_key n) (w.engine.view s.db) (log_key_prefix n)
              x.sorted
          ∙ ap (from (log_key n)) x.entries
          ∙ skip_fence fence n ts p (omega arith)
          ∙ from-log_entries first n ts x.numbered (omega (arith, x.counter)) (omega arith))
      ∙ read_loop_log first l ts x.numbered a (omega (arith, x.counter)) (omega (arith, x.counter))

  -- For a slave that is behind the log counter and not before the first transaction of the log,
  -- `ReadLog` returns the transactions after the slave's last one, in order and without a gap: all
  -- of them, or as many as the limit and one. Its `lastid` is the id of the last one returned.
  pub read_log-IsLog :
      (fence : Value) (first : ℕ) (ts : List (Transaction Value)) (s : Server Value Db)
      (l : TransList Value)
      → IsLog w fence first ts s
      → first ≤ suc l.lastid
      → 0 < l.lastid
      → l.lastid < s.logcounter
      → s.logcounter < 2 ^ 64
      → read_log w s l ≡ ok (answered s l (take (suc l.limit) (drop (suc l.lastid - first) ts)))
  unfolding read_log
  read_log-IsLog fence first ts s l x a p b k =
      let (t, e, i) = drop_at first (suc l.lastid) ts x.numbered a (omega (arith, x.counter)) in
      let behind : ltb s.logcounter l.lastid ≡ false = ground arith in
      let differ : (l.lastid == s.logcounter) ≡ false = ground arith in
      rw (behind, differ, read_loop_seek fence first ts s l x a p b k)
        (rw e (ap ok (finish_page s l t (take l.limit (drop (suc (suc l.lastid) - first) ts)))))
