-- ===== src/Sync/CatchUp.antt =====
-- Proofs on SyncFirst and SyncFromMaster of src/hrpc/SyncServer.cc: the loop over an answer.
use identt.Prelude.{
  ℕ, zero, suc, ◌+◌, ◌-◌, ◌^◌, ◌≤◌, ◌<◌, ◌≡◌, refl, ap, sym, ◌∙◌, subst, List, [], ◌∷◌, true, false,
  ◌==◌, length, length-drop, take, drop, arith, Bool-cases, inl, inr,
}
use identt.Exception.{Result, ok, err}
use identt.Engine.Ordered.{Entries}
use identt.Messages.{Transaction, TransList}
use identt.Server.{continue-eq-ok, World, Server, next, continue}
use identt.Trans.{commit, stamped, is_empty}
use identt.Trans.Settings.{commit-lookup}
use identt.Trans.ReadLog.{read_log}
use identt.Trans.Replay.{replay, replayed, commit-replayed, commit-ok, Reliable}
use identt.Trans.Log.{IsLog, Numbered}
use identt.Trans.Pages.{read_log-IsLog, Numbered-drop}
use identt.Sync.{Network, apply_list, request, chunk_size}

-- Every transaction of the log has an item; `Commit` logs no other.
abbrev pub HaveItems : {Value : Type 0} → List (Transaction Value) → Type 0
HaveItems [] = Unit {0}
HaveItems (t ∷ ts) = (is_empty t.item ≡ false) × HaveItems ts

HaveItems-drop :
    {Value : Type 0} (n : ℕ) (ts : List (Transaction Value)) → HaveItems ts → HaveItems (drop n ts)
HaveItems-drop zero ts h = h
HaveItems-drop (suc n) [] h = tt
HaveItems-drop (suc n) (t ∷ ts) h = HaveItems-drop n ts h.1

take_all : {A : Type 0} (n : ℕ) (xs : List A) → length xs ≤ n → take n xs ≡ xs
take_all zero [] h = refl
take_all zero (x ∷ xs) h = absurd (omega arith)
take_all (suc n) [] h = refl
take_all (suc n) (x ∷ xs) h = ap (◌∷◌ x) (take_all n xs (omega arith))

abbrev trans_of : {Value : Type 0} → Result (TransList Value) → List (Transaction Value)
trans_of (ok l) = l.trans
trans_of (err x) = []

module _ {Value Db : Type 0} (w : World Value Db) (net : Network Value) where
  replay_split :
      (n : ℕ) (ts : List (Transaction Value)) (m : Entries Value)
      → replay w (drop n ts) (replay w (take n ts) m) ≡ replay w ts m
  unfolding replay
  replay_split zero ts m = refl
  replay_split (suc n) [] m = refl
  replay_split (suc n) (t ∷ ts) m = replay_split n ts (replayed w t m)

  -- A transaction with the next id is logged by a slave as it came.
  stamped_same : (t : Transaction Value) (id : ℕ) → t.id ≡ id → stamped w false id t ≡ t
  unfolding stamped
  stamped_same t id e = ap (λ i. record t { id = i }) (sym e)

  -- Transactions with the ids after the slave's log counter are all committed: the contents are
  -- replayed and the log counter moves by their number.
  pub apply_list-replay :
      (ts : List (Transaction Value)) (s s' : Server Value Db)
      → Numbered (suc s.logcounter) ts
      → HaveItems ts
      → suc s.logcounter + length ts ≤ 2 ^ 64
      → apply_list w net ts s ≡ (ok tt, s')
      → (w.engine.view s'.db ≡ replay w ts (w.engine.view s.db))
        × (s'.logcounter ≡ s.logcounter + length ts)
  unfolding apply_list replay
  apply_list-replay [] s s' n h l c = (cc c, omega (arith, ap (λ x. x.1.logcounter) c))
  apply_list-replay (t ∷ ts) s s' n h l c =
      let in_sync : (t.id == next s.logcounter) ≡ true = ground (arith, n.0) in
      let here : t.id ≡ next s.logcounter = omega (arith, n.0) in
      let (u, s1, first, rest) =
        continue-eq-ok (commit w false t s) (λ _. apply_list w net ts) (rw in_sync at c) in
      let r = commit-replayed w false t s s1 h.0 first in
      let moved : s1.logcounter ≡ suc s.logcounter = omega (arith, r.1, here, n.0) in
      let numbered : Numbered (suc s1.logcounter) ts =
        subst (λ i. Numbered (suc i) ts) (sym moved) n.1 in
      let later = apply_list-replay ts s1 s' numbered h.1 (omega arith) rest in
      (
        later.0
            ∙ ap (replay w ts) (
                r.0
                ∙ ap (λ x. replayed w x (w.engine.view s.db))
                    (stamped_same t (next s.logcounter) here)),
        omega (arith, later.1),
      )

  continue_done :
      (m : Result (Unit {0}) × Server Value Db)
      (f : Unit {0} → Server Value Db → Result (Unit {0}) × Server Value Db)
      → m.0 ≡ ok tt
      → ((s1 : Server Value Db) → m.1 ≡ s1 → (f tt s1).0 ≡ ok tt)
      → (continue m f).0 ≡ ok tt
  continue_done (ok a, s) f h g = g s refl
  continue_done (err x, s) f h g = absurd (cc h)

  -- On an engine that does not fail, and without a cache, the loop over an answer throws nothing.
  pub apply_list-ok :
      (ts : List (Transaction Value)) (s : Server Value Db)
      → Reliable w
      → s.lookup_uses_local ≡ false
      → (apply_list w net ts s).0 ≡ ok tt
  unfolding apply_list
  apply_list-ok [] s r off = refl
  apply_list-ok (t ∷ ts) s r off = elim (Bool-cases (t.id == next s.logcounter)) [
    | inl here ↦ rw here (
        continue_done (commit w false t s) (λ _. apply_list w net ts) (commit-ok w false t s r off)
          (λ s1 e.
            apply_list-ok ts s1 r
              (sym (ap (λ x. x.lookup_uses_local) e) ∙ commit-lookup w false t s ∙ off)))
    | inr stop ↦ rw stop refl
  ]

-- A slave asks for the log of its master and commits the answer. If the master's contents are its
-- log replayed from some contents, the slave's are a first part of that log replayed from the
-- same, the slave is not more than a chunk and one behind, and no commit fails, then the slave has
-- the contents and the log counter of the master.
pub catch_up :
    {Value Db Eb : Type 0} (v : World Value Db) (w : World Value Eb) (net : Network Value)
    (fence : Value) (first : ℕ) (ts : List (Transaction Value)) (base : Entries Value)
    (m : Server Value Db) (s s' : Server Value Eb) (data_ : TransList Value)
    → IsLog v fence first ts m
    → HaveItems ts
    → m.logcounter < 2 ^ 64
    → v.engine.view m.db ≡ replay w ts base
    → w.engine.view s.db ≡ replay w (take (suc s.logcounter - first) ts) base
    → first ≤ suc s.logcounter
    → 0 < s.logcounter
    → s.logcounter < m.logcounter
    → m.logcounter ≤ s.logcounter + suc chunk_size
    → read_log v m (request w net s) ≡ ok data_
    → apply_list w net data_.trans s ≡ (ok tt, s')
    → (w.engine.view s'.db ≡ v.engine.view m.db) × (s'.logcounter ≡ m.logcounter)
unfolding request
catch_up v w net fence first ts base m s s' data_ x h k all part a p b near answer applied =
    let n = suc s.logcounter - first in
    let page = drop n ts in
    let whole : take (suc chunk_size) page ≡ page =
      take_all (suc chunk_size) page (omega (arith, length-drop n ts, x.counter)) in
    let sent = read_log-IsLog v fence first ts m (request w net s) x a p b k in
    let same : data_.trans ≡ page = ap trans_of (sym answer ∙ sent) ∙ whole in
    let numbered : Numbered (suc s.logcounter) page =
      subst (λ i. Numbered i page) (omega arith) (Numbered-drop first n ts x.numbered) in
    let r =
      apply_list-replay w net page s s' numbered (HaveItems-drop n ts h)
        (omega (arith, length-drop n ts, x.counter))
        (subst (λ l. apply_list w net l s ≡ (ok tt, s')) same applied) in
    (
      r.0 ∙ ap (replay w page) part ∙ replay_split w net n ts base ∙ sym all,
      omega (arith, r.1, length-drop n ts, x.counter),
    )
