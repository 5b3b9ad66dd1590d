-- ===== src/Trans/Settings.antt =====
-- Proofs on Commit of src/store/StoreTrans.cc: the settings of the server.
use identt.Prelude.{
  ◌≡◌, refl, ◌∙◌, Bool, true, false, Option, none, some, arith, Bool-cases, inl, inr,
}
use identt.Messages.{Transaction}
use identt.Server.{World, Server, next}
use identt.Trans.{
  commit, commit_log, commit_data, commit_next, commit_logged, log_written, update_cache, push,
  stamped, is_empty,
}

module _ {Value Db : Type 0} (w : World Value Db) where
  log_written-lookup :
      (s : Server Value Db) (d : Option Db)
      → (log_written w s d).1.lookup_uses_local ≡ s.lookup_uses_local
  unfolding log_written
  log_written-lookup s none = refl
  log_written-lookup s (some d) = refl

  update_cache-lookup :
      (t : Transaction Value) (s : Server Value Db)
      → (update_cache w t s).1.lookup_uses_local ≡ s.lookup_uses_local
  unfolding update_cache
  update_cache-lookup t s = ground arith

  push-lookup :
      (b : Bool) (t : Transaction Value) (s : Server Value Db)
      → (push w b t s).lookup_uses_local ≡ s.lookup_uses_local
  unfolding push
  push-lookup b t s = ground arith

  commit_data-lookup :
      (t : Transaction Value) (s : Server Value Db)
      → (commit_data w t s).1.lookup_uses_local ≡ s.lookup_uses_local
  unfolding commit_data
  commit_data-lookup t s = elim (Bool-cases (is_empty t.item)) [
    | inl h ↦ rw h refl
    | inr h ↦ rw h (log_written-lookup s _)
  ]

  commit_log-lookup :
      (b : Bool) (t : Transaction Value) (s : Server Value Db)
      → (commit_log w b t s).1.lookup_uses_local ≡ s.lookup_uses_local
  unfolding commit_log
  commit_log-lookup b t s = elim (Bool-cases (is_empty t.item)) [
    | inl h ↦ rw h refl
    | inr h ↦ rw h (log_written-lookup (record s { logcounter = next s.logcounter }) _)
  ]

  commit_logged-lookup :
      (b : Bool) (t : Transaction Value) (r : Bool × Server Value Db)
      → (commit_logged w b t r).1.lookup_uses_local ≡ r.1.lookup_uses_local
  unfolding commit_logged
  commit_logged-lookup b t (false, s) = refl
  commit_logged-lookup b t (true, s) = update_cache-lookup t (push w b t s) ∙ push-lookup b t s

  commit_next-lookup :
      (b : Bool) (t : Transaction Value) (r : Bool × Server Value Db)
      → (commit_next w b t r).1.lookup_uses_local ≡ r.1.lookup_uses_local
  unfolding commit_next
  commit_next-lookup b t (false, s) = refl
  commit_next-lookup b t (true, s) =
      commit_logged-lookup b t (commit_data w t s) ∙ commit_data-lookup t s

  pub commit-lookup :
      (b : Bool) (t : Transaction Value) (s : Server Value Db)
      → (commit w b t s).1.lookup_uses_local ≡ s.lookup_uses_local
  unfolding commit
  commit-lookup b t s = elim (Bool-cases (is_empty t.item)) [
    | inl h ↦ rw h refl
    | inr h ↦ rw h (
        commit_next-lookup b (stamped w b (next s.logcounter) t) (commit_log w b t s)
        ∙ commit_log-lookup b t s)
  ]
