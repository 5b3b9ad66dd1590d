-- ===== src/Tests/StartTests.antt =====
-- Instances of the theorems on the start of a server.
use identt.Prelude.{◌≡◌, refl, ap, Bytes, [], ◌∷◌, some, arith, codes, starts_with, blt, subst}
use identt.Exception.{ok}
use identt.Keys.{k_lognode, encode_primary_key, encode_key_type, uint_only}
use identt.Keys.Hex.{hex}
use identt.Engine.Sorted.{with_prefix}
use identt.Messages.{Transaction, blank_transaction}
use identt.Server.{Server}
use identt.Services.Numbers.{stoul}
use identt.Startup.{init}
use identt.Startup.Fences.{IsStore, Puts, primary-IsKeyed}
use identt.Startup.Begin.{Opens, init-IsLog, init_new-IsLog, begun}
use identt.Startup.NewIds.{FreshIds, init-FreshIds}
use identt.Trans.Log.{IsLog, log_key, log_entries}
use identt.Tests.Memory.{Memory, Blob, empty, transaction_codec}
use identt.Tests.TransTests.{world, server}

abbrev logged : Transaction Blob
logged = record blank_transaction { id = 2; ts = 1001 }

-- A database that a server has left, with one transaction in its log.
abbrev left : Memory
left = (log_key 0, empty) ∷ (log_key 2, transaction_codec.serialize logged) ∷ []

abbrev before_stop : Server Blob Memory
before_stop = record server { db = left; logcounter = 2 }

left-IsStore : IsStore left
unfolding blt encode_primary_key encode_key_type hex uint_only
left-IsStore = record {
  sorted = ((refl, tt), (tt, tt));
  keyed = (
    primary-IsKeyed k_lognode 0 (omega arith) (omega arith),
    (primary-IsKeyed k_lognode 2 (omega arith) (omega arith), tt),
  );
}

left-IsLog : IsLog world empty 2 (logged ∷ []) before_stop
unfolding with_prefix starts_with blt encode_primary_key encode_key_type hex uint_only log_entries
left-IsLog = record {
  sorted = ((refl, tt), (tt, tt));
  entries = refl;
  numbered = (refl, tt);
  positive = omega arith;
  counter = refl;
}

puts : Puts world
puts d k v h = cc h

abbrev directory : Bytes
directory = codes "/var/identt"

size_read : stoul (codes "64") ≡ ok 64
unfolding stoul
size_read = refl

-- The parameters open the database `d`.
opens :
    (d : Memory)
    → Opens world (λ name size. some d) (λ seed. ok tt) directory (codes "64") (codes "seed") d
opens d = record { size = 64; size_read = size_read; named = refl; opened = refl; key_made = refl }

init-IsLog_example :
    ((init world
        (λ name size. some left)
        (λ seed. ok tt)
        (directory ∷ codes "64" ∷ codes "seed" ∷ [])
        server).0
      ≡ ok tt)
    × IsLog world empty 2 (logged ∷ []) (
        begun world
          (λ name size. some left)
          (λ seed. ok tt)
          directory
          (codes "64")
          (codes "seed")
          left
          (opens left)
          server
          refl)
    × ((begun world
          (λ name size. some left)
          (λ seed. ok tt)
          directory
          (codes "64")
          (codes "seed")
          left
          (opens left)
          server
          refl).logcounter
        ≡ 2)
init-IsLog_example =
    init-IsLog world (λ name size. some left) (λ seed. ok tt) directory (codes "64") (codes "seed")
      left (opens left) server refl empty (logged ∷ []) before_stop puts refl left-IsStore
      left-IsLog (omega arith)

init_new-IsLog_example :
    ((init world
        (λ name size. some [])
        (λ seed. ok tt)
        (directory ∷ codes "64" ∷ codes "seed" ∷ [])
        server).0
      ≡ ok tt)
    × IsLog world empty 2 [] (
        begun world
          (λ name size. some [])
          (λ seed. ok tt)
          directory
          (codes "64")
          (codes "seed")
          []
          (opens [])
          server
          refl)
    × ((begun world
          (λ name size. some [])
          (λ seed. ok tt)
          directory
          (codes "64")
          (codes "seed")
          []
          (opens [])
          server
          refl).logcounter
        ≡ 1)
init_new-IsLog_example =
    init_new-IsLog world (λ name size. some []) (λ seed. ok tt) directory (codes "64")
      (codes "seed") [] (opens []) server refl puts refl

abbrev restarted : Server Blob Memory
restarted =
    (init world (λ name size. some left) (λ seed. ok tt)
      (directory ∷ codes "64" ∷ codes "seed" ∷ []) server).1

starts :
    init world
      (λ name size. some left)
      (λ seed. ok tt)
      (directory ∷ codes "64" ∷ codes "seed" ∷ [])
      server
    ≡ (ok tt, restarted)
starts = ap (λ x. (x, restarted)) init-IsLog_example.0

nonempty_db : (d : Memory) → some left ≡ some d → IsStore d
nonempty_db d h = subst IsStore (cc h) left-IsStore

init-FreshIds_example : FreshIds world (λ name size. some left) (λ seed. ok tt) restarted
init-FreshIds_example =
    init-FreshIds world (λ name size. some left) (λ seed. ok tt) directory (codes "64")
      (codes "seed") server restarted (λ size d h. nonempty_db d h) starts
