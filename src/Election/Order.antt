-- ===== src/Election/Order.antt =====
-- The order of candidates in which an election looks for the greatest: the log counter, then the
-- address.
use identt.Prelude.{
  ℕ, ◌≡◌, Bytes, Bool, true, false, ◌&&◌, ◌||◌, not, ◌==◌, ltb, beq, beq_iff, blt, blt_trans,
  blt_connex, blt_irrefl, arith, Bool-cases, inl, inr,
}
use identt.Server.{Remote}
use identt.Election.{Candidate, beats, consider}

abbrev pub candidate : Remote → Candidate
candidate r = record { logcounter = r.logcounter; address = r.address }

-- The first is not after the second.
unfoldable pub at_most : Candidate → Candidate → Bool
at_most a b =
    ltb a.logcounter b.logcounter || a.logcounter == b.logcounter && not (blt b.address a.address)

pub at_most_refl : (a : Candidate) → at_most a a ≡ true
unfolding at_most
at_most_refl a = ground (arith, blt_irrefl a.address)

not_below_trans : (a b c : Bytes) → blt b a ≡ false → blt c b ≡ false → blt c a ≡ false
not_below_trans a b c h k = elim (Bool-cases (blt c a)) [
  | inr done ↦ done
  | inl below ↦ elim (Bool-cases (blt b c)) [
    | inl up ↦ cc (blt_trans b c a up below, h)
    | inr level ↦ cc (blt_connex b c level k, below, h)
  ]
]

pub at_most_trans :
    (a b c : Candidate) → at_most a b ≡ true → at_most b c ≡ true → at_most a c ≡ true
unfolding at_most
at_most_trans a b c h k = ground (
  arith,
  λ (p : blt b.address a.address ≡ false) (q : blt c.address b.address ≡ false).
      not_below_trans a.address b.address c.address p q,
)

pub at_most_antisym : (a b : Candidate) → at_most a b ≡ true → at_most b a ≡ true → a ≡ b
unfolding at_most
at_most_antisym a b h k =
    let same : a.logcounter ≡ b.logcounter = ground arith in
    let low : blt a.address b.address ≡ false = ground arith in
    let high : blt b.address a.address ≡ false = ground arith in
    cc (same, blt_connex a.address b.address low high)

blt_asym : (a b : Bytes) → blt a b ≡ true → blt b a ≡ false
blt_asym a b h = elim (Bool-cases (blt b a)) [
  | inl k ↦ cc (blt_trans a b a h k, blt_irrefl a)
  | inr k ↦ k
]

-- A turn of the election never lowers the candidate.
pub consider_raises :
    (cutoff : ℕ) (c : Candidate) (r : Remote) → at_most c (consider cutoff c r) ≡ true
unfolding consider beats at_most
consider_raises cutoff c r = ground (
  arith,
  blt_irrefl c.address,
  λ (p : blt c.address r.address ≡ true). blt_asym c.address r.address p,
)

-- After a turn the candidate is at least the remote of the turn, if that is not too old and does
-- not bear the candidate's own address with a greater counter.
pub consider_covers :
    (cutoff : ℕ) (c : Candidate) (r : Remote)
    → ltb r.updated_at cutoff ≡ false
    → (beq r.address c.address ≡ true → ltb c.logcounter r.logcounter ≡ false)
    → at_most (candidate r) (consider cutoff c r) ≡ true
unfolding consider beats at_most
consider_covers cutoff c r fresh own =
    ground (arith, own, blt_irrefl c.address, blt_irrefl r.address, beq_iff r.address c.address)
