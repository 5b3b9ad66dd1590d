-- ===== src/Election/Agreement.antt =====
-- Proofs on the election of src/hrpc/RemoteKeeper.cc, for several servers.
use identt.Prelude.{
  ℕ, ◌≡◌, ◌≢◌, ◌⊎◌, ◌↔◌, refl, ap, sym, ◌∙◌, Bytes, List, [], ◌∷◌, Bool, true, false, ◌||◌, ltb,
  beq, beq_iff, arith, Bool-cases, inl, inr, zero, suc, subst,
}
use identt.Server.{World, Server, Remote}
use identt.Election.{
  Candidate, State, blank_state, beats, consider, elect, master_update, take_office,
  register_retries, get_hosts,
}
use identt.Election.Order.{
  candidate, at_most, at_most_refl, at_most_trans, at_most_antisym, consider_raises,
  consider_covers,
}

abbrev pub Among : Remote → List Remote → Type 0
Among r [] = ⊥
Among r (q ∷ rs) = (r ≡ q) ⊎ Among r rs

-- No remote has the address.
abbrev pub Absent : Bytes → List Remote → Type 0
Absent a [] = Unit {0}
Absent a (r ∷ rs) = (beq r.address a ≡ false) × Absent a rs

-- The addresses differ, as the keys of a map do.
abbrev pub Distinct : List Remote → Type 0
Distinct [] = Unit {0}
Distinct (r ∷ rs) = Absent r.address rs × Distinct rs

-- A remote with the candidate's address has no greater counter.
abbrev pub NotAhead : Candidate → List Remote → Type 0
NotAhead c [] = Unit {0}
NotAhead c (r ∷ rs) =
    (beq r.address c.address ≡ true → ltb c.logcounter r.logcounter ≡ false) × NotAhead c rs

-- Who stands for the election: the server itself, and the remotes that are not too old.
abbrev pub Stands : ℕ → Candidate → List Remote → Candidate → Type 0
Stands cutoff c rs x =
    (x ≡ c) ⊎ ((r : Remote) × Among r rs × (ltb r.updated_at cutoff ≡ false) × (x ≡ candidate r))

NotAhead-Absent : (c : Candidate) (rs : List Remote) → Absent c.address rs → NotAhead c rs
NotAhead-Absent c [] a = tt
NotAhead-Absent c (r ∷ rs) a = (λ e. absurd (cc (e, a.0)), NotAhead-Absent c rs a.1)

-- The candidate after a turn is the one before or the remote of the turn.
consider_choice :
    (cutoff : ℕ) (c : Candidate) (r : Remote)
    → (consider cutoff c r ≡ c)
      ⊎ ((ltb r.updated_at cutoff ≡ false) × (consider cutoff c r ≡ candidate r))
unfolding consider
consider_choice cutoff c r =
    elim (Bool-cases
      (ltb r.updated_at cutoff || (ltb r.logcounter c.logcounter || beq r.address c.address))) [
        | inl h ↦ inl (rw h refl)
        | inr h ↦ elim (Bool-cases (beats r c)) [
          | inl k ↦ inr (ground arith, rw (h, k) refl)
          | inr k ↦ inl (rw (h, k) refl)
        ]
      ]

NotAhead-consider :
    (cutoff : ℕ) (c : Candidate) (r : Remote) (rs : List Remote)
    → Absent r.address rs
    → NotAhead c rs
    → NotAhead (consider cutoff c r) rs
NotAhead-consider cutoff c r rs a h = elim (consider_choice cutoff c r) [
  | inl e ↦ subst (λ x. NotAhead x rs) (sym e) h
  | inr (f, e) ↦ subst (λ x. NotAhead x rs) (sym e) (NotAhead-Absent (candidate r) rs a)
]

elect_raises :
    (cutoff : ℕ) (c : Candidate) (rs : List Remote) → at_most c (elect cutoff c rs) ≡ true
unfolding elect
elect_raises cutoff c [] = at_most_refl c
elect_raises cutoff c (r ∷ rs) =
    at_most_trans c (consider cutoff c r) (elect cutoff (consider cutoff c r) rs)
      (consider_raises cutoff c r) (elect_raises cutoff (consider cutoff c r) rs)

elect_covers :
    (cutoff : ℕ) (c : Candidate) (rs : List Remote) (r : Remote)
    → Distinct rs
    → NotAhead c rs
    → Among r rs
    → ltb r.updated_at cutoff ≡ false
    → at_most (candidate r) (elect cutoff c rs) ≡ true
unfolding elect
elect_covers cutoff c [] r d h m f = absurd m
elect_covers cutoff c (q ∷ rs) r d h (inl e) f =
    at_most_trans (candidate r) (consider cutoff c q) (elect cutoff (consider cutoff c q) rs)
      (subst (λ x. at_most (candidate x) (consider cutoff c q) ≡ true) (sym e)
        (consider_covers cutoff c q (subst (λ x. ltb x.updated_at cutoff ≡ false) e f) h.0))
      (elect_raises cutoff (consider cutoff c q) rs)
elect_covers cutoff c (q ∷ rs) r d h (inr m) f =
    elect_covers cutoff (consider cutoff c q) rs r d.1 (NotAhead-consider cutoff c q rs d.0 h.1) m f

-- The elected candidate is at least every one that stands, if the addresses of the remotes differ
-- and no remote with the server's own address has a greater counter than the server.
pub elect_greatest :
    (cutoff : ℕ) (c : Candidate) (rs : List Remote) (x : Candidate)
    → Distinct rs
    → NotAhead c rs
    → Stands cutoff c rs x
    → at_most x (elect cutoff c rs) ≡ true
elect_greatest cutoff c rs x d h (inl e) =
    subst (λ y. at_most y (elect cutoff c rs) ≡ true) (sym e) (elect_raises cutoff c rs)
elect_greatest cutoff c rs x d h (inr (r, m, f, e)) =
    subst (λ y. at_most y (elect cutoff c rs) ≡ true) (sym e) (elect_covers cutoff c rs r d h m f)

-- The elected candidate stands for the election.
pub elect-Stands :
    (cutoff : ℕ) (c : Candidate) (rs : List Remote) → Stands cutoff c rs (elect cutoff c rs)
unfolding elect
elect-Stands cutoff c [] = inl refl
elect-Stands cutoff c (r ∷ rs) = elim (elect-Stands cutoff (consider cutoff c r) rs) [
  | inr (q, m, f, e) ↦ inr (q, inr m, f, e)
  | inl e ↦ elim (consider_choice cutoff c r) [
    | inl k ↦ inl (e ∙ k)
    | inr (f, k) ↦ inr (r, inl refl, f, e ∙ k)
  ]
]

-- Two servers for whose elections the same candidates stand elect the same one, in whatever order
-- they keep the remotes, under the conditions of each election.
pub elect_agree :
    (p q : ℕ) (a b : Candidate) (rs qs : List Remote)
    → Distinct rs
    → NotAhead a rs
    → Distinct qs
    → NotAhead b qs
    → ((x : Candidate) → Stands p a rs x ↔ Stands q b qs x)
    → elect p a rs ≡ elect q b qs
elect_agree p q a b rs qs d h e k same =
    at_most_antisym (elect p a rs) (elect q b qs)
      (elect_greatest q b qs (elect p a rs) e k ((same (elect p a rs)).0 (elect-Stands p a rs)))
      (elect_greatest p a rs (elect q b qs) d h ((same (elect q b qs)).1 (elect-Stands q b qs)))

module _ {Value Db : Type 0} (w : World Value Db) where
  register_retries-is_master :
      (registers : ℕ → Bytes → State → Bool) (left : ℕ) (m : Bytes) (state : State)
      (s : Server Value Db)
      → (register_retries w registers left m state s).is_master ≡ s.is_master
  unfolding register_retries
  register_retries-is_master registers zero m state s = refl
  register_retries-is_master registers (suc left) m state s =
      ground (arith, register_retries-is_master registers left m state s)

  -- `MasterUpdate` makes a slave the master only if it has elected the slave's own url.
  pub master_update-is_master :
      (registers : ℕ → Bytes → State → Bool) (cutoff : ℕ) (s : Server Value Db)
      → s.is_master ≡ false
      → (master_update w registers cutoff s).is_master
        ≡ beq
            (elect cutoff
              (record { logcounter = s.logcounter; address = s.thisurl })
              s.remotes).address
            s.thisurl
  unfolding master_update take_office
  master_update-is_master registers cutoff s slave =
      let start : Candidate = record { logcounter = s.logcounter; address = s.thisurl } in
      let m = (elect cutoff start s.remotes).address in
      elim (Bool-cases (beq m s.thisurl)) [
        | inl own ↦ rw own refl
        | inr other ↦
            rw other
              (register_retries-is_master registers 10 m (get_hosts w blank_state s) s ∙ slave)
      ]

-- Of two slaves with different urls for whose elections the same candidates stand, at most one
-- makes itself the master.
pub one_master :
    {Value Db Eb : Type 0} (v : World Value Db) (w : World Value Eb)
    (registers : ℕ → Bytes → State → Bool) (p q : ℕ) (s : Server Value Db) (u : Server Value Eb)
    → s.is_master ≡ false
    → u.is_master ≡ false
    → s.thisurl ≢ u.thisurl
    → Distinct s.remotes
    → NotAhead (record { logcounter = s.logcounter; address = s.thisurl }) s.remotes
    → Distinct u.remotes
    → NotAhead (record { logcounter = u.logcounter; address = u.thisurl }) u.remotes
    → ((x : Candidate)
        → Stands p (record { logcounter = s.logcounter; address = s.thisurl }) s.remotes x
          ↔ Stands q (record { logcounter = u.logcounter; address = u.thisurl }) u.remotes x)
    → (master_update v registers p s).is_master ≡ true
    → (master_update w registers q u).is_master ≢ true
one_master v w registers p q s u a b ne d h e k same mine yours =
    let c : Candidate = record { logcounter = s.logcounter; address = s.thisurl } in
    let f : Candidate = record { logcounter = u.logcounter; address = u.thisurl } in
    let agree = elect_agree p q c f s.remotes u.remotes d h e k same in
    let one =
      (beq_iff (elect p c s.remotes).address s.thisurl).0
        (sym (master_update-is_master v registers p s a) ∙ mine) in
    let two =
      (beq_iff (elect q f u.remotes).address u.thisurl).0
        (sym (master_update-is_master w registers q u b) ∙ yours) in
    ne (sym one ∙ ap (λ x. x.address) agree ∙ two)
