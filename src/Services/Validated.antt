-- ===== src/Services/Validated.antt =====
-- Proofs on GetValidated3pidAction of src/store/ThreePidService.cc.
use identt.Prelude.{
  ◌∙◌, ap, sym, subst, Bool, beq, ==_iff, Bool-cases, inl, inr, ltb, ◌+◌, ◌%◌, ◌≢◌, ℕ, ◌^◌, ◌<◌,
  ◌≡◌, refl, true, false, ◌==◌, beq_iff, arith,
}
use identt.Exception.{ok}
use identt.Server.{Action, bind-eq-ok, lift, get, return, ◌>>=◌, World, Server}
use identt.Trans.{is_empty}
use identt.Table.{get_one}
use identt.Table.Laws.{Holds}
use identt.Table.Reads.{fetch-Holds}
use identt.Table.Indexed.{IsIndexed}
use identt.Tables.Records.{ValidationSession, blank_validation_session}
use identt.Tables.Unique.{validation_session_table}
use identt.Tables.UniqueLaws.{validation_session_table-IsTable}
use identt.Services.Requests.{ValidatedAt, SubmitToken, session_lifetime, Outcome}
use identt.Services.Numbers.{stoul}
use identt.Services.Common.{find_session, check_session}
use identt.Services.ThreePid.{get_validated_3pid, check_request}
use identt.Services.Validate.{validate}
use identt.Services.Sessions.{validate_lem, lift_ok}

module _ {Value Db : Type 0} (w : World Value Db) where
  find_session-Holds :
      (sid : ℕ) (s : Server Value Db) (session : ValidationSession)
      → Holds w.engine (validation_session_table w.validation_session) s.db sid session
      → find_session w sid s ≡ ok (true, session)
  unfolding find_session get_one
  find_session-Holds sid s session h =
      fetch-Holds w.engine w.nodes (validation_session_table w.validation_session)
        (validation_session_table-IsTable w.validation_session) s.db
        (record blank_validation_session { id = sid }) session h

  -- A session whose secret is the one of the request and that is validated passes the checks.
  session_passes :
      (subtok : SubmitToken) (session : ValidationSession)
      → session.client_secret ≡ subtok.client_secret
      → (session.validated == 0) ≡ false
      → check_session w subtok (true, session) ≡ ok session
  unfolding check_session
  session_passes subtok session secret is_validated =
      ground (arith, beq_iff session.client_secret subtok.client_secret)

  request_passes :
      (sid : ℕ) (subtok : SubmitToken)
      → 0 < sid
      → is_empty subtok.client_secret ≡ false
      → check_request sid subtok ≡ ok tt
  unfolding check_request
  request_passes sid subtok p e = ground (arith)

  read_back :
      (sid : ℕ) (subtok : SubmitToken) (s : Server Value Db) (session : ValidationSession)
      → stoul subtok.sid ≡ ok sid
      → check_request sid subtok ≡ ok tt
      → find_session w sid s ≡ ok (true, session)
      → check_session w subtok (true, session) ≡ ok session
      → get_validated_3pid w subtok s ≡ (
        ok (record {
          medium = session.medium;
          address = session.address;
          validated_at = session.mtime;
        }),
        s,
      )
  unfolding get_validated_3pid
  read_back sid subtok s session a b c d = rw (a, b, c, d)

  session_good :
      (subtok : SubmitToken) (found : Bool × ValidationSession) (session : ValidationSession)
      → check_session w subtok found ≡ ok session
      → (found ≡ (true, session))
        × (session.client_secret ≡ subtok.client_secret)
        × (session.validated ≢ 0)
  unfolding check_session
  session_good subtok (false, v) session h = absurd (ground arith)
  session_good subtok (true, v) session h =
      elim (Bool-cases (beq v.client_secret subtok.client_secret)) [
        | inr differ ↦ absurd (ground arith)
        | inl same ↦ elim (Bool-cases (v.validated == 0)) [
          | inl waits ↦
              absurd (elim (Bool-cases (ltb w.currtime ((session_lifetime + v.mtime) % 2 ^ 64))) [
                | inl early ↦ ground arith
                | inr late ↦ ground arith
              ])
          | inr is_validated ↦
              let it : v ≡ session = ground arith in
              (
                ap (λ x. (true, x)) it,
                cc (
                  ap (λ x. x.client_secret) it,
                  (beq_iff v.client_secret subtok.client_secret).0 same,
                ),
                subst (λ x. x.validated ≢ 0) it (λ z. ground (arith, ==_iff v.validated 0)),
              )
        ]
      ]

  -- What a success of `GetValidated3pidAction` on `s` rests on.
  pub record Vouched (subtok : SubmitToken) (s s' : Server Value Db) (v : ValidatedAt)
      : Type 0 where
    pub sid : ℕ
    pub session : ValidationSession
    pub sid_read : stoul subtok.sid ≡ ok sid
    pub session_found : find_session w sid s ≡ ok (true, session)
    pub secret_same : session.client_secret ≡ subtok.client_secret
    pub validated : session.validated ≢ 0
    pub answer : v ≡ record {
      medium = session.medium;
      address = session.address;
      validated_at = session.mtime;
    }
    pub unchanged : s' ≡ s

  abbrev shown : ValidationSession → Action (Server Value Db) ValidatedAt
  shown session =
      return (record {
        medium = session.medium;
        address = session.address;
        validated_at = session.mtime;
      })

  vouched :
      (subtok : SubmitToken) (s s1 s2 s3 s4 s5 s' : Server Value Db) (v : ValidatedAt) (sid : ℕ)
      (u : Unit {0}) (found : Bool × ValidationSession) (session : ValidationSession)
      → (stoul subtok.sid ≡ ok sid) × (s1 ≡ s)
      → (check_request sid subtok ≡ ok u) × (s2 ≡ s1)
      → get {S = Server Value Db} s2 ≡ (ok s3, s4)
      → (find_session w sid s3 ≡ ok found) × (s5 ≡ s4)
      → (s6 : Server Value Db) → (check_session w subtok found ≡ ok session) × (s6 ≡ s5)
      → shown session s6 ≡ (ok v, s')
      → Vouched subtok s s' v
  vouched subtok s s1 s2 s3 s4 s5 s' v sid u found session (a, e1) (b, e2) g (c, e5) s6 (d, e6) r =
      let (found_is, secret, good) = session_good subtok found session d in
      let seen : ok s2 ≡ ok s3 = ap (λ p. p.0) g in
      let read : s3 ≡ s = cc (seen, e2, e1) in
      let said : ok (record {
        medium = session.medium;
        address = session.address;
        validated_at = session.mtime;
      })
          ≡ ok v =
        ap (λ p. p.0) r in
      record {
        sid = sid;
        session = session;
        sid_read = a;
        session_found =
            subst (λ x. find_session w sid x ≡ ok (true, session)) read
              (c ∙ ap (λ x. ok x) found_is);
        secret_same = secret;
        validated = good;
        answer = cc said;
        unchanged = sym (ap (λ p. p.1) r) ∙ e6 ∙ e5 ∙ sym (ap (λ p. p.1) g) ∙ e2 ∙ e1;
      }

  -- If `GetValidated3pidAction` succeeds, then the sid is a number under which a session is stored,
  -- the client secret submitted is that of the session, the session is validated, the answer is what
  -- the session holds, and the server is as it was.
  pub get_validated_3pid_checks :
      (subtok : SubmitToken) (s s' : Server Value Db) (v : ValidatedAt)
      → get_validated_3pid w subtok s ≡ (ok v, s')
      → Vouched subtok s s' v
  unfolding get_validated_3pid
  get_validated_3pid_checks subtok s s' v h =
      let (sid, s1, h1, r1) = bind-eq-ok (lift (stoul subtok.sid)) _ h in
      let (u, s2, h2, r2) = bind-eq-ok (lift (check_request sid subtok)) _ r1 in
      let (s3, s4, h3, r3) =
        bind-eq-ok get
          (λ x.
            lift (find_session w sid x) >>= λ found. lift (check_session w subtok found) >>= shown)
          r2 in
      let (found, s5, h4, r4) =
        bind-eq-ok (lift (find_session w sid s3))
          (λ found. lift (check_session w subtok found) >>= shown) r3 in
      let (session, s6, h5, r5) = bind-eq-ok (lift (check_session w subtok found)) shown r4 in
      vouched subtok s s1 s2 s3 s4 s5 s' v sid u found session (lift_ok w h1) (lift_ok w h2) h3
        (lift_ok w h4) s6 (lift_ok w h5) r5

module _ {Value Db : Type 0} (w : World Value Db) where
  -- Once `SubmitTokenAction` has validated a session, `GetValidated3pidAction` with its sid and its
  -- client secret, at whatever time it is asked, gives its medium and address, validated at the
  -- time of the validation, and changes nothing.
  pub get_validated_3pid-validate :
      (subtok : SubmitToken) (session : ValidationSession) (s s' : Server Value Db) (o : Outcome)
      (later : ℕ)
      → IsIndexed w.engine w.nodes (validation_session_table w.validation_session) s.db
      → 0 < session.id
      → session.id < 2 ^ 64
      → session.validated ≡ 0
      → stoul subtok.sid ≡ ok session.id
      → session.client_secret ≡ subtok.client_secret
      → is_empty subtok.client_secret ≡ false
      → validate w session s ≡ (ok o, s')
      → get_validated_3pid (record w { currtime = later }) subtok s' ≡ (
        ok (record {
          medium = session.medium;
          address = session.address;
          validated_at = w.currtime;
        }),
        s',
      )
  get_validated_3pid-validate subtok session s s' o later x p l fresh sid secret given h =
      let done = record session { validated = 1; mtime = w.currtime } in
      let then : World Value Db = record w { currtime = later } in
      read_back then session.id subtok s' done sid (request_passes w session.id subtok p given)
        (find_session-Holds then session.id s' done (validate_lem w session s s' o x l fresh h).2)
        (session_passes then subtok done secret refl)
