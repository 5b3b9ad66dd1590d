-- ===== src/Services/Sessions.antt =====
-- Proofs on SubmitTokenAction of src/store/ValidateService.cc.
use identt.Prelude.{
  ℕ, ◌^◌, ◌<◌, ◌≡◌, ◌≢◌, ◌∙◌, ap, sym, subst, inl, inr, List, [], Bool, true, false, ltb, beq,
  beq_iff, arith, Bool-cases,
}
use Prim.Native.String.{String}
use identt.Exception.{Result, ok, err}
use identt.Keys.{KeyType, k_lognode, k_validationsession, u_tokenauth_validationsession}
use identt.Messages.{TransItem, blank_transaction}
use identt.Server.{World, Server, lift, return, ◌>>◌, bind-eq-ok}
use identt.Trans.{commit}
use identt.Trans.Records.{commit-add_record}
use identt.Table.{Table, get_one, mem}
use identt.Table.Laws.{Holds}
use identt.Table.Indexed.{IsIndexed}
use identt.Table.Frame.{OfTable}
use identt.Tables.Records.{ValidationSession, blank_validation_session, TokenAuth, blank_token_auth}
use identt.Tables.Unique.{validation_session_table, token_auth_table}
use identt.Tables.UniqueLaws.{validation_session_table-IsTable}
use identt.Services.Requests.{SubmitToken, Outcome, now_validated, session_lifetime}
use identt.Services.Numbers.{stoul, minus}
use identt.Services.Common.{find, add, added, commit_items}
use identt.Services.Validate.{submit_token, check_token, check_open, validate}

added_ok :
    {Value : Type 0} (message : String) (r : Result (Bool × List (TransItem Value)))
    (trans : List (TransItem Value))
    → added message r ≡ ok trans
    → r ≡ ok (true, trans)
unfolding added
added_ok message (err x) trans h = cc h
added_ok message (ok (true, t)) trans h = cc h
added_ok message (ok (false, t)) trans h = cc h

module _ {Value Db : Type 0} (w : World Value Db) where
  session_not_log :
      (k : KeyType)
      → OfTable w.engine w.nodes
          (validation_session_table w.validation_session)
          (validation_session_table-IsTable w.validation_session)
          k
      → k ≢ k_lognode
  unfolding mem
  session_not_log k (inl e) same = omega (arith, e, same)
  session_not_log k (inr sec) same = absurd (ground arith)

  pub lift_ok :
      {A : Type 0} {r : Result A} {a : A} {s s1 : Server Value Db}
      → lift r s ≡ (ok a, s1)
      → (r ≡ ok a) × (s1 ≡ s)
  lift_ok h = (ap (λ p. p.0) h, sym (ap (λ p. p.1) h))

  find_ok :
      {T : Type 0} (t : Table Value T) (r : T) (k : KeyType) {a : Bool × T} {s s1 : Server Value Db}
      → find w t r k s ≡ (ok a, s1)
      → (get_one w.engine w.nodes t s.db r k ≡ ok a) × (s1 ≡ s)
  unfolding find
  find_ok t r k h = (ap (λ p. p.0) h, sym (ap (λ p. p.1) h))

  -- What a submission that succeeds has found in the database `s`, and how it went on.
  pub record Submitted (subtok : SubmitToken) (s s' : Server Value Db) (o : Outcome) : Type 0 where
    pub sid : ℕ
    pub token : TokenAuth
    pub session : ValidationSession
    pub sid_read : stoul subtok.sid ≡ ok sid
    pub token_found :
        get_one w.engine w.nodes
          (token_auth_table w.token_auth)
          s.db
          (record blank_token_auth { validation_session = sid })
          u_tokenauth_validationsession
        ≡ ok (true, token)
    pub token_same : token.token ≡ subtok.token
    pub session_found :
        get_one w.engine w.nodes
          (validation_session_table w.validation_session)
          s.db
          (record blank_validation_session { id = token.validation_session })
          k_validationsession
        ≡ ok (true, session)
    pub secret_same : session.client_secret ≡ subtok.client_secret
    pub alive : ltb session_lifetime (minus w.currtime session.mtime) ≡ false
    pub went_on : validate w session s ≡ (ok o, s')

  token_checked :
      (subtok : SubmitToken) (found : Bool × TokenAuth) (token : TokenAuth)
      → check_token w subtok found ≡ ok token
      → (found ≡ (true, token)) × (token.token ≡ subtok.token)
  unfolding check_token
  token_checked subtok (false, t) token h = cc h
  token_checked subtok (true, t) token h = elim (Bool-cases (beq t.token subtok.token)) [
    | inl same ↦ (ground arith, ground (arith, beq_iff t.token subtok.token))
    | inr differ ↦ absurd (ground arith)
  ]

  session_checked :
      (subtok : SubmitToken) (found : Bool × ValidationSession) (session : ValidationSession)
      → check_open w subtok found ≡ ok session
      → (found ≡ (true, session))
        × (session.client_secret ≡ subtok.client_secret)
        × (ltb session_lifetime (minus w.currtime session.mtime) ≡ false)
  unfolding check_open
  session_checked subtok (false, v) session h = cc h
  session_checked subtok (true, v) session h =
      elim (Bool-cases (beq v.client_secret subtok.client_secret)) [
        | inr differ ↦ absurd (ground arith)
        | inl same ↦ elim (Bool-cases (ltb session_lifetime (minus w.currtime v.mtime))) [
          | inl late ↦ absurd (ground arith)
          | inr alive ↦
              let it : v ≡ session = ground arith in
              (
                ap (λ x. (true, x)) it,
                cc (
                  ap (λ x. x.client_secret) it,
                  (beq_iff v.client_secret subtok.client_secret).0 same,
                ),
                subst (λ x. ltb session_lifetime (minus w.currtime x.mtime) ≡ false) it alive,
              )
        ]
      ]

  submitted :
      (subtok : SubmitToken) (s s1 s2 s3 s4 s5 s' : Server Value Db) (o : Outcome) (sid : ℕ)
      (found : Bool × TokenAuth) (token : TokenAuth) (stored : Bool × ValidationSession)
      (session : ValidationSession)
      → (stoul subtok.sid ≡ ok sid) × (s1 ≡ s)
      → (get_one w.engine w.nodes
            (token_auth_table w.token_auth)
            s1.db
            (record blank_token_auth { validation_session = sid })
            u_tokenauth_validationsession
          ≡ ok found)
        × (s2 ≡ s1)
      → (check_token w subtok found ≡ ok token) × (s3 ≡ s2)
      → (get_one w.engine w.nodes
            (validation_session_table w.validation_session)
            s3.db
            (record blank_validation_session { id = token.validation_session })
            k_validationsession
          ≡ ok stored)
        × (s4 ≡ s3)
      → (check_open w subtok stored ≡ ok session) × (s5 ≡ s4)
      → validate w session s5 ≡ (ok o, s')
      → Submitted subtok s s' o
  submitted subtok s s1 s2 s3 s4 s5 s' o sid found token stored session (sid_read, e1)
        (token_found, e2) (token_ok, e3) (session_found, e4) (session_ok, e5) r5 =
      let (found_is, token_same) = token_checked subtok found token token_ok in
      let (stored_is, secret_same, alive) = session_checked subtok stored session session_ok in
      let fourth : s4 ≡ s = e4 ∙ e3 ∙ e2 ∙ e1 in
      let third : s3 ≡ s = e3 ∙ e2 ∙ e1 in
      record {
        sid = sid;
        token = token;
        session = session;
        sid_read = sid_read;
        token_found =
            subst
              (λ x.
                get_one w.engine w.nodes (token_auth_table w.token_auth) x.db
                  (record blank_token_auth { validation_session = sid })
                  u_tokenauth_validationsession
                ≡ ok (true, token))
              e1 (token_found ∙ ap (λ x. ok x) found_is);
        token_same = token_same;
        session_found =
            subst
              (λ x.
                get_one w.engine w.nodes (validation_session_table w.validation_session) x.db
                  (record blank_validation_session { id = token.validation_session })
                  k_validationsession
                ≡ ok (true, session))
              third (session_found ∙ ap (λ x. ok x) stored_is);
        secret_same = secret_same;
        alive = alive;
        went_on = subst (λ x. validate w session x ≡ (ok o, s')) (e5 ∙ fourth) r5;
      }

  -- If `SubmitTokenAction` succeeds, then the sid is a number under which a token is stored, the
  -- token is the one submitted, its session is stored with the client secret submitted, the session
  -- is not older than its lifetime, and the answer is what the rest of the action makes of it.
  pub submit_token_checks :
      (subtok : SubmitToken) (s s' : Server Value Db) (o : Outcome)
      → submit_token w subtok s ≡ (ok o, s')
      → Submitted subtok s s' o
  unfolding submit_token
  submit_token_checks subtok s s' o h =
      let (sid, s1, h1, r1) = bind-eq-ok (lift (stoul subtok.sid)) _ h in
      let (found, s2, h2, r2) =
        bind-eq-ok
          (find w (token_auth_table w.token_auth)
            (record blank_token_auth { validation_session = sid }) u_tokenauth_validationsession)
          _ r1 in
      let (token, s3, h3, r3) = bind-eq-ok (lift (check_token w subtok found)) _ r2 in
      let (stored, s4, h4, r4) =
        bind-eq-ok
          (find w (validation_session_table w.validation_session)
            (record blank_validation_session { id = token.validation_session }) k_validationsession)
          _ r3 in
      let (session, s5, h5, r5) = bind-eq-ok (lift (check_open w subtok stored)) _ r4 in
      submitted subtok s s1 s2 s3 s4 s5 s' o sid found token stored session (lift_ok h1)
        (find_ok (token_auth_table w.token_auth) _ _ h2) (lift_ok h3)
        (find_ok (validation_session_table w.validation_session) _ _ h4) (lift_ok h5) r5

  -- The rest of the action once the record is made.
  validated_after :
      (session : ValidationSession) (s s1 s' : Server Value Db) (o : Outcome)
      (trans : List (TransItem Value))
      → IsIndexed w.engine w.nodes (validation_session_table w.validation_session) s.db
      → session.id < 2 ^ 64
      → add w
          (validation_session_table w.validation_session)
          session
          []
          true
          "Cannot Insert vsession"
          s
        ≡ (ok trans, s1)
      → (commit_items w trans >> return now_validated) s1 ≡ (ok o, s')
      → (o ≡ now_validated)
        × IsIndexed w.engine w.nodes (validation_session_table w.validation_session) s'.db
        × Holds w.engine (validation_session_table w.validation_session) s'.db session.id session
  unfolding add commit_items
  validated_after session s s1 s' o trans x l h r =
      let (u, s2, h2, r2) = bind-eq-ok (commit_items w trans) _ r in
      let made = added_ok "Cannot Insert vsession" _ trans (ap (λ p. p.0) h) in
      let end : s2 ≡ s' = ap (λ p. p.1) r2 in
      let done : commit w true (record blank_transaction { item = trans }) s ≡ (ok tt, s') =
        ap (λ x. commit w true (record blank_transaction { item = trans }) x) (ap (λ p. p.1) h)
        ∙ h2
        ∙ ap (λ x. (ok tt, x)) end in
      let said : ok now_validated ≡ ok o = ap (λ p. p.0) r2 in
      let (indexed, held) =
        commit-add_record w (validation_session_table w.validation_session)
          (validation_session_table-IsTable w.validation_session) s s' session true true trans
          session_not_log x l made done in
      (cc said, indexed, held)

  -- `SubmitTokenAction` on a session that is not yet validated: if it succeeds, the session is
  -- stored as validated at the current time, and the table of sessions stays consistent.
  pub validate_lem :
      (session : ValidationSession) (s s' : Server Value Db) (o : Outcome)
      → IsIndexed w.engine w.nodes (validation_session_table w.validation_session) s.db
      → session.id < 2 ^ 64
      → session.validated ≡ 0
      → validate w session s ≡ (ok o, s')
      → (o ≡ now_validated)
        × IsIndexed w.engine w.nodes (validation_session_table w.validation_session) s'.db
        × Holds w.engine
            (validation_session_table w.validation_session)
            s'.db
            session.id
            (record session { validated = 1; mtime = w.currtime })
  unfolding validate
  validate_lem session s s' o x l fresh h =
      let pending : ltb 0 session.validated ≡ false = ground arith in
      let (trans, s1, h1, r1) =
        bind-eq-ok
          (add w (validation_session_table w.validation_session)
            (record session { validated = 1; mtime = w.currtime }) [] true "Cannot Insert vsession")
          _ (rw pending at h) in
      validated_after (record session { validated = 1; mtime = w.currtime }) s s1 s' o trans x l h1
        r1
