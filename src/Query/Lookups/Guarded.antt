-- ===== src/Query/Lookups/Guarded.antt =====
-- Proofs on the endpoints of include/query/LookupService.hpp.
use identt.Prelude.{
  ◌≡◌, ◌≢◌, ap, sym, ◌∙◌, subst, Bytes, true, false, not, ◌&&◌, if◌then◌else◌, ◌⊎◌, inl, inr,
  Bool-cases,
}
use identt.Exception.{ok, bad_data, throw_if}
use identt.Server.{
  World, Server, Action, bind-eq-ok, continue-eq-ok, return, lift, get, ◌>>=◌, ◌>>◌,
}
use identt.Services.Requests.{LookupQuery, LookupResult}
use identt.Services.Access.{verify_access_key, find_access_key, three_parts, check_key}
use identt.Services.Common.{find}
use identt.Services.Numbers.{split}
use identt.Tables.Records.{AccessKey, blank_access_key}
use identt.Tables.Unique.{access_key_table}
use identt.Keys.{u_accesskey_medium_address}
use identt.Services.Lookup.{lookup_action}
use identt.Query.{Http, HttpRequest, ready, check_access, is_server_query}
use identt.Query.Lookups.{lookup_with, own_key}

not_ready : (throw_if true (bad_data "System Not Ready")) ≢ ok tt
not_ready e = cc e

module _ {Value Db : Type 0} (w : World Value Db) (h : Http) where
  -- The output `output` was made from the state `s` for a query that may be answered.
  pub record Answered (query : LookupQuery) (request : HttpRequest) (s : Server Value Db)
      (output : Bytes) : Type 0 where
    pub is_ready : s.is_ready ≡ true
    pub allowed :
        (h.lookup_requires_key && not (is_server_query h.secret request) ≡ false)
        ⊎ ((verify_access_key w query.accesskey s).0 ≡ ok tt)
    pub result : LookupResult
    pub found : lookup_action w query s ≡ ok result
    pub signed : h.signing.sign_lookup result (own_key s.hostname) ≡ ok output

  -- The part of a lookup after the checks.
  abbrev answer : LookupQuery → Action (Server Value Db) Bytes
  answer query = get >>= λ s. lift (lookup_action w query s) >>= λ result.
      lift (h.signing.sign_lookup result (own_key s.hostname))

  ready-eq-ok :
      (s s' : Server Value Db) → ready w h s ≡ (ok tt, s') → (s.is_ready ≡ true) × (s ≡ s')
  unfolding ready
  ready-eq-ok s s' e = elim (Bool-cases s.is_ready) [
    | inl on ↦ (on, ap (λ x. x.1) e)
    | inr off ↦ absurd (
        not_ready
          (sym (ap (λ b. throw_if (not b) (bad_data "System Not Ready")) off) ∙ ap (λ x. x.0) e))
  ]

  abbrev searched : Bytes × (Bytes × Bytes) → Action (Server Value Db) AccessKey
  searched parts =
      find w (access_key_table w.access_key)
        (record blank_access_key { medium = parts.0; address = parts.1.0 })
        u_accesskey_medium_address
      >>= λ found. lift (check_key parts.1.1 found)

  -- The access key is looked for in the database and nothing is changed.
  find_access_key_same :
      (text : Bytes) (key : AccessKey) (s s' : Server Value Db)
      → find_access_key w text s ≡ (ok key, s')
      → s ≡ s'
  unfolding find_access_key find
  find_access_key_same text key s s' e =
      let (parts, s1, e1, rest1) =
        continue-eq-ok (lift (three_parts (split text)) s) (λ parts. searched parts) e in
      let (found, s2, e2, rest2) =
        continue-eq-ok
          (find w (access_key_table w.access_key)
            (record blank_access_key { medium = parts.0; address = parts.1.0 })
            u_accesskey_medium_address s1)
          (λ found. lift (check_key parts.1.1 found)) rest1 in
      ap (λ x. x.1) e1 ∙ ap (λ x. x.1) e2 ∙ ap (λ x. x.1) rest2

  verify_access_key_same :
      (text : Bytes) (s s' : Server Value Db) → verify_access_key w text s ≡ (ok tt, s') → s ≡ s'
  unfolding verify_access_key
  verify_access_key_same text s s' e =
      let (key, s1, e1, rest1) = continue-eq-ok (find_access_key w text s) (λ key. return tt) e in
      find_access_key_same text key s s1 e1 ∙ ap (λ x. x.1) rest1

  check_access-eq-ok :
      (key : Bytes) (request : HttpRequest) (s s' : Server Value Db)
      → check_access w h h.lookup_requires_key key request s ≡ (ok tt, s')
      → ((h.lookup_requires_key && not (is_server_query h.secret request) ≡ false)
          ⊎ ((verify_access_key w key s).0 ≡ ok tt))
        × (s ≡ s')
  unfolding check_access
  check_access-eq-ok key request s s' e =
      elim (Bool-cases (h.lookup_requires_key && not (is_server_query h.secret request))) [
        | inl asked ↦
            let verified =
              sym (ap (λ b. (if b then verify_access_key w key else return tt) s) asked) ∙ e in
            (inr (ap (λ x. x.0) verified), verify_access_key_same key s s' verified)
        | inr free ↦ (
          inl free,
          ap (λ x. x.1)
              (sym (ap (λ b. (if b then verify_access_key w key else return tt) s) free) ∙ e),
        )
      ]

  answer_checks :
      (query : LookupQuery) (s s' : Server Value Db) (output : Bytes)
      → answer query s ≡ (ok output, s')
      → (result : LookupResult) × (lookup_action w query s ≡ ok result)
        × (h.signing.sign_lookup result (own_key s.hostname) ≡ ok output)
        × (s ≡ s')
  answer_checks query s s' output e =
      let (result, s1, e1, rest1) =
        continue-eq-ok (lift (lookup_action w query s) s)
          (λ result. lift (h.signing.sign_lookup result (own_key s.hostname))) e in
      (result, ap (λ x. x.0) e1, ap (λ x. x.0) rest1, ap (λ x. x.1) e1 ∙ ap (λ x. x.1) rest1)

  -- An output of a lookup was made by a server that is ready; if an access key is required and the
  -- query does not come from a server, its access key was verified; what is signed, with the
  -- server's own key, is what the lookup finds; and the server is unchanged.
  pub lookup_with_checks :
      (query : LookupQuery) (request : HttpRequest) (s s' : Server Value Db) (output : Bytes)
      → lookup_with w h query request s ≡ (ok output, s')
      → Answered query request s output × (s ≡ s')
  unfolding lookup_with
  lookup_with_checks query request s s' output e =
      let (u, s1, e1, rest1) =
        bind-eq-ok (ready w h)
          (λ u. check_access w h h.lookup_requires_key query.accesskey request >> answer query) e in
      let (is_ready, same1) = ready-eq-ok s s1 e1 in
      let (v, s2, e2, rest2) =
        continue-eq-ok (check_access w h h.lookup_requires_key query.accesskey request s)
          (λ v. answer query)
          (subst
            (λ t.
              (check_access w h h.lookup_requires_key query.accesskey request >> answer query) t
              ≡ (ok output, s'))
            (sym same1) rest1) in
      let (allowed, same2) = check_access-eq-ok query.accesskey request s s2 e2 in
      let (result, found, signed, same3) =
        answer_checks query s s' output
          (subst (λ t. answer query t ≡ (ok output, s')) (sym same2) rest2) in
      (
        record {
          is_ready = is_ready;
          allowed = allowed;
          result = result;
          found = found;
          signed = signed;
        },
        same3,
      )
