-- ===== src/Signed/Refused.antt =====
-- Proofs on the endpoint sign-{algo:id} of include/query/PubKeyService.hpp and the keys that it
-- makes.
use identt.Prelude.{
  ◌≡◌, refl, ap, sym, subst, Bytes, List, [], beq, codes, if◌then◌else◌, Bool-cases, inl, inr,
}
use identt.Exception.{Exception, Result, ok, err, bad_data, bad_code, ◌>>=◌}
use identt.Bin2Ascii.Base64.{b64_sanit_decode, b64_sanit, b64_decode, b64_quads}
use identt.Server.{World, Server, Action, continue, lift}
use identt.Json.{Rapid, Json}
use identt.Query.{Http, HttpRequest, ToSignQuery, http_endpoint, reply, read_body, required, ready}
use identt.Query.Keys.{sign_post, given_key}
use identt.Signed.{
  Sodium, Ed25519, two_keys, create, get_signer, scope_signit, signature_of, add_sign,
}

-- A call that throws, whatever it throws.
abbrev pub Throws : {A : Type 0} → Result A → Type 0
Throws r = (x : Exception) × (r ≡ err x)

Throws-after :
    {A B : Type 0} (r : Result A) (f : A → Result B) → ((a : A) → Throws (f a)) → Throws (r >>= f)
Throws-after (ok a) f h = h a
Throws-after (err x) f h = (x, refl)

Throws-first : {A B : Type 0} (r : Result A) (f : A → Result B) → Throws r → Throws (r >>= f)
Throws-first r f (x, e) = (x, ap (λ t. t >>= f) e)

Throws-later :
    {S A B : Type 0} (r : Result A × S) (f : A → Action S B)
    → ((a : A) (s : S) → Throws (f a s).0)
    → Throws (continue r f).0
Throws-later (ok a, s) f h = h a s
Throws-later (err x, s) f h = (x, refl)

two_keys-Throws : (skey : Bytes) → Throws (two_keys [] skey)
unfolding two_keys b64_sanit_decode b64_sanit b64_decode b64_quads
two_keys-Throws skey =
    Throws-after (b64_sanit_decode skey) _ (λ key. (bad_data "Bad Public Key", refl))

create-Throws : (algo skey : Bytes) → Throws (create algo [] skey)
unfolding create
create-Throws algo skey = elim (Bool-cases (beq algo (codes "ed25519"))) [
  | inl h ↦
      subst (λ b. Throws (if b then two_keys [] skey else err (bad_code "Bogus Algo"))) (sym h)
        (two_keys-Throws skey)
  | inr h ↦
      subst (λ b. Throws (if b then two_keys [] skey else err (bad_code "Bogus Algo"))) (sym h)
        (bad_code "Bogus Algo", refl)
]

module _ (json : Rapid) (sodium : Sodium) (keyring : List (Bytes × Ed25519)) where
  get_signer-Throws :
      (request : HttpRequest) (query : ToSignQuery)
      → Throws (get_signer keyring (given_key request query) scope_signit)
  unfolding get_signer given_key
  get_signer-Throws request query = create-Throws (request.path_match 1) query.private_key

  add_sign-Throws :
      (msg : Json) (request : HttpRequest) (query : ToSignQuery)
      → Throws (add_sign json sodium keyring msg (given_key request query) [])
  unfolding add_sign signature_of
  add_sign-Throws msg request query =
      Throws-first _ _ (Throws-first _ _ (get_signer-Throws request query))

  -- POST sign-{algo:id}, where AddSign signs, sends the reply to an exception for every request
  -- and state: no request has its query signed.
  pub sign_post-Throws :
      {Value Db : Type 0} (w : World Value Db) (h : Http) (value : ToSignQuery → Json)
      (request : HttpRequest) (s : Server Value Db)
      → h.signing.sign_query ≡ (λ query key.
        add_sign json sodium keyring (value query) key [] >>= λ signed. ok (signed.1))
      → (x : Exception) × ((sign_post w h request s).0 ≡ reply h.write (err x))
  unfolding sign_post http_endpoint
  sign_post-Throws w h value request s signs =
      let thrown = Throws-later (lift (read_body h.read.to_sign request) s) _ (λ query s1.
        Throws-later (lift (required "mxid value required" query.mxid) s1) _ (λ u2 s2.
          Throws-later (lift (required "token value required" query.token) s2) _ (λ u3 s3.
            Throws-later (lift (required "private_key value required" query.private_key) s3) _
              (λ u4 s4. Throws-later (ready w h s4) _ (λ u5 s5.
                subst (λ f. Throws (f query (given_key request query))) (sym signs)
                  (Throws-first _ _ (add_sign-Throws (value query) request query))))))) in
      (thrown.0, ap (reply h.write) thrown.1)
