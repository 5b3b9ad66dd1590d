-- ===== src/Server.antt =====
-- The state that the parts of a server share: include/utils/SharedTable.hpp, with
-- include/utils/SharedCounter.hpp and SharedPairMap.hpp. In the default build the log and the data
-- are in one database (src/main/WorkServer.cc).
use identt.Prelude.{refl, ◌≡◌, ℕ, ◌+◌, ◌%◌, ◌^◌, Bytes, List, [], ◌∷◌, Bool, beq, if◌then◌else◌}
use identt.Exception.{Result, ok, err}
use identt.Engine.{Engine, Codec}
use identt.Engine.Ordered.{Entries}
use identt.Messages.{Node, Transaction}
use identt.Tables.Records.{
  InviteToken, EphemeralPublicKey, LocalAssoc, GlobalAssoc, ValidationSession, TokenAuth, AccessKey,
  BlobStore, ParAvion, MailSent,
}

-- What a server runs on: the engine, the messages' encodings, the clock at the two points where a
-- request reads it, and whether a transaction that is sent to a slave is acknowledged.
pub record World (Value Db : Type 0) : Type 0 where
  pub engine : Engine Value Db
  pub nodes : Codec Value Node
  pub transaction : Codec Value (Transaction Value)
  pub local_assoc : Codec Value LocalAssoc
  pub global_assoc : Codec Value GlobalAssoc
  pub validation_session : Codec Value ValidationSession
  pub token_auth : Codec Value TokenAuth
  pub access_key : Codec Value AccessKey
  pub blob_store : Codec Value BlobStore
  pub ephemeral : Codec Value EphemeralPublicKey
  pub invite_token : Codec Value InviteToken
  pub par_avion : Codec Value ParAvion
  pub mail_sent : Codec Value MailSent
  -- IDENTT_CURRTIME_MS at the start of a request and in `CommitLog`
  pub currtime : ℕ
  pub committime : ℕ
  pub send_to_remote : Bytes → Transaction Value → Bool

-- An entry of `remotes`: the log counter and the time of the update.
pub record Remote : Type 0 where
  pub address : Bytes
  pub logcounter : ℕ
  pub updated_at : ℕ

pub record Server (Value Db : Type 0) : Type 0 where
  pub db : Db
  pub maincounter : ℕ
  pub logcounter : ℕ
  pub is_master : Bool
  pub is_ready : Bool
  pub lookup_uses_local : Bool
  pub master : Bytes
  pub hostname : Bytes
  pub baseurl : Bytes
  pub thisurl : Bytes
  pub lastslave : Bytes
  pub remotes : List Remote
  -- serialized transactions that the master has pushed, by id
  pub transactions : List (ℕ × Value)
  -- the map of `StoreCache`, in key order, which nothing observes
  pub dbcache : Entries Value

-- SharedCounter::GetNext
abbrev pub next : ℕ → ℕ
next n = (n + 1) % 2 ^ 64

-- A step that may throw and changes the server, also before it throws.
abbrev pub Action : Type 0 → Type 0 → Type 0
Action S A = S → Result A × S

abbrev pub continue : {S A B : Type 0} → Result A × S → (A → Action S B) → Result B × S
continue (ok a, s) f = f a s
continue (err x, s) f = (err x, s)

infixl 5 ◌>>=◌
abbrev pub ◌>>=◌ : {S A B : Type 0} → Action S A → (A → Action S B) → Action S B
m >>= f = λ s. continue (m s) f

infixl 5 ◌>>◌
abbrev pub ◌>>◌ : {S B : Type 0} → Action S (Unit {0}) → Action S B → Action S B
m >> k = m >>= λ _. k

abbrev pub return : {S A : Type 0} → A → Action S A
return a = λ s. (ok a, s)

-- A step that only reads.
abbrev pub lift : {S A : Type 0} → Result A → Action S A
lift r = λ s. (r, s)

abbrev pub get : {S : Type 0} → Action S S
get = λ s. (ok s, s)

abbrev pub modify : {S : Type 0} → (S → S) → Action S (Unit {0})
modify f = λ s. (ok tt, f s)

-- `stptr->maincounter.GetNext()`
abbrev pub next_main : {Value Db : Type 0} → Action (Server Value Db) ℕ
next_main = λ s. (ok (next s.maincounter), record s { maincounter = next s.maincounter })

-- SharedPairMap::AddOne, `t_[key]=value`.
unfoldable pub add_one : Remote → List Remote → List Remote
add_one r [] = r ∷ []
add_one r (q ∷ rs) = let rest = add_one r rs in if beq q.address r.address then r ∷ rs else q ∷ rest

-- SharedPairMap::AddMany
unfoldable pub add_many : List Remote → List Remote → List Remote
add_many [] rs = rs
add_many (r ∷ more) rs = add_many more (add_one r rs)

-- A step that has succeeded did so from a first part that succeeded.
pub continue-eq-ok :
    {S A B : Type 0} (m : Result A × S) (f : A → Action S B) {b : B} {s' : S}
    → continue m f ≡ (ok b, s')
    → (a : A) × (s1 : S) × (m ≡ (ok a, s1)) × (f a s1 ≡ (ok b, s'))
continue-eq-ok (ok a, s1) f h = (a, s1, refl, h)
continue-eq-ok (err x, s1) f h = cc h

pub bind-eq-ok :
    {S A B : Type 0} (m : Action S A) (f : A → Action S B) {s s' : S} {b : B}
    → (m >>= f) s ≡ (ok b, s')
    → (a : A) × (s1 : S) × (m s ≡ (ok a, s1)) × (f a s1 ≡ (ok b, s'))
bind-eq-ok m f {s = s} h = continue-eq-ok (m s) f h
