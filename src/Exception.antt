-- ===== src/Exception.antt =====
-- The exceptions of include/utils/BaseUtils.hpp and include/query/SydentQuery.hpp, and those that
-- the standard library's number parsing throws; a call that may throw returns a `Result`.
use Prim.Native.String.{String}
use identt.Prelude.{[], ℕ, ◌≡◌, refl, ◌⊎◌, inl, inr, Bytes, codes, Bool, true, false}

pub data Exception : Type 0 where
  -- BadDataException and BadCodeException
  bad_data : String → Exception
  bad_code : String → Exception
  -- InitialException and ConfigException
  initial : String → Exception
  config : String → Exception
  -- BadQueryException
  bad_query : String → Exception
  -- SydentException: the text and the error code
  sydent : String → ℕ → Exception
  -- SydentException and BadDataException with a text that another server has sent
  remote_sydent : Bytes → ℕ → Exception
  remote_bad : Bytes → Exception
  -- std::invalid_argument and std::out_of_range
  invalid_argument : Exception
  out_of_range : Exception
  -- std::runtime_error
  runtime_error : String → Exception
  -- What C++ leaves undefined, taken as a failure that nothing catches.
  undefined : Exception

-- What a call that may throw comes to.
pub data Result {ℓ} (A : Type ℓ) : Type ℓ where
  err : Exception → Result A
  ok : A → Result A

pub Result-cases {ℓ} :
    {T : Type ℓ} (m : Result T) → ((t : T) × (m ≡ ok t)) ⊎ ((x : Exception) × (m ≡ err x))
Result-cases (err x) = inr (x, refl)
Result-cases (ok t) = inl (t, refl)

-- `if (b) throw x;`
abbrev pub throw_if : Bool → Exception → Result (Unit {0})
throw_if true x = err x
throw_if false x = ok tt

-- An exception leaves the rest of the block out.
infixl 5 ◌>>=◌
abbrev pub ◌>>=◌ {κ ℓ} : {T : Type κ} {U : Type ℓ} → Result T → (T → Result U) → Result U
err x >>= rest = err x
ok t >>= rest = rest t

infixl 5 ◌>>◌
abbrev pub ◌>>◌ {κ} : {U : Type κ} → Result (Unit {0}) → Result U → Result U
first >> rest = first >>= λ done. rest

-- A block that has returned did so from a first part that returned.
pub >>=-eq-ok {κ ℓ} :
    {T : Type κ} {U : Type ℓ} (m : Result T) (rest : T → Result U) {u : U}
    → (m >>= rest) ≡ ok u
    → (t : T) × (m ≡ ok t) × (rest t ≡ ok u)
>>=-eq-ok (err x) rest h = cc
>>=-eq-ok (ok t) rest h = (t, refl, h)

-- `what()`, the text. Those of the standard library's exceptions are the implementation's.
unfoldable pub what : Exception → Bytes
what (bad_data s) = codes s
what (bad_code s) = codes s
what (initial s) = codes s
what (config s) = codes s
what (bad_query s) = codes s
what (sydent s e) = codes s
what (remote_sydent s e) = s
what (remote_bad s) = s
what invalid_argument = codes "stoi"
what out_of_range = codes "stoi"
what (runtime_error s) = codes s
what undefined = []
