-- ===== src/Json/Added.antt =====
-- Proofs on src/query/ProtoJsonSigned.cc: an object and one signature.
use identt.Prelude.{
  c_str, ◌≡◌, refl, ap, sym, ◌∙◌, Bytes, List, [], ◌∷◌, none, some, beq, beq_refl, codes,
  if◌then◌else◌, Bool-cases, inl, inr,
}
use identt.Exception.{ok, ◌>>=◌}
use identt.Json.{
  Json, Members, j_object, j_text, no_member, member, Rapid, Signature, get_member, set_member,
  add_member, erase_member, members_of, object_at, add_entries, add_signatures, point,
  signatures_at, erase_at, unsigned_text, split_signed, unsigned2signedjson, signedjson2unsigned,
}

-- A member that is not there is added at the end, found there, and erased from there.
pub set_member_new :
    (n : Bytes) (v : Json) (ms : Members)
    → get_member n ms ≡ none
    → set_member n v ms ≡ add_member n v ms
unfolding get_member set_member add_member
set_member_new n v no_member h = refl
set_member_new n v (member k j ms) h = elim (Bool-cases (beq k n)) [
  | inl e ↦ cc (sym (ap (λ b. if b then some j else get_member n ms) e) ∙ h)
  | inr e ↦ rw e (
      ap (member k j)
        (set_member_new n v ms (sym (ap (λ b. if b then some j else get_member n ms) e) ∙ h)))
]

pub get_member-add_member :
    (n : Bytes) (v : Json) (ms : Members)
    → get_member n ms ≡ none
    → get_member n (add_member n v ms) ≡ some v
unfolding get_member add_member
get_member-add_member n v no_member h = rw (beq_refl n) refl
get_member-add_member n v (member k j ms) h = elim (Bool-cases (beq k n)) [
  | inl e ↦ cc (sym (ap (λ b. if b then some j else get_member n ms) e) ∙ h)
  | inr e ↦
      rw e
        (get_member-add_member n v ms (sym (ap (λ b. if b then some j else get_member n ms) e) ∙ h))
]

pub erase_member-add_member :
    (n : Bytes) (v : Json) (ms : Members)
    → get_member n ms ≡ none
    → erase_member n (add_member n v ms) ≡ ms
unfolding get_member add_member erase_member
erase_member-add_member n v no_member h = rw (beq_refl n) refl
erase_member-add_member n v (member k j ms) h = elim (Bool-cases (beq k n)) [
  | inl e ↦ cc (sym (ap (λ b. if b then some j else get_member n ms) e) ∙ h)
  | inr e ↦ rw e (
      ap (member k j) (
        erase_member-add_member n v ms
          (sym (ap (λ b. if b then some j else get_member n ms) e) ∙ h)))
]

pub erase_member-none : (n : Bytes) (ms : Members) → get_member n ms ≡ none → erase_member n ms ≡ ms
unfolding get_member erase_member
erase_member-none n no_member h = refl
erase_member-none n (member k j ms) h = elim (Bool-cases (beq k n)) [
  | inl e ↦ cc (sym (ap (λ b. if b then some j else get_member n ms) e) ∙ h)
  | inr e ↦ rw e (
      ap (member k j)
        (erase_member-none n ms (sym (ap (λ b. if b then some j else get_member n ms) e) ∙ h)))
]

-- The value under "signatures" with one signature.
abbrev pub one_entry : Signature → Json
one_entry s = j_object (member s.org (j_object (member s.key (j_text s.value) no_member)) no_member)

-- An object with one signature more.
abbrev pub signed_object : Signature → Members → Json
signed_object s ms = j_object (add_member (codes "signatures") (one_entry s) ms)

-- A signature whose texts have no NUL.
pub record IsPlain (s : Signature) : Type 0 where
  pub org : c_str s.org ≡ s.org
  pub key : c_str s.key ≡ s.key
  pub value : c_str s.value ≡ s.value

pub object_at-none :
    (n : Bytes) (ms : Members) → get_member n ms ≡ none → object_at n ms ≡ no_member
unfolding object_at
object_at-none n ms h = rw (object_at, h) refl

pub add_entries_one :
    (s : Signature) → IsPlain s → j_object (add_entries (s ∷ []) no_member) ≡ one_entry s
unfolding add_entries add_member
add_entries_one s plain = rw (plain.org, plain.key, plain.value) refl

pub add_signatures_one :
    (s : Signature) (ms : Members)
    → IsPlain s
    → get_member (codes "signatures") ms ≡ none
    → j_object (add_signatures (s ∷ []) (j_object ms)) ≡ signed_object s ms
unfolding add_signatures members_of
add_signatures_one s ms plain h =
    ap (λ o. j_object (set_member (codes "signatures") (j_object (add_entries (s ∷ []) o)) ms))
      (object_at-none (codes "signatures") ms h)
    ∙ ap (λ e. j_object (set_member (codes "signatures") e ms)) (add_entries_one s plain)
    ∙ ap j_object (set_member_new (codes "signatures") (one_entry s) ms h)

pub unsigned2signedjson_read :
    (json : Rapid) (input : Bytes) (d : Json) (signatures : List Signature)
    → json.parse input ≡ some d
    → unsigned2signedjson json input [] signatures
      ≡ ok (some (json.print (j_object (add_signatures signatures d))))
unfolding unsigned2signedjson
unsigned2signedjson_read json input d signatures h = rw (unsigned2signedjson, h) refl

pub signedjson2unsigned_read :
    (json : Rapid) (input : Bytes) (d : Json) (signatures : List Signature)
    → json.parse input ≡ some d
    → signedjson2unsigned json input signatures ≡ (
        signatures_at (point (codes "signatures") d) signatures >>= λ read.
        ok (split_signed json d read))
unfolding signedjson2unsigned
signedjson2unsigned_read json input d signatures h = rw (signedjson2unsigned, h) refl

pub split_signed_one :
    (json : Rapid) (s : Signature) (ms : Members)
    → get_member (codes "signatures") ms ≡ none
    → get_member (codes "unsigned") ms ≡ none
    → split_signed json (signed_object s ms) (some (s ∷ []))
      ≡ some (json.print (j_object ms), [], s ∷ [])
unfolding split_signed erase_at unsigned_text point
split_signed_one json s ms h k =
    ap
      (λ t. some (
        json.print (j_object (erase_member (codes "unsigned") t)),
        unsigned_text json (get_member (codes "unsigned") t),
        s ∷ [],
      ))
      (erase_member-add_member (codes "signatures") (one_entry s) ms h)
    ∙ ap
        (λ t.
          some (
            json.print (j_object t),
            unsigned_text json (get_member (codes "unsigned") ms),
            s ∷ [],
          ))
        (erase_member-none (codes "unsigned") ms k)
    ∙ ap (λ t. some (json.print (j_object ms), unsigned_text json t, s ∷ [])) k
