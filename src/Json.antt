-- ===== src/Json.antt =====
-- src/query/ProtoJsonSigned.cc: the signatures in a JSON text. rapidjson parses and prints; its
-- values are what the functions look at, and the rest of them is text.
pub mod Added
use identt.Prelude.{
  c_str, ℕ, Bytes, List, [], ◌∷◌, ◌++◌, Bool, true, false, Option, none, some, beq, codes, ltb,
  ◌==◌, length, if◌then◌else◌,
}
use identt.Exception.{Result, ok, err, undefined, ◌>>=◌}

mutual
  pub data Json : Type 0 where
    j_text : Bytes → Json
    j_object : Members → Json
    j_null : Json
    j_other : Bytes → Json

  pub data Members : Type 0 where
    no_member : Members
    member : Bytes → Json → Members → Members

-- The parser, with nothing for a parse error, and the writer.
pub record Rapid : Type 0 where
  pub parse : Bytes → Option Json
  pub print : Json → Bytes

-- SignatureT
pub record Signature : Type 0 where
  pub org : Bytes
  pub key : Bytes
  pub value : Bytes

-- The members of a value, which `Pointer::Create` turns into an object if it is none.
unfoldable pub members_of : Json → Members
members_of (j_object ms) = ms
members_of j = no_member

unfoldable pub get_member : Bytes → Members → Option Json
get_member name no_member = none
get_member name (member k v ms) =
    let later = get_member name ms in if beq k name then some v else later

-- The first member of the name gets the value; a name that is not there is added at the end.
unfoldable pub set_member : Bytes → Json → Members → Members
set_member name value no_member = member name value no_member
set_member name value (member k v ms) =
    let later = set_member name value ms in
    if beq k name then member k value ms else member k v later

-- `AddMember`
unfoldable pub add_member : Bytes → Json → Members → Members
add_member name value no_member = member name value no_member
add_member name value (member k v ms) = member k v (add_member name value ms)

-- `EraseMember`
unfoldable pub erase_member : Bytes → Members → Members
erase_member name no_member = no_member
erase_member name (member k v ms) =
    let later = erase_member name ms in if beq k name then ms else member k v later

-- `Pointer("/name").Get`
unfoldable pub point : Bytes → Json → Option Json
unfolding get_member
point name (j_object ms) = get_member name ms
point name j = none

-- `if (!sign->IsObject()) sign->SetObject();` on the value that `Create` gives.
unfoldable pub object_at : Bytes → Members → Members
unfolding get_member members_of
object_at name ms = elim (get_member name ms) [ none ↦ no_member | some j ↦ members_of j ]

-- The loop that adds an entry for each signature.
unfoldable pub add_entries : List Signature → Members → Members
unfolding add_member c_str
add_entries [] ms = ms
add_entries (s ∷ signatures) ms = add_entries signatures (
    add_member (c_str s.org) (j_object (member (c_str s.key) (j_text (c_str s.value)) no_member))
      ms)

unfoldable pub add_signatures : List Signature → Json → Members
unfolding set_member add_entries object_at members_of
add_signatures signatures j =
    set_member (codes "signatures")
      (j_object (add_entries signatures (object_at (codes "signatures") (members_of j))))
      (members_of j)

-- The loop that moves the members of the unsigned part.
unfoldable pub add_all : Members → Members → Members
unfolding add_member
add_all no_member to = to
add_all (member k v ms) to = add_all ms (add_member k v to)

-- A member is added to a value that `Create` has just made only if there is an object; there is
-- none, unless the input had one.
unfoldable pub add_unsigned_to : Members → Option Json → Members → Result Members
unfolding set_member add_all
add_unsigned_to no_member none ms = ok (set_member (codes "unsigned") j_null ms)
add_unsigned_to no_member (some j) ms = ok ms
add_unsigned_to (member k v es) (some (j_object us)) ms =
    ok (set_member (codes "unsigned") (j_object (add_all (member k v es) us)) ms)
add_unsigned_to (member k v es) j ms = err undefined

unfoldable pub add_unsigned : Option Json → Members → Result Members
unfolding add_unsigned_to get_member
add_unsigned (some (j_object es)) ms = add_unsigned_to es (get_member (codes "unsigned") ms) ms
add_unsigned j ms = err undefined

-- unsigned2signedjson; nothing for the status IDENTT_ERR_INVALID_ARG.
unfoldable pub unsigned2signedjson : Rapid → Bytes → Bytes → List Signature → Result (Option Bytes)
unfolding add_signatures add_unsigned
unsigned2signedjson json input uinput signatures = elim (json.parse input) [
  | none ↦ ok none
  | some d ↦
      (if ltb 2 (length uinput)
        then add_unsigned (json.parse uinput) (add_signatures signatures d)
        else ok (add_signatures signatures d))
      >>= λ ms. ok (some (json.print (j_object ms)))
]

-- pb2signedjson, of the value of a message.
unfoldable pub pb2signedjson : Rapid → Json → List Signature → Bytes
unfolding add_signatures
pb2signedjson json msg signatures = json.print (j_object (add_signatures signatures msg))

-- The signatures of one organisation, behind those that are there.
unfoldable pub read_entries : Bytes → Members → List Signature → Result (List Signature)
read_entries org no_member signatures = ok signatures
read_entries org (member key (j_text value) ms) signatures =
    read_entries org ms (signatures ++ record { org = org; key = key; value = value } ∷ [])
read_entries org (member key j ms) signatures = err undefined

-- All of them; nothing for the status IDENTT_ERR_INVALID_ARG.
unfoldable pub read_signatures : Members → List Signature → Result (Option (List Signature))
unfolding read_entries
read_signatures no_member signatures = ok (some signatures)
read_signatures (member org (j_object entries) ms) signatures =
    read_entries org entries signatures >>= λ more. read_signatures ms more
read_signatures (member org j ms) signatures = ok none

unfoldable pub signatures_at : Option Json → List Signature → Result (Option (List Signature))
unfolding read_signatures
signatures_at none signatures = ok (some signatures)
signatures_at (some (j_object ms)) signatures = read_signatures ms signatures
signatures_at (some j) signatures = err undefined

-- EraseValueByPointer
unfoldable pub erase_at : Bytes → Json → Json
unfolding erase_member
erase_at name (j_object ms) = j_object (erase_member name ms)
erase_at name j = j

-- The unsigned part as text, behind `umsg`.
unfoldable pub unsigned_text : Rapid → Option Json → Bytes
unsigned_text json none = []
unsigned_text json (some j) = json.print j

-- What follows the reading of the signatures: the text without them and without the unsigned
-- part, that part, and the signatures.
unfoldable pub split_signed :
    Rapid → Json → Option (List Signature) → Option (Bytes × Bytes × List Signature)
unfolding erase_at unsigned_text point
split_signed json d none = none
split_signed json d (some signatures) = some (
  json.print (erase_at (codes "unsigned") (erase_at (codes "signatures") d)),
  unsigned_text json (point (codes "unsigned") (erase_at (codes "signatures") d)),
  signatures,
)

-- signedjson2unsigned
unfoldable pub signedjson2unsigned :
    Rapid → Bytes → List Signature → Result (Option (Bytes × Bytes × List Signature))
unfolding signatures_at point split_signed
signedjson2unsigned json input signatures = elim (json.parse input) [
  | none ↦ ok none
  | some d ↦ signatures_at (point (codes "signatures") d) signatures >>= λ read.
      ok (split_signed json d read)
]
