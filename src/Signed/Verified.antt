-- ===== src/Signed/Verified.antt =====
-- Proofs on AddSign and VerifySign of src/query/SignedJson.cc.
use mathlib.Core.List.{append-nil}
use identt.Prelude.{
  c_str, ℕ, ◌/◌, ◌%◌, ◌*◌, ◌+◌, ◌≡◌, refl, ap, sym, ◌∙◌, Bytes, List, [], ◌∷◌, true, false, none,
  some, beq_refl, codes, ◌==◌, arith,
}
use identt.Exception.{ok, ◌>>=◌}
use identt.Bin2Ascii.Hex.{AllBytes}
use identt.Bin2Ascii.Base64.{
  b64_char, b64_groups, b64_encode, b64_encode_strip, b64_sanit_decode-b64_encode_strip,
}
use identt.Hrpc.Master.{PubKey}
use identt.Json.{
  Members, j_object, Rapid, Signature, get_member, point, read_entries, read_signatures,
  signatures_at, split_signed, unsigned2signedjson, signedjson2unsigned,
}
use identt.Json.Added.{
  one_entry, signed_object, IsPlain, get_member-add_member, add_signatures_one,
  unsigned2signedjson_read, signedjson2unsigned_read, split_signed_one,
}
use identt.Signed.{
  Sodium, Ed25519, scope_all, scope_signit, scope_verify, ring_key, key_id, get_signer,
  get_signature, verify_signature, signature_of, or_bad_json, add_sign_text, find_signature,
  verify_split, verify_sign,
}

c_str_cons : (c : ℕ) (s : Bytes) → (c == 0) ≡ false → c_str s ≡ s → c_str (c ∷ s) ≡ c ∷ s
unfolding c_str
c_str_cons c s h e = rw (h, e) refl

b64_char_above : (n : ℕ) → (b64_char n == 0) ≡ false
unfolding b64_char
b64_char_above n = ground arith

c_str-b64_groups : (s : Bytes) → c_str (b64_groups s) ≡ b64_groups s
unfolding b64_groups c_str
c_str-b64_groups [] = refl
c_str-b64_groups (a ∷ []) =
    c_str_cons (b64_char (a / 4)) _ (b64_char_above (a / 4))
      (c_str_cons (b64_char (a % 4 * 16)) _ (b64_char_above (a % 4 * 16)) refl)
c_str-b64_groups (a ∷ b ∷ []) = c_str_cons _ _ (b64_char_above (a / 4)) (
    c_str_cons _ _ (b64_char_above (a % 4 * 16 + b / 16))
      (c_str_cons _ _ (b64_char_above (b % 16 * 4)) refl))
c_str-b64_groups (a ∷ b ∷ c ∷ s) = c_str_cons _ _ (b64_char_above (a / 4)) (
    c_str_cons _ _ (b64_char_above (a % 4 * 16 + b / 16)) (
      c_str_cons _ _ (b64_char_above (b % 16 * 4 + c / 64))
        (c_str_cons _ _ (b64_char_above (c % 64)) (c_str-b64_groups s))))

c_str-b64_encode_strip : (s : Bytes) → c_str (b64_encode_strip s) ≡ b64_encode_strip s
unfolding b64_encode_strip b64_encode
c_str-b64_encode_strip s =
    ap c_str (append-nil (b64_groups s)) ∙ c_str-b64_groups s ∙ sym (append-nil (b64_groups s))

module _ (json : Rapid) (sodium : Sodium) (keyring : List (Bytes × Ed25519)) (pubkey : PubKey)
    (key : Ed25519) where
  -- The key of the keyring that signs, with what libsodium documents of its pair.
  pub record IsOwnKey : Type 0 where
    pub listed : pubkey.no_keyring ≡ false
    pub found : ring_key (key_id pubkey) keyring ≡ some key
    pub all_scopes : key.scope ≡ scope_all
    pub verifies :
        (m : Bytes) → sodium.verify_detached (sodium.sign_detached m key.seckey) m key.pubkey ≡ true
    pub signature_bytes : (m : Bytes) → AllBytes (sodium.sign_detached m key.seckey)

  -- The signature of a text.
  abbrev pub own_signature : Bytes → Signature
  own_signature m = record {
    org = pubkey.owner;
    key = key_id pubkey;
    value = b64_encode_strip (sodium.sign_detached m key.seckey);
  }

  get_signer_own : (scope : ℕ) → IsOwnKey → get_signer keyring pubkey scope ≡ ok key
  unfolding get_signer
  get_signer_own scope own = rw (get_signer, own.listed) (rw (own.found) refl)

  signature_of_own :
      (m : Bytes) → IsOwnKey → signature_of json sodium keyring pubkey m ≡ ok (own_signature m)
  unfolding signature_of get_signature
  signature_of_own m own = rw (get_signer_own scope_signit own, own.all_scopes) refl

  verify_own :
      (m : Bytes)
      → IsOwnKey
      → verify_signature sodium key (b64_encode_strip (sodium.sign_detached m key.seckey)) m
        ≡ ok true
  unfolding verify_signature
  verify_own m own =
      rw
        (
          own.all_scopes,
          b64_sanit_decode-b64_encode_strip (sodium.sign_detached m key.seckey)
              (own.signature_bytes m),
        )
        (ap (λ b. ok b) (own.verifies m))

  module _ (ms : Members) (no_signatures : get_member (codes "signatures") ms ≡ none)
      (own : IsOwnKey) where
    abbrev text : Bytes
    text = json.print (j_object ms)

    abbrev signed_text : Bytes
    signed_text = json.print (signed_object (own_signature text) ms)

    add_sign_text_own :
        IsPlain (own_signature text)
        → json.parse text ≡ some (j_object ms)
        → add_sign_text json sodium keyring text [] pubkey []
          ≡ ok (own_signature text ∷ [], signed_text)
    unfolding add_sign_text or_bad_json
    add_sign_text_own plain parsed =
        ap
          (λ r. r >>= λ s. (unsigned2signedjson json text [] (s ∷ []) >>= or_bad_json) >>= λ output.
            ok (s ∷ [], output))
          (signature_of_own text own)
        ∙ ap (λ r. (r >>= or_bad_json) >>= λ output. ok (own_signature text ∷ [], output))
            (unsigned2signedjson_read json text (j_object ms) (own_signature text ∷ []) parsed)
        ∙ ap (λ j. ok (own_signature text ∷ [], json.print j))
            (add_signatures_one (own_signature text) ms plain no_signatures)

    split_own :
        get_member (codes "unsigned") ms ≡ none
        → json.parse signed_text ≡ some (signed_object (own_signature text) ms)
        → signedjson2unsigned json signed_text [] ≡ ok (some (text, [], own_signature text ∷ []))
    unfolding signatures_at point read_signatures read_entries
    split_own no_unsigned parsed =
        signedjson2unsigned_read json signed_text (signed_object (own_signature text) ms) [] parsed
        ∙ ap
            (λ found. signatures_at found [] >>= λ read.
              ok (split_signed json (signed_object (own_signature text) ms) read))
            (get_member-add_member (codes "signatures") (one_entry (own_signature text)) ms
              no_signatures)
        ∙ ap (λ parts. ok parts)
            (split_signed_one json (own_signature text) ms no_signatures no_unsigned)

    verify_split_own :
        verify_split json sodium keyring pubkey (some (text, [], own_signature text ∷ []))
        ≡ ok (text, [])
    unfolding verify_split find_signature
    verify_split_own =
        rw (verify_split, beq_refl pubkey.owner, beq_refl (key_id pubkey))
          (rw (get_signer_own scope_verify own) (rw (verify_own text own) refl))

    -- The text of a JSON object without signatures and without an unsigned part, which rapidjson
    -- reads as it has written it, signed or not. AddSign with the server's own key succeeds, and
    -- VerifySign of what it gives, with the same key, gives the text back, if the owner and the id
    -- of the key have no NUL.
    pub verify_sign-add_sign_text :
        get_member (codes "unsigned") ms ≡ none
        → c_str pubkey.owner ≡ pubkey.owner
        → c_str (key_id pubkey) ≡ key_id pubkey
        → json.parse text ≡ some (j_object ms)
        → json.parse signed_text ≡ some (signed_object (own_signature text) ms)
        → (add_sign_text json sodium keyring text [] pubkey []
            ≡ ok (own_signature text ∷ [], signed_text))
          × (verify_sign json sodium keyring signed_text pubkey [] ≡ ok (text, []))
    unfolding verify_sign
    verify_sign-add_sign_text no_unsigned owner id parsed signed_parsed = (
      add_sign_text_own
          (record {
            org = owner;
            key = id;
            value = c_str-b64_encode_strip (sodium.sign_detached text key.seckey);
          })
          parsed,
      ap (λ r. r >>= λ parts. verify_split json sodium keyring pubkey parts)
            (split_own no_unsigned signed_parsed)
          ∙ verify_split_own,
    )
