-- ===== src/Tables/IndexLaws.antt =====
-- Proofs on the other tables of src/store: what `StoreTable` relies on.
use mathlib.Core.List.{append_assoc}
use identt.Prelude.{
  ℕ, ◌^◌, ◌<◌, ◌≡◌, refl, ap, subst, sym, ◌∙◌, Bytes, [], ◌∷◌, ◌++◌, true, false, ◌==◌, arith,
  length, length-append, append_cancel, if◌then◌else◌, ◌⊎◌, inl, inr,
}
use identt.Keys.{
  KeyType, uint, strn, joined, part_bytes, uint_only, encode_key_type, encode_secondary_key,
  node_len, sep, u_globalassoc_originserver_originid, i_invitetoken_token,
  i_invitetoken_medium_address,
}
use identt.Keys.Hex.{length-hex}
use identt.Keys.Distinct.{uint_only_inj}
use identt.Engine.{Codec}
use identt.Table.{mem}
use identt.Table.Laws.{IsTable}
use identt.Tables.Indexes.{
  global_assoc_key, global_assoc_table, invite_token_key, invite_token_table, par_avion_key,
  par_avion_table, mail_sent_key, mail_sent_table,
}
use identt.Tables.Records.{GlobalAssoc, InviteToken, ParAvion, MailSent}

length-uint_only : (n : ℕ) → length (uint_only n) ≡ node_len
unfolding uint_only
length-uint_only n = length-hex 16 n

-- What ends in a uint64 determines it.
ends_in_uint :
    (a b : Bytes) (m n : ℕ) → m < 2 ^ 64 → n < 2 ^ 64 → a ++ uint_only m ≡ b ++ uint_only n → m ≡ n
ends_in_uint a b m n h k e =
    uint_only_inj m n h k
      (append_cancel a b (uint_only m) (uint_only n)
        (omega (
          arith,
          length-append a (uint_only m),
          length-append b (uint_only n),
          length-uint_only m,
          length-uint_only n,
          ap length e,
        ))
        e).1

-- The key of an index, up to the id at its end.
one_text :
    (k : KeyType) (s : Bytes) (n : ℕ)
    → encode_secondary_key k (strn s ∷ uint n ∷ [])
      ≡ (encode_key_type k ++ (s ++ sep)) ++ uint_only n
unfolding encode_secondary_key joined part_bytes
one_text k s n =
    ap (◌++◌ (encode_key_type k)) (sym (append_assoc s sep (uint_only n)))
    ∙ sym (append_assoc (encode_key_type k) (s ++ sep) (uint_only n))

two_texts :
    (k : KeyType) (m a : Bytes) (n : ℕ)
    → encode_secondary_key k (strn m ∷ strn a ∷ uint n ∷ [])
      ≡ (encode_key_type k ++ (m ++ (sep ++ (a ++ sep)))) ++ uint_only n
unfolding encode_secondary_key joined part_bytes
two_texts k m a n =
    ap (λ r. encode_key_type k ++ (m ++ (sep ++ r))) (sym (append_assoc a sep (uint_only n)))
    ∙ ap (◌++◌ (encode_key_type k)) (sym (append_assoc m (sep ++ (a ++ sep)) (uint_only n)))
    ∙ sym (append_assoc (encode_key_type k) (m ++ (sep ++ (a ++ sep))) (uint_only n))

one_text_inj :
    (k : KeyType) (s t : Bytes) (m n : ℕ)
    → m < 2 ^ 64
    → n < 2 ^ 64
    → encode_secondary_key k (strn s ∷ uint m ∷ []) ≡ encode_secondary_key k (strn t ∷ uint n ∷ [])
    → m ≡ n
one_text_inj k s t m n h l e = ends_in_uint _ _ m n h l (sym (one_text k s m) ∙ e ∙ one_text k t n)

two_texts_inj :
    (k : KeyType) (x a y b : Bytes) (m n : ℕ)
    → m < 2 ^ 64
    → n < 2 ^ 64
    → encode_secondary_key k (strn x ∷ strn a ∷ uint m ∷ [])
      ≡ encode_secondary_key k (strn y ∷ strn b ∷ uint n ∷ [])
    → m ≡ n
two_texts_inj k x a y b m n h l e =
    ends_in_uint _ _ m n h l (sym (two_texts k x a m) ∙ e ∙ two_texts k y b n)

global_assoc_index_key :
    {Value : Type 0} (c : Codec Value GlobalAssoc) (r : GlobalAssoc) (k : KeyType)
    → mem k (global_assoc_table c).index_keys ≡ true
    → global_assoc_key r k false
      ≡ encode_secondary_key k (strn r.medium ∷ strn r.address ∷ uint r.id ∷ [])
unfolding global_assoc_key mem
global_assoc_index_key c r k m = ground arith

-- What follows the key type in a secondary key.
abbrev global_assoc_rest : GlobalAssoc → KeyType → Bytes
global_assoc_rest r k =
    if k == u_globalassoc_originserver_originid
    then joined (strn r.origin_server ∷ uint r.origin_id ∷ [])
    else joined (strn r.medium ∷ strn r.address ∷ uint r.id ∷ [])

pub global_assoc_table-IsTable :
    {Value : Type 0} (c : Codec Value GlobalAssoc) → IsTable (global_assoc_table c)
unfolding global_assoc_key mem encode_secondary_key
global_assoc_table-IsTable c = record {
  id-set_id = λ i r. refl;
  primary_small = omega arith;
  get_key_primary = λ r. refl;
  secondary_small = λ k s. ground arith;
  secondary_ne_primary = λ k s. ground arith;
  get_key_type = λ r k s. (global_assoc_rest r k, ground arith);
  unique_key_set_id = λ i r k m. ground arith;
  index_key_id = λ r s k m h l e.
      two_texts_inj k r.medium r.address s.medium s.address r.id s.id h l
        (sym (global_assoc_index_key c r k m) ∙ e ∙ global_assoc_index_key c s k m);
}

abbrev invite_token_rest : InviteToken → KeyType → Bytes
invite_token_rest r k =
    if k == i_invitetoken_token
    then joined (strn r.token ∷ uint r.id ∷ [])
    else joined (strn r.medium ∷ strn r.address ∷ uint r.id ∷ [])

invite_token_index_key :
    (r : InviteToken)
    → (invite_token_key r i_invitetoken_token false
        ≡ encode_secondary_key i_invitetoken_token (strn r.token ∷ uint r.id ∷ []))
      × (invite_token_key r i_invitetoken_medium_address false
          ≡ encode_secondary_key i_invitetoken_medium_address
              (strn r.medium ∷ strn r.address ∷ uint r.id ∷ []))
unfolding invite_token_key
invite_token_index_key r = (refl, refl)

invite_token_id :
    (r s : InviteToken) (k : KeyType)
    → (k ≡ i_invitetoken_medium_address) ⊎ (k ≡ i_invitetoken_token)
    → r.id < 2 ^ 64
    → s.id < 2 ^ 64
    → invite_token_key r k false ≡ invite_token_key s k false
    → r.id ≡ s.id
invite_token_id r s k (inl p) h l e =
    two_texts_inj k r.medium r.address s.medium s.address r.id s.id h l (
      subst
        (λ j.
          encode_secondary_key j (strn r.medium ∷ strn r.address ∷ uint r.id ∷ [])
          ≡ encode_secondary_key j (strn s.medium ∷ strn s.address ∷ uint s.id ∷ []))
        (sym p)
        (sym (invite_token_index_key r).1
          ∙ subst (λ j. invite_token_key r j false ≡ invite_token_key s j false) p e
          ∙ (invite_token_index_key s).1))
invite_token_id r s k (inr p) h l e = one_text_inj k r.token s.token r.id s.id h l (
    subst
      (λ j.
        encode_secondary_key j (strn r.token ∷ uint r.id ∷ [])
        ≡ encode_secondary_key j (strn s.token ∷ uint s.id ∷ []))
      (sym p)
      (sym (invite_token_index_key r).0
        ∙ subst (λ j. invite_token_key r j false ≡ invite_token_key s j false) p e
        ∙ (invite_token_index_key s).0))

invite_token_index :
    {Value : Type 0} (c : Codec Value InviteToken) (k : KeyType)
    → mem k (invite_token_table c).index_keys ≡ true
    → (k ≡ i_invitetoken_medium_address) ⊎ (k ≡ i_invitetoken_token)
unfolding mem
invite_token_index c k m = ground arith

pub invite_token_table-IsTable :
    {Value : Type 0} (c : Codec Value InviteToken) → IsTable (invite_token_table c)
unfolding invite_token_key mem encode_secondary_key
invite_token_table-IsTable c = record {
  id-set_id = λ i r. refl;
  primary_small = omega arith;
  get_key_primary = λ r. refl;
  secondary_small = λ k s. ground arith;
  secondary_ne_primary = λ k s. ground arith;
  get_key_type = λ r k s. (invite_token_rest r k, ground arith);
  unique_key_set_id = λ i r k m. cc;
  index_key_id = λ r s k m. invite_token_id r s k (invite_token_index c k m);
}

pub par_avion_table-IsTable :
    {Value : Type 0} (c : Codec Value ParAvion) → IsTable (par_avion_table c)
unfolding par_avion_key mem
par_avion_table-IsTable c = record {
  id-set_id = λ i r. refl;
  primary_small = omega arith;
  get_key_primary = λ r. refl;
  secondary_small = λ k s. cc;
  secondary_ne_primary = λ k s. cc;
  get_key_type = λ r k s. ([], cc);
  unique_key_set_id = λ i r k m. cc;
  index_key_id = λ r s k m. cc;
}

pub mail_sent_table-IsTable :
    {Value : Type 0} (c : Codec Value MailSent) → IsTable (mail_sent_table c)
unfolding mail_sent_key mem
mail_sent_table-IsTable c = record {
  id-set_id = λ i r. refl;
  primary_small = omega arith;
  get_key_primary = λ r. refl;
  secondary_small = λ k s. cc;
  secondary_ne_primary = λ k s. cc;
  get_key_type = λ r k s. ([], cc);
  unique_key_set_id = λ i r k m. cc;
  index_key_id = λ r s k m. cc;
}
