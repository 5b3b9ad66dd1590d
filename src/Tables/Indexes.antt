-- ===== src/Tables/Indexes.antt =====
-- The tables with an index, `GlobalAssocTable` and `InviteTokenTable`, and those with no secondary
-- key, `ParAvionTable` and `MailSentTable` (src/store).
use identt.Prelude.{Bytes, [], ◌∷◌, Bool, ◌==◌, if◌then◌else◌}
use identt.Keys.{
  KeyType, uint, strn, encode_primary_key, encode_secondary_key, k_globalassoc,
  u_globalassoc_originserver_originid, i_globalassoc_medium_address, k_invitetoken,
  i_invitetoken_medium_address, i_invitetoken_token, k_paravion, k_mailsent,
}
use identt.Engine.{Codec}
use identt.Table.{Table}
use identt.Tables.Records.{
  GlobalAssoc, blank_global_assoc, InviteToken, blank_invite_token, ParAvion, blank_par_avion,
  MailSent, blank_mail_sent,
}

unfoldable pub global_assoc_key : GlobalAssoc → KeyType → Bool → Bytes
global_assoc_key r keytype pre =
    if keytype == u_globalassoc_originserver_originid
    then encode_secondary_key keytype (strn r.origin_server ∷ uint r.origin_id ∷ [])
    else if keytype == i_globalassoc_medium_address
    then (if pre
        then encode_secondary_key keytype (strn r.medium ∷ strn r.address ∷ [])
        else encode_secondary_key keytype (strn r.medium ∷ strn r.address ∷ uint r.id ∷ []))
    else encode_primary_key k_globalassoc r.id

abbrev pub global_assoc_table : {Value : Type 0} → Codec Value GlobalAssoc → Table Value GlobalAssoc
global_assoc_table codec = record {
  primary_key = k_globalassoc;
  unique_keys = u_globalassoc_originserver_originid ∷ [];
  index_keys = i_globalassoc_medium_address ∷ [];
  get_key = global_assoc_key;
  codec = codec;
  blank = blank_global_assoc;
  id = λ r. r.id;
  set_id = λ i r. record r { id = i };
  notfound = λ r. r.notfound;
}

unfoldable pub invite_token_key : InviteToken → KeyType → Bool → Bytes
invite_token_key r keytype pre =
    if keytype == i_invitetoken_token
    then (if pre
        then encode_secondary_key keytype (strn r.token ∷ [])
        else encode_secondary_key keytype (strn r.token ∷ uint r.id ∷ []))
    else if keytype == i_invitetoken_medium_address
    then (if pre
        then encode_secondary_key keytype (strn r.medium ∷ strn r.address ∷ [])
        else encode_secondary_key keytype (strn r.medium ∷ strn r.address ∷ uint r.id ∷ []))
    else encode_primary_key k_invitetoken r.id

-- The `std::set` of the two index keys is walked in the order of their numbers.
abbrev pub invite_token_table : {Value : Type 0} → Codec Value InviteToken → Table Value InviteToken
invite_token_table codec = record {
  primary_key = k_invitetoken;
  unique_keys = [];
  index_keys = i_invitetoken_medium_address ∷ i_invitetoken_token ∷ [];
  get_key = invite_token_key;
  codec = codec;
  blank = blank_invite_token;
  id = λ r. r.id;
  set_id = λ i r. record r { id = i };
  notfound = λ r. r.notfound;
}

unfoldable pub par_avion_key : ParAvion → KeyType → Bool → Bytes
par_avion_key r keytype pre = encode_primary_key k_paravion r.id

abbrev pub par_avion_table : {Value : Type 0} → Codec Value ParAvion → Table Value ParAvion
par_avion_table codec = record {
  primary_key = k_paravion;
  unique_keys = [];
  index_keys = [];
  get_key = par_avion_key;
  codec = codec;
  blank = blank_par_avion;
  id = λ r. r.id;
  set_id = λ i r. record r { id = i };
  notfound = λ r. r.notfound;
}

unfoldable pub mail_sent_key : MailSent → KeyType → Bool → Bytes
mail_sent_key r keytype pre = encode_primary_key k_mailsent r.id

abbrev pub mail_sent_table : {Value : Type 0} → Codec Value MailSent → Table Value MailSent
mail_sent_table codec = record {
  primary_key = k_mailsent;
  unique_keys = [];
  index_keys = [];
  get_key = mail_sent_key;
  codec = codec;
  blank = blank_mail_sent;
  id = λ r. r.id;
  set_id = λ i r. record r { id = i };
  notfound = λ r. r.notfound;
}
