-- ===== src/Tests/KeyTests.antt =====
-- Tests of the key layout and instances of its theorems.
use identt.Prelude.{◌≡◌, refl, [], ◌∷◌, ◌++◌, arith, codes}
use identt.Exception.{ok}
use identt.Keys.{
  k_localassoc, u_localassoc_medium_address, u_validationsession_medium_address_clientsecret,
  decode_primary_key, encode_primary_key, encode_secondary_key, strn, sep,
}
use identt.Keys.Roundtrip.{decode_primary_key-encode_primary_key}
use identt.Keys.Separator.{
  encode_secondary_key_inj_two, encode_secondary_key_inj_three, secondary_key_clash, NoSep,
}

decode_primary_key-encode_primary_key_example :
    decode_primary_key (encode_primary_key k_localassoc 1000) ≡ ok (k_localassoc, 1000)
decode_primary_key-encode_primary_key_example =
    decode_primary_key-encode_primary_key k_localassoc 1000 (omega arith) (omega arith)

email_NoSep : NoSep (codes "email")
email_NoSep = (
  λ e. omega arith,
  (λ e. omega arith, (λ e. omega arith, (λ e. omega arith, (λ e. omega arith, tt)))),
)

at_NoSep : NoSep (codes "a@b")
at_NoSep = (λ e. omega arith, (λ e. omega arith, (λ e. omega arith, tt)))

encode_secondary_key_inj_two_example : (codes "email" ≡ codes "email") × (codes "a:b" ≡ codes "a:b")
encode_secondary_key_inj_two_example =
    encode_secondary_key_inj_two u_localassoc_medium_address (codes "email") (codes "a:b")
      (codes "email") (codes "a:b") email_NoSep email_NoSep refl

encode_secondary_key_inj_three_example :
    (codes "email" ≡ codes "email") × (codes "a@b" ≡ codes "a@b") × (codes "x:y" ≡ codes "x:y")
encode_secondary_key_inj_three_example =
    encode_secondary_key_inj_three u_validationsession_medium_address_clientsecret (codes "email")
      (codes "a@b") (codes "x:y") (codes "email") (codes "a@b") (codes "x:y") email_NoSep
      email_NoSep at_NoSep at_NoSep refl

secondary_key_clash_example :
    encode_secondary_key u_validationsession_medium_address_clientsecret
      (strn (codes "email") ∷ strn (codes "a@b" ++ (sep ++ codes "x")) ∷ strn (codes "c") ∷ [])
    ≡ encode_secondary_key u_validationsession_medium_address_clientsecret
        (strn (codes "email") ∷ strn (codes "a@b") ∷ strn (codes "x" ++ (sep ++ codes "c")) ∷ [])
secondary_key_clash_example =
    secondary_key_clash u_validationsession_medium_address_clientsecret (codes "email")
      (codes "a@b") (codes "x") (codes "c")
