-- ===== src/Query/Form/Coding.antt =====
-- Proofs on urlencode and urldecode of src/query/ProtoForm.cc.
use mathlib.Core.List.{append_assoc, append-nil}
use identt.Prelude.{
  ℕ, Bool, ◌/◌, ◌%◌, ◌<◌, ◌≡◌, refl, ap, sym, ◌∙◌, Bytes, List, [], ◌∷◌, ◌++◌, true, false,
  Bool-cases, inl, inr, ◌==◌, arith,
}
use identt.Bin2Ascii.Hex.{AllBytes}
use identt.Services.Numbers.{is_digit}
use identt.Query.Form.{
  Decoding, assign, escape, name_ends, value_ends, form_ends, decode_char, decode_loop, upper_hex,
  is_kept, encode_char, urlencode, urldecode,
}
use identt.Query.Form.Digits.{hex_pair-upper_hex}

-- What a character that is not "%" does.
decode_loop_char :
    (c : ℕ) (rest : Bytes) (s : Decoding)
    → (c == 37) ≡ false
    → decode_loop (c ∷ rest) s ≡ decode_loop rest (decode_char c s)
unfolding decode_loop
decode_loop_char c [] s h = rw h refl
decode_loop_char c (d ∷ []) s h = rw h refl
decode_loop_char c (d ∷ e ∷ rest) s h = rw (decode_loop, h) (rw h refl)

decode_kept :
    (above : ℕ → Bool) (c : ℕ) (rest : Bytes) (s : Decoding)
    → is_kept above c ≡ true
    → decode_loop (c ∷ rest) s ≡ decode_loop rest (escape c s)
unfolding is_kept is_digit decode_char
decode_kept above c rest s h =
    let plain : (c == 37) ≡ false = ground arith in
    let p : (c == 43) ≡ false = ground arith in
    let q : (c == 61) ≡ false = ground arith in
    let r : (c == 38) ≡ false = ground arith in decode_loop_char c rest s plain ∙ rw (p, q, r) refl

upper_hex_above : (n : ℕ) → (upper_hex n == 0) ≡ false
unfolding upper_hex
upper_hex_above n = ground arith

decode_pair :
    (c : ℕ) (rest : Bytes) (s : Decoding)
    → c < 256
    → decode_loop (37 ∷ upper_hex (c / 16) ∷ upper_hex (c % 16) ∷ rest) s
      ≡ decode_loop rest (escape c s)
unfolding decode_loop
decode_pair c rest s h =
    rw (decode_loop, upper_hex_above (c / 16), upper_hex_above (c % 16))
      (rw (hex_pair-upper_hex c h) refl)

decode_encoded :
    (above : ℕ → Bool) (c : ℕ) (rest : Bytes) (s : Decoding)
    → c < 256
    → decode_loop (encode_char above c ++ rest) s ≡ decode_loop rest (escape c s)
unfolding encode_char
decode_encoded above c rest s h = elim (Bool-cases (is_kept above c)) [
  | inl e ↦ rw e (decode_kept above c rest s e)
  | inr e ↦ rw e (decode_pair c rest s h)
]

-- A text that is coded goes to `escaped` as it was.
decode_text :
    (above : ℕ → Bool) (v rest : Bytes) (s : Decoding)
    → AllBytes v
    → decode_loop (urlencode above v ++ rest) s
      ≡ decode_loop rest (record s { escaped = s.escaped ++ v })
unfolding urlencode escape
decode_text above [] rest s h =
    ap (λ e. decode_loop rest (record s { escaped = e })) (sym (append-nil s.escaped))
decode_text above (c ∷ v) rest s h =
    ap (λ t. decode_loop t s) (append_assoc (encode_char above c) (urlencode above v) rest)
    ∙ decode_encoded above c (urlencode above v ++ rest) s h.0
    ∙ decode_text above v rest (escape c s) h.1
    ∙ ap (λ e. decode_loop rest (record s { escaped = e })) (append_assoc s.escaped (c ∷ []) v)

-- A name and a value, written with "=" between them.
unfoldable pub field : (ℕ → Bool) → Bytes × Bytes → Bytes
field above (name, value) = urlencode above name ++ 61 ∷ urlencode above value

-- The fields of a form, with "&" between them.
unfoldable pub form : (ℕ → Bool) → Bytes × Bytes → List (Bytes × Bytes) → Bytes
unfolding field
form above f [] = field above f
form above f (g ∷ fs) = field above f ++ 38 ∷ form above g fs

-- The map with each of the fields assigned in turn.
unfoldable pub assign_all : List (Bytes × Bytes) → List (Bytes × Bytes) → List (Bytes × Bytes)
assign_all [] m = m
assign_all (f ∷ fs) m = assign_all fs (assign f.0 f.1 m)

abbrev pub FieldsBytes : List (Bytes × Bytes) → Type 0
FieldsBytes [] = Unit {0}
FieldsBytes (f ∷ fs) = AllBytes f.0 × AllBytes f.1 × FieldsBytes fs

-- Between two fields.
abbrev at_field : Bytes → List (Bytes × Bytes) → Decoding
at_field name m = record { m = m; name = name; name_set = false; escaped = [] }

-- After a field, before it is assigned.
abbrev read_field : Bytes × Bytes → List (Bytes × Bytes) → Decoding
read_field f m = record { m = m; name = f.0; name_set = true; escaped = f.1 }

decode_field :
    (above : ℕ → Bool) (f : Bytes × Bytes) (rest name : Bytes) (m : List (Bytes × Bytes))
    → AllBytes f.0
    → AllBytes f.1
    → decode_loop (field above f ++ rest) (at_field name m) ≡ decode_loop rest (read_field f m)
unfolding field name_ends decode_char
decode_field above (k, v) rest name m hk hv =
    ap (λ t. decode_loop t (at_field name m))
      (append_assoc (urlencode above k) (61 ∷ urlencode above v) rest)
    ∙ decode_text above k (61 ∷ urlencode above v ++ rest) (at_field name m) hk
    ∙ decode_loop_char 61 (urlencode above v ++ rest)
        (record { m = m; name = name; name_set = false; escaped = k }) refl
    ∙ decode_text above v rest (record { m = m; name = k; name_set = true; escaped = [] }) hv

decode_form :
    (above : ℕ → Bool) (f : Bytes × Bytes) (fs : List (Bytes × Bytes)) (name : Bytes)
    (m : List (Bytes × Bytes))
    → FieldsBytes (f ∷ fs)
    → form_ends (decode_loop (form above f fs) (at_field name m)) ≡ assign_all (f ∷ fs) m
unfolding form form_ends assign_all decode_loop decode_char value_ends
decode_form above f [] name m (hk, hv, h) =
    ap (λ t. form_ends (decode_loop t (at_field name m))) (sym (append-nil (field above f)))
    ∙ ap form_ends (decode_field above f [] name m hk hv)
decode_form above f (g ∷ fs) name m (hk, hv, h) =
    ap form_ends (
      decode_field above f (38 ∷ form above g fs) name m hk hv
      ∙ decode_loop_char 38 (form above g fs) (read_field f m) refl)
    ∙ decode_form above g fs f.0 (assign f.0 f.1 m) h

-- The fields of a form whose names and values are coded by urlencode, which may hold any bytes,
-- are read back by urldecode, each assigned in turn, whatever std::isalnum gives of a byte from
-- 128 on.
pub urldecode-form :
    (above : ℕ → Bool) (f : Bytes × Bytes) (fs : List (Bytes × Bytes))
    → FieldsBytes (f ∷ fs)
    → urldecode (form above f fs) ≡ assign_all (f ∷ fs) []
unfolding urldecode
urldecode-form above f fs h = decode_form above f fs [] [] h
