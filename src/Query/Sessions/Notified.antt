-- ===== src/Query/Sessions/Notified.antt =====
-- Proofs on the posts of 3pid/bind in include/query/ThreePidService.hpp.
use identt.Prelude.{
  ℕ, ◌≡◌, refl, ap, sym, ◌∙◌, Bytes, List, [], ◌∷◌, ◌++◌, false, none, some, ◌==◌, Bool-cases, inl,
  inr, arith,
}
use identt.Services.Numbers.{split, add_front}
use identt.Query.Sessions.{server_of, onbind_url, notified_on_post, notified_on_get, notified_parts}

-- A text without a ":".
abbrev pub NoColon : Bytes → Type 0
NoColon [] = Unit {0}
NoColon (c ∷ s) = ((c == 58) ≡ false) × NoColon s

server_of_colon :
    (parts : List Bytes) (p : Bytes) (ps : List Bytes)
    → parts ≡ p ∷ ps
    → server_of ([] ∷ parts) ≡ 58 ∷ server_of parts
unfolding server_of
server_of_colon parts p ps e = ap (λ t. server_of ([] ∷ t)) e ∙ ap (λ t. 58 ∷ server_of t) (sym e)

server_of_front :
    (c : ℕ) (p : Bytes) (ps : List Bytes) → server_of ((c ∷ p) ∷ ps) ≡ c ∷ server_of (p ∷ ps)
unfolding server_of
server_of_front c p [] = refl
server_of_front c p (q ∷ ps) = refl

-- A text has at least one part.
parts_of : (s : Bytes) → (p : Bytes) × (ps : List Bytes) × (split s ≡ p ∷ ps)
unfolding split add_front
parts_of [] = ([], [], refl)
parts_of (c ∷ s) =
    let (p, ps, e) = parts_of s in
    elim (Bool-cases (c == 58)) [
      | inl h ↦ ([], split s, rw h refl)
      | inr h ↦ (c ∷ p, ps, rw (h, e) refl)
    ]

-- The parts put together again.
server_of-split : (s : Bytes) → server_of (split s) ≡ s
unfolding split add_front server_of
server_of-split [] = refl
server_of-split (c ∷ s) =
    let (p, ps, e) = parts_of s in
    let whole = server_of-split s in
    elim (Bool-cases (c == 58)) [
      | inl h ↦
          let colon : c ≡ 58 = ground arith in
          rw h (
            server_of_colon (split s) p ps e ∙ ap (λ t. 58 ∷ t) whole ∙ ap (λ d. d ∷ s) (sym colon))
      | inr h ↦ rw (h, e) (server_of_front c p ps ∙ ap (λ t. c ∷ t) (ap server_of (sym e) ∙ whole))
    ]

split_name : (name s : Bytes) → NoColon name → split (name ++ 58 ∷ s) ≡ name ∷ split s
unfolding split add_front
split_name [] s h = refl
split_name (c ∷ name) s h = rw (h.0, split_name name s h.1) refl

-- A binding of a user whose id has a server's name after its first ":" is posted to that server,
-- also if the name ends with a port.
pub notified_on_post_lem :
    (name server output : Bytes)
    → NoColon name
    → notified_on_post (name ++ 58 ∷ server) output ≡ some (onbind_url server, output)
unfolding notified_on_post
notified_on_post_lem name server output h =
    let (p, ps, e) = parts_of server in
    rw (notified_on_post, split_name name server h, e)
      (ap (λ t. some (onbind_url t, output)) (ap server_of (sym e) ∙ server_of-split server))

-- On a GET the same binding is posted to no one if the server's name has a port.
pub notified_on_get_lem :
    (name host port output : Bytes)
    → NoColon name
    → NoColon host
    → notified_on_get (name ++ 58 ∷ (host ++ 58 ∷ port)) output ≡ none
unfolding notified_on_get notified_parts
notified_on_get_lem name host port output h k =
    let (p, ps, e) = parts_of port in
    ap (notified_parts output) (
      split_name name (host ++ 58 ∷ port) h
      ∙ ap (λ t. name ∷ t) (split_name host port k ∙ ap (λ t. host ∷ t) e))
