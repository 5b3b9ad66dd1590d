-- ===== src/Tests/ElectionTests.antt =====
-- Tests of elections and instances of their theorems.
use identt.Prelude.{◌≡◌, ◌≢◌, ◌∙◌, refl, ap, inl, inr, Bytes, [], ◌∷◌, true, codes, beq, blt, arith}
use identt.Server.{Server, Remote}
use identt.Election.{Candidate, elect, consider, beats, master_update, take_office}
use identt.Election.Order.{at_most, candidate}
use identt.Election.Agreement.{
  Stands, NotAhead, elect_greatest, elect_agree, master_update-is_master, one_master,
}
use identt.Tests.Memory.{Memory, Blob}
use identt.Tests.TransTests.{world, slave}

abbrev url_a : Bytes
url_a = codes "http://a"

abbrev url_b : Bytes
url_b = codes "http://b"

abbrev remote_a : Remote
remote_a = record { address = url_a; logcounter = 5; updated_at = 100 }

abbrev remote_b : Remote
remote_b = record { address = url_b; logcounter = 7; updated_at = 100 }

-- Two slaves that know each other.
abbrev slave_a : Server Blob Memory
slave_a = record slave { thisurl = url_a; logcounter = 5; remotes = remote_b ∷ [] }

abbrev slave_b : Server Blob Memory
slave_b = record slave { thisurl = url_b; logcounter = 7; remotes = remote_a ∷ [] }

NotAhead-a : NotAhead (candidate remote_a) (remote_b ∷ [])
unfolding beq
NotAhead-a = (λ e. absurd (cc e), tt)

NotAhead-b : NotAhead (candidate remote_b) (remote_a ∷ [])
NotAhead-b = (λ e. refl, tt)

a_to_b :
    (x : Candidate)
    → Stands 50 (candidate remote_a) (remote_b ∷ []) x
    → Stands 50 (candidate remote_b) (remote_a ∷ []) x
a_to_b x (inl e) = inr (remote_a, inl refl, refl, e)
a_to_b x (inr (r, inl m, f, e)) = inl (e ∙ ap candidate m)
a_to_b x (inr (r, inr m, f, e)) = absurd m

b_to_a :
    (x : Candidate)
    → Stands 50 (candidate remote_b) (remote_a ∷ []) x
    → Stands 50 (candidate remote_a) (remote_b ∷ []) x
b_to_a x (inl e) = inr (remote_b, inl refl, refl, e)
b_to_a x (inr (r, inl m, f, e)) = inl (e ∙ ap candidate m)
b_to_a x (inr (r, inr m, f, e)) = absurd m

elect_greatest_example :
    at_most (candidate remote_b) (elect 50 (candidate remote_a) (remote_b ∷ [])) ≡ true
elect_greatest_example =
    elect_greatest 50 (candidate remote_a) (remote_b ∷ []) (candidate remote_b) (tt, tt) NotAhead-a
      (inr (remote_b, inl refl, refl, refl))

elect_agree_example :
    elect 50 (candidate remote_a) (remote_b ∷ []) ≡ elect 50 (candidate remote_b) (remote_a ∷ [])
elect_agree_example =
    elect_agree 50 50 (candidate remote_a) (candidate remote_b) (remote_b ∷ []) (remote_a ∷ [])
      (tt, tt) NotAhead-a (tt, tt) NotAhead-b (λ x. (a_to_b x, b_to_a x))

master_update-is_master_example :
    (master_update world (λ n a s. true) 50 slave_a).is_master
    ≡ beq (elect 50 (candidate remote_a) (remote_b ∷ [])).address url_a
master_update-is_master_example = master_update-is_master world (λ n a s. true) 50 slave_a refl

b_becomes_master : (master_update world (λ n a s. true) 50 slave_b).is_master ≡ true
unfolding master_update take_office elect consider beats beq blt
b_becomes_master = refl

urls_differ : url_b ≢ url_a
urls_differ e = absurd (ground arith)

one_master_example : (master_update world (λ n a s. true) 50 slave_a).is_master ≢ true
one_master_example =
    one_master world world (λ n a s. true) 50 50 slave_b slave_a refl refl urls_differ (tt, tt)
      NotAhead-b (tt, tt) NotAhead-a (λ x. (b_to_a x, a_to_b x)) b_becomes_master
