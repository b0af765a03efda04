-- ===== src/Egress/Glob/Tests.antt =====
-- Patterns on small inputs.
use appx.Base.{◌≡◌, refl, arith, true, ◌∷◌, ◌++◌, length}
use appx.Text.{Text, codes, has_byte, split}
use appx.Egress.Glob.{star, dot, label_glob, wildcard_host_match}
use appx.Egress.Glob.Meaning.{Glob, done, literal, skip, more}
use appx.Egress.Glob.Exact.{label_glob_overlap}
use appx.Egress.Glob.Hosts.{wildcard_host_match_domain}

a_star_Glob : Glob (codes "a*") (codes "ab")
a_star_Glob = literal b'a' (λ e. absurd (omega (arith, e))) (more b'b' (skip done))

label_glob_overlap_example :
    (label_glob (codes "ab" ++ star ∷ codes "ab") (codes "ab") ≡ true)
    × ¬ Glob (codes "ab" ++ star ∷ codes "ab") (codes "ab")
label_glob_overlap_example = label_glob_overlap (codes "ab") (unfold has_byte in refl) (λ e. cc e)

sub_domain_matches : wildcard_host_match (codes "*" ++ dot ∷ codes "b.c") (codes "x.b.c") ≡ true
unfolding wildcard_host_match
sub_domain_matches = refl

wildcard_host_match_domain_example :
    (front : Text) × (codes "x.b.c" ≡ front ++ dot ∷ codes "b.c")
    × (length (split dot (codes "*" ++ dot ∷ codes "b.c")) ≡ length (split dot (codes "x.b.c")))
wildcard_host_match_domain_example =
    wildcard_host_match_domain (codes "*") (codes "b.c") (codes "x.b.c") (unfold has_byte in refl)
      sub_domain_matches
