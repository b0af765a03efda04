-- ===== src/Egress/Store/Tests.antt =====
-- The allowlist on small inputs.
use appx.Base.{◌≡◌, refl, ◌↔◌, ◌⊎◌, true, List, [], ◌∷◌, Any}
use appx.Text.{Text, codes, has_byte}
use appx.Text.Int.{ℤ, pos}
use appx.Egress.Glob.{star}
use appx.Egress.Store.{
  Store, Saved, missing, entries, new_store, is_allowed, add_to_allowlist, default_allowlist,
  member, key,
}
use appx.Egress.Store.Allowed.{Admits, is_allowed_iff}
use appx.Egress.Store.Updates.{add_to_allowlist_only}

abbrev one_host : List Text
one_host = codes "a.b:443" ∷ codes "*.c:443" ∷ []

abbrev opened : Store
opened = new_store (entries one_host) [] 1

wildcard_allowed : is_allowed one_host (codes "x.c") (pos 443) ≡ true
unfolding is_allowed member key appx.Egress.Store.any_entry appx.Egress.Store.wildcard_entry
    has_byte appx.Text.has_suffix appx.Egress.Store.port_suffix appx.Text.Int.print_int
    appx.Egress.Glob.wildcard_host_match appx.Text.trim_suffix
wildcard_allowed = refl

is_allowed_iff_example :
    (is_allowed one_host (codes "x.c") (pos 443) ≡ true)
    ↔ Any (Admits (codes "x.c") (pos 443)) one_host
is_allowed_iff_example = is_allowed_iff one_host (codes "x.c") (pos 443)

added_allowed :
    is_allowed
      (add_to_allowlist true (codes "d") (pos 80) opened).1.allowlist
      (codes "x.c")
      (pos 443)
    ≡ true
unfolding is_allowed add_to_allowlist new_store member appx.Egress.Store.reload_allowlist
    appx.Egress.Store.load key appx.Egress.Store.set_allowlist appx.Egress.Store.any_entry
    appx.Egress.Store.wildcard_entry has_byte appx.Egress.Store.port_suffix appx.Text.Int.print_int
    appx.Text.has_suffix appx.Egress.Glob.wildcard_host_match appx.Text.trim_suffix
added_allowed = refl

add_to_allowlist_only_example :
    (is_allowed
        (add_to_allowlist true (codes "d") (pos 80) opened).1.allowlist
        (codes "x.c")
        (pos 443)
      ≡ true)
    ↔ ((is_allowed opened.allowlist (codes "x.c") (pos 443) ≡ true)
        ⊎ ((codes "x.c" ≡ codes "d") × (pos 443 ≡ pos 80)))
add_to_allowlist_only_example =
    add_to_allowlist_only (codes "d") (pos 80) opened true (codes "x.c") (pos 443)
      (unfold has_byte in refl)
