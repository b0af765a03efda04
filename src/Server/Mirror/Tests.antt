-- ===== src/Server/Mirror/Tests.antt =====
-- A request for the sessions of one project.
use appx.Base.{
  ◌≡◌, ◌≢◌, refl, inl, inr, Bool, Bool-cases, arith, true, false, ◌||◌, ◌++◌, All, if◌then◌else◌,
  some, none, List, [], ◌∷◌,
}
use appx.Text.{Text, codes, split, trim_prefix, text_eq}
use appx.Project.Store.{Row, new_row}
use appx.Text.Equality.{text_eq_iff}
use appx.Server.Mirror.{slash, mirror}
use appx.Server.Mirror.Laws.{Descends, Exposed, mirror-Exposed}

abbrev shop_rows : List Row
shop_rows = new_row (codes "1") (codes "shop") 10000 10001 5 ∷ []

-- A cleaner that gives up on a path with a segment that climbs.
climbs : List Text → Bool
climbs [] = false
climbs (segment ∷ segments) = text_eq segment (codes "..") || climbs segments

path_clean : Text → Text
path_clean p = if climbs (split slash p) then codes "/" else p

or-false : (a b : Bool) → (a || b) ≡ false → (a ≡ false) × (b ≡ false)
or-false a b h = ground arith

segments_descend :
    (segments : List Text)
    → climbs segments ≡ false
    → All (λ segment. segment ≢ codes "..") segments
unfolding climbs
segments_descend [] h = tt
segments_descend (segment ∷ segments) h = (
  (λ e.
      cc ((text_eq_iff segment (codes "..")).1 e, (or-false (text_eq segment (codes "..")) _ h).0)),
  segments_descend segments (or-false _ _ h).1,
)

path_clean-Descends : (p : Text) → Descends (path_clean p)
unfolding path_clean
path_clean-Descends p = elim (Bool-cases (climbs (split slash p))) [
  | inl up ↦ rw up (unfold split text_eq in ((λ e. cc e), ((λ e. cc e), tt)))
  | inr down ↦ rw down (segments_descend (split slash p) down)
]

forwarded :
    mirror path_clean true shop_rows (codes "POST") (codes "v1/projects/shop/sessions")
    ≡ some (codes "/v1/projects/shop/sessions")
unfolding mirror appx.Server.Mirror.mirror_access_allowed appx.Server.Mirror.segments_allowed split
    trim_prefix path_clean climbs text_eq appx.Server.Mirror.projects_allowed
    appx.Project.Store.get_by_name appx.Project.Store.find_name new_row
forwarded = refl

climbing : mirror path_clean true shop_rows (codes "GET") (codes "v1/sessions/../projects") ≡ none
unfolding mirror appx.Server.Mirror.mirror_access_allowed appx.Server.Mirror.segments_allowed split
    trim_prefix path_clean climbs text_eq
climbing = refl

mirror-Exposed_example :
    Descends (codes "/v1/projects/shop/sessions")
    × Exposed shop_rows
        (codes "POST")
        (split slash (trim_prefix (codes "/v1/projects/shop/sessions") (codes "/")))
mirror-Exposed_example =
    mirror-Exposed path_clean true shop_rows (codes "POST") (codes "v1/projects/shop/sessions")
      (codes "/v1/projects/shop/sessions") (λ p. path_clean-Descends (codes "/" ++ p)) forwarded
