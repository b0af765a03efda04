-- ===== src/Server/Mirror/Laws.antt =====
-- What the mirror exposes of the agent-server.
use appx.Base.{
  ◌≡◌, ◌≢◌, sym, ap, subst, Bool, true, some, All, Bool-cases, ◌++◌, Option-cases, List, [], ◌∷◌,
  arith, inl, inr,
}
use appx.Text.{Text, codes, text_eq, split, trim_prefix}
use appx.Text.Equality.{text_eq→eq}
use appx.Project.Store.{Row, get_by_name, find_name}
use appx.Server.Mirror.{slash, projects_allowed, segments_allowed, mirror_access_allowed, mirror}

projects_allowed-known :
    (db_ok : Bool) (rows : List Row) (more : List Text)
    → projects_allowed db_ok rows more ≡ true
    → (slug : Text) × (rest : List Text) × (r : Row) × (more ≡ slug ∷ codes "sessions" ∷ rest)
      × (find_name slug rows ≡ some r)
projects_allowed-known db_ok rows [] h = unfold projects_allowed in cc h
projects_allowed-known db_ok rows (slug ∷ []) h = unfold projects_allowed in cc h
projects_allowed-known db_ok rows (slug ∷ part ∷ more) h =
    elim (Option-cases (find_name slug rows)) [
      | inl gone ↦ unfold projects_allowed get_by_name in ground (arith, h, gone)
      | inr (r, found) ↦ (
        slug,
        more,
        r,
        ap (λ (t : Text). slug ∷ t ∷ more)
            (text_eq→eq part (codes "sessions") (unfold projects_allowed in ground (arith, h))),
        found,
      )
    ]

-- What the mirror exposes, by the segments of a path: reading the global sessions, the credentials and
-- the custom providers of the agent-server, and the sessions of a project in the table.
pub data Exposed (rows : List Row) (method : Text) : List Text → Type 0 where
  global_sessions :
      (rest : List Text)
      → method ≡ codes "GET"
      → Exposed rows method (codes "v1" ∷ codes "sessions" ∷ rest)
  credentials : (rest : List Text) → Exposed rows method (codes "v1" ∷ codes "auth" ∷ rest)
  providers : (rest : List Text) → Exposed rows method (codes "v1" ∷ codes "custom" ∷ rest)
  project_sessions :
      (slug : Text) (r : Row) (rest : List Text)
      → find_name slug rows ≡ some r
      → Exposed rows method (codes "v1" ∷ codes "projects" ∷ slug ∷ codes "sessions" ∷ rest)

projects-Exposed :
    (db_ok : Bool) (rows : List Row) (method : Text) (more : List Text)
    → projects_allowed db_ok rows more ≡ true
    → Exposed rows method (codes "v1" ∷ codes "projects" ∷ more)
projects-Exposed db_ok rows method more h =
    let (slug, rest, r, e, found) = projects_allowed-known db_ok rows more h in
    subst (λ m. Exposed rows method (codes "v1" ∷ codes "projects" ∷ m)) (sym e)
      (project_sessions slug r rest found)

-- The four areas, once the version is right.
area-Exposed :
    (db_ok : Bool) (rows : List Row) (method area : Text) (more : List Text)
    → segments_allowed db_ok rows method (codes "v1" ∷ area ∷ more) ≡ true
    → Exposed rows method (codes "v1" ∷ area ∷ more)
area-Exposed db_ok rows method area more h = elim (Bool-cases (text_eq area (codes "sessions"))) [
  | inl s ↦
      subst (λ a. Exposed rows method (codes "v1" ∷ a ∷ more))
        (sym (text_eq→eq area (codes "sessions") s))
        (global_sessions more (
          text_eq→eq method (codes "GET")
            (unfold segments_allowed text_eq in ground (arith, h, s))))
  | inr ns ↦ elim (Bool-cases (text_eq area (codes "auth"))) [
    | inl a ↦
        subst (λ a. Exposed rows method (codes "v1" ∷ a ∷ more))
          (sym (text_eq→eq area (codes "auth") a)) (credentials more)
    | inr na ↦ elim (Bool-cases (text_eq area (codes "custom"))) [
      | inl c ↦
          subst (λ a. Exposed rows method (codes "v1" ∷ a ∷ more))
            (sym (text_eq→eq area (codes "custom") c)) (providers more)
      | inr nc ↦ elim (Bool-cases (text_eq area (codes "projects"))) [
        | inl p ↦
            subst (λ a. Exposed rows method (codes "v1" ∷ a ∷ more))
              (sym (text_eq→eq area (codes "projects") p))
              (projects-Exposed db_ok rows method more
                (unfold segments_allowed in ground (arith, h, ns, na, nc, p)))
        | inr np ↦ unfold segments_allowed in ground (arith, h, ns, na, nc, np)
      ]
    ]
  ]
]

segments-Exposed :
    (db_ok : Bool) (rows : List Row) (method : Text) (segments : List Text)
    → segments_allowed db_ok rows method segments ≡ true
    → Exposed rows method segments
segments-Exposed db_ok rows method [] h = unfold segments_allowed in cc h
segments-Exposed db_ok rows method (version ∷ []) h = unfold segments_allowed in cc h
segments-Exposed db_ok rows method (version ∷ area ∷ more) h =
    elim (Bool-cases (text_eq version (codes "v1"))) [
      | inr other ↦ unfold segments_allowed in ground (arith, h, other)
      | inl v1 ↦
          (let e = text_eq→eq version (codes "v1") v1 in
            subst (λ v. Exposed rows method (v ∷ area ∷ more)) (sym e)
              (area-Exposed db_ok rows method area more
                (subst (λ v. segments_allowed db_ok rows method (v ∷ area ∷ more) ≡ true) e h)))
    ]

-- A path that does not climb: none of its segments is `..`.
abbrev pub Descends : Text → Type 0
Descends path = All (λ segment. segment ≢ codes "..") (split slash path)

-- If path.Clean leaves no `..` in a rooted path: whatever path and method a request of the mirror has,
-- a path that is forwarded has no `..` and is exposed, so the agent-server is not asked for the lifecycle
-- of projects or for a project that is not in the table.
pub mirror-Exposed :
    (path_clean : Text → Text) (db_ok : Bool) (rows : List Row) (method pi_path path : Text)
    → ((p : Text) → Descends (path_clean (codes "/" ++ p)))
    → mirror path_clean db_ok rows method pi_path ≡ some path
    → Descends path × Exposed rows method (split slash (trim_prefix path (codes "/")))
mirror-Exposed path_clean db_ok rows method pi_path path cleans h =
    let cleaned = path_clean (codes "/" ++ trim_prefix pi_path (codes "/")) in
    elim (Bool-cases (mirror_access_allowed db_ok rows method cleaned)) [
      | inr refused ↦ unfold mirror in ground (arith, h, refused)
      | inl allowed ↦
          (let e : cleaned ≡ path = unfold mirror in ground (arith, h, allowed) in
            (
              subst Descends e (cleans (trim_prefix pi_path (codes "/"))),
              subst (λ p. Exposed rows method (split slash (trim_prefix p (codes "/")))) e
                  (segments-Exposed db_ok rows method _ (unfold mirror_access_allowed in allowed)),
            ))
    ]
