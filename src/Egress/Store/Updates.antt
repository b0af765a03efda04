-- ===== src/Egress/Store/Updates.antt =====
-- Changes of the allowlist, in memory and in the settings table.
use appx.Base.{
  iff-eq, ℕ, ◌≡◌, ◌↔◌, refl, sym, ◌∙◌, subst, ◌⊎◌, inl, inr, Bool, true, false, List, [], ◌∷◌,
  arith, Any, Bool-cases,
}
use appx.Text.{Text, text_eq, has_byte}
use appx.Text.Equality.{text_eq→eq}
use appx.Text.Split.{Free}
use appx.Text.HostPort.{has_byte-append}
use appx.Text.Int.{ℤ, print_int, print_int-no_star}
use appx.Egress.Glob.{star}
use appx.Egress.Store.{
  Store, LogEntry, Saved, member, load, port_suffix, key, is_allowed, reload_allowlist, new_store,
  set_allowlist, add_to_allowlist,
}
use appx.Egress.Store.Allowed.{Admits, exact, wildcard, is_allowed_iff, key-injective}

member-Any_eq :
    (P : Text → Type 0) (e : Text) (es : List Text) → member e es ≡ true → P e → Any P es
unfolding member
member-Any_eq P e [] h p = cc
member-Any_eq P e (x ∷ es) h p = elim (Bool-cases (text_eq x e)) [
  | inl same ↦ inl (subst P (sym (text_eq→eq x e same)) p)
  | inr other ↦ inr (member-Any_eq P e es (ground arith) p)
]

-- Loading a list keeps what holds of some entry.
load-Any : (P : Text → Type 0) (es : List Text) → Any P (load es) ↔ Any P es
load-Any P es = (from es, to es)
  where
    load_new : (e : Text) (xs : List Text) → member e xs ≡ false → load (e ∷ xs) ≡ e ∷ load xs
    load_new e xs h = unfold load in rw h refl

    load_old : (e : Text) (xs : List Text) → member e xs ≡ true → load (e ∷ xs) ≡ load xs
    load_old e xs h = unfold load in rw h refl

    to : (xs : List Text) → Any P xs → Any P (load xs)
    to [] a = absurd a
    to (e ∷ xs) a = elim (Bool-cases (member e xs)) [
      | inl old ↦
          rw (load_old e xs old) (to xs (elim a [ inl p ↦ member-Any_eq P e xs old p | inr q ↦ q ]))
      | inr new ↦ rw (load_new e xs new) (elim a [ inl p ↦ inl p | inr q ↦ inr (to xs q) ])
    ]

    from : (xs : List Text) → Any P (load xs) → Any P xs
    from [] a = unfold load in a
    from (e ∷ xs) a = elim (Bool-cases (member e xs)) [
      | inl old ↦ inr (from xs (rw (load_old e xs old) at a))
      | inr new ↦ elim (rw (load_new e xs new) at a) [ inl p ↦ inl p | inr q ↦ inr (from xs q) ]
    ]

is_allowed-load :
    (es : List Text) (host : Text) (port : ℤ)
    → is_allowed (load es) host port ≡ is_allowed es host port
is_allowed-load es host port = iff-eq _ _ (
  (λ h.
      (is_allowed_iff es host port).1
        ((load-Any _ es).0 ((is_allowed_iff (load es) host port).0 h))),
  λ h.
      (is_allowed_iff (load es) host port).1
        ((load-Any _ es).1 ((is_allowed_iff es host port).0 h)),
)

key-no_star : (host : Text) (port : ℤ) → Free star host → Free star (key host port)
key-no_star host port f =
    unfold key port_suffix in
    (has_byte-append star host (b':' ∷ print_int port)
      ∙ rw f (unfold has_byte in print_int-no_star port))

module _ (host : Text) (port : ℤ) (s : Store) where
  -- What is allowed after the addition is what one more entry allows.
  add_view :
      (db_ok : Bool) (h : Text) (p : ℤ)
      → Any (Admits h p) (add_to_allowlist db_ok host port s).1.allowlist
        ↔ Any (Admits h p) (key host port ∷ s.allowlist)
  add_view db_ok h p = elim (Bool-cases (member (key host port) s.allowlist)) [
    | inl old ↦
        unfold add_to_allowlist in
        rw old (
          inr,
          λ a. elim a [
            | inl e ↦ member-Any_eq (Admits h p) (key host port) s.allowlist old e
            | inr q ↦ q
          ],
        )
    | inr new ↦ elim (Bool-cases db_ok) [
      | inl up ↦
          unfold add_to_allowlist set_allowlist in
          rw (new, up) (load-Any (Admits h p) (key host port ∷ s.allowlist))
      | inr down ↦ unfold add_to_allowlist set_allowlist in rw (new, down) ((λ a. a), λ a. a)
    ]
  ]

  -- An added destination is allowed from then on, whether or not the database takes it.
  pub add_to_allowlist_grows :
      (db_ok : Bool) → is_allowed (add_to_allowlist db_ok host port s).1.allowlist host port ≡ true
  add_to_allowlist_grows db_ok =
      (is_allowed_iff _ host port).1 ((add_view db_ok host port).1 (inl (exact refl)))

  -- What was allowed before an addition stays allowed.
  pub add_to_allowlist_keeps :
      (db_ok : Bool) (h : Text) (p : ℤ)
      → is_allowed s.allowlist h p ≡ true
      → is_allowed (add_to_allowlist db_ok host port s).1.allowlist h p ≡ true
  add_to_allowlist_keeps db_ok h p a =
      (is_allowed_iff _ h p).1 ((add_view db_ok h p).1 (inr ((is_allowed_iff _ h p).0 a)))

  only :
      (db_ok : Bool) (h : Text) (p : ℤ)
      → Free star host
      → is_allowed (add_to_allowlist db_ok host port s).1.allowlist h p ≡ true
      → (is_allowed s.allowlist h p ≡ true) ⊎ ((h ≡ host) × (p ≡ port))
  only db_ok h p f a = elim ((add_view db_ok h p).0 ((is_allowed_iff _ h p).0 a)) [
    | inr q ↦ inl ((is_allowed_iff s.allowlist h p).1 q)
    | inl (exact e) ↦ (let same = key-injective host h port p e in inr (sym same.0, sym same.1))
    | inl (wildcard pattern e starred m) ↦ cc (starred, key-no_star host port f)
  ]

  -- After a host without a star has been added, exactly these destinations are allowed: those that were
  -- before, and that host with that port, whether or not the database takes the addition.
  pub add_to_allowlist_only :
      (db_ok : Bool) (h : Text) (p : ℤ)
      → Free star host
      → (is_allowed (add_to_allowlist db_ok host port s).1.allowlist h p ≡ true)
        ↔ ((is_allowed s.allowlist h p ≡ true) ⊎ ((h ≡ host) × (p ≡ port)))
  add_to_allowlist_only db_ok h p f = (
    only db_ok h p f,
    (λ e. elim e [
      | inl old ↦ add_to_allowlist_keeps db_ok h p old
      | inr (same, also) ↦ rw (same, also) (add_to_allowlist_grows db_ok)
    ]),
  )

-- Memory and database give the same answers.
abbrev pub IsSynced : Store → Type 0
IsSynced s =
    (host : Text) (port : ℤ)
    → is_allowed (reload_allowlist s.saved) host port ≡ is_allowed s.allowlist host port

-- A store that was opened or set is in step with the database, so a restart allows the same.
pub new_store-IsSynced :
    (saved : Saved) (log : List LogEntry) (n : ℕ) → IsSynced (new_store saved log n)
unfolding new_store
new_store-IsSynced saved log n host port = refl

pub set_allowlist-IsSynced :
    (db_ok : Bool) (es : List Text) (s : Store) → IsSynced s → IsSynced (set_allowlist db_ok es s).1
unfolding set_allowlist reload_allowlist
set_allowlist-IsSynced true es s h host port = refl
set_allowlist-IsSynced false es s h host port = h host port

-- An addition that the database takes keeps the allowlist in memory the one that a restart loads.
pub add_to_allowlist-IsSynced :
    (host : Text) (port : ℤ) (s : Store)
    → IsSynced s
    → IsSynced (add_to_allowlist true host port s).1
add_to_allowlist-IsSynced host port s h = elim (Bool-cases (member (key host port) s.allowlist)) [
  | inl old ↦ unfold add_to_allowlist in rw old h
  | inr new ↦ unfold add_to_allowlist set_allowlist reload_allowlist in rw new (λ h' p. refl)
]
