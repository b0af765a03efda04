-- ===== src/Project/Name/Slug.antt =====
-- What a valid name looks like, and that the DEV label of a project is nobody's name.
use appx.Base.{
  ℕ, ◌≤◌, ◌≡◌, ◌≢◌, refl, ap, true, false, none, [], ◌∷◌, ◌++◌, arith, ltb, length, All,
  and-eq_true,
}
use appx.Text.{Text, has_byte, has_suffix}
use appx.Text.Affix.{has_suffix-append}
use appx.Text.Split.{Free}
use appx.Project.Name.{
  is_lower, is_slug_byte, tail_matches, name_matches, dev_suffix, validate_name,
}

tail_matches-All :
    (s : Text) → tail_matches s ≡ true → All (λ c. is_slug_byte c ≡ true) s × (1 ≤ length s)
unfolding tail_matches
tail_matches-All [] h = cc
tail_matches-All (c ∷ []) h = ground arith
tail_matches-All (c ∷ d ∷ s) h =
    let both = and-eq_true _ _ h in
    let rest = tail_matches-All (d ∷ s) both.1 in ((both.0, rest.0), omega arith)

valid_parts :
    (name : Text)
    → validate_name name ≡ none
    → (name_matches name ≡ true)
      × (ltb (length name) 2 ≡ false)
      × (has_suffix name dev_suffix ≡ false)
unfolding validate_name
valid_parts name h = ground arith

-- A valid name has 2 to 63 bytes, all of them letters, digits or dashes, and does not end in -dev.
pub validate_name-IsSlug :
    (name : Text)
    → validate_name name ≡ none
    → All (λ c. is_slug_byte c ≡ true) name
      × (2 ≤ length name)
      × (length name ≤ 63)
      × (has_suffix name dev_suffix ≡ false)
unfolding validate_name name_matches
validate_name-IsSlug [] h = cc
validate_name-IsSlug (c ∷ s) h =
    let (matches, long, plain) = valid_parts (c ∷ s) h in
    let (start, behind) = and-eq_true (is_lower c) _ matches in
    let (short, tail) = and-eq_true _ (tail_matches s) behind in
    ((ground arith, (tail_matches-All s tail).0), ground arith, ground arith, plain)

All-Free :
    (b : ℕ) (s : Text) → is_slug_byte b ≡ false → All (λ c. is_slug_byte c ≡ true) s → Free b s
unfolding has_byte
All-Free b [] h a = refl
All-Free b (c ∷ s) h a = ground (arith, All-Free b s h a.1)

-- No valid name is the DEV label of any project.
pub validate_name-dev : (name other : Text) → validate_name name ≡ none → name ≢ other ++ dev_suffix
validate_name-dev name other h e =
    let (_, _, plain) = valid_parts name h in
    cc (plain, ap (λ n. has_suffix n dev_suffix) e, has_suffix-append other dev_suffix)

-- A valid name has no byte that is special in a host name or an address.
pub validate_name-Free :
    (b : ℕ) (name : Text) → is_slug_byte b ≡ false → validate_name name ≡ none → Free b name
validate_name-Free b name h v = All-Free b name h (validate_name-IsSlug name v).0
