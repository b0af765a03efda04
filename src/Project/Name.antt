-- ===== src/Project/Name.antt =====
-- internal/project/project.go: ValidateName, the slugs that name projects and their subdomains.
pub mod Slug
mod Tests
use appx.Base.{
  ℕ, suc, Bool, true, false, not, ◌&&◌, ◌||◌, Option, none, some, [], ◌∷◌, ◌==◌, leb, ltb, length,
  if◌then◌else◌,
}
use appx.Text.{Text, codes, has_suffix}

pub data NameError : Type 0 where
  invalid_name reserved_name_suffix : NameError

-- [a-z], [a-z0-9] and [a-z0-9-]
abbrev pub is_lower : ℕ → Bool
is_lower c = leb b'a' c && leb c b'z'

abbrev pub is_alnum : ℕ → Bool
is_alnum c = is_lower c || (leb b'0' c && leb c b'9')

abbrev pub is_slug_byte : ℕ → Bool
is_slug_byte c = is_alnum c || c == b'-'

-- [a-z0-9-]*[a-z0-9]$
unfoldable pub tail_matches : Text → Bool
tail_matches [] = false
tail_matches (c ∷ []) = is_alnum c
tail_matches (c ∷ d ∷ s) = is_slug_byte c && tail_matches (d ∷ s)

-- ^[a-z][a-z0-9-]{0,61}[a-z0-9]$: behind the first byte, 1 to 62 more.
unfoldable pub name_matches : Text → Bool
name_matches [] = false
name_matches (c ∷ s) = is_lower c && (leb (length s) 62 && tail_matches s)

abbrev pub dev_suffix : Text
dev_suffix = codes "-dev"

-- `none` is a name that passes.
unfoldable pub validate_name : Text → Option NameError
validate_name name =
    if ltb (length name) 2 || not (name_matches name)
    then some invalid_name
    else if has_suffix name dev_suffix
    then some reserved_name_suffix
    else none
