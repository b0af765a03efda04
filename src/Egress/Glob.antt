-- ===== src/Egress/Glob.antt =====
-- internal/egress/store.go: labelGlob and wildcardHostMatch, the wildcards of the allowlist.
pub mod Meaning
pub mod Complete
pub mod Exact
pub mod Hosts
mod Tests
use appx.Base.{
  ℕ, ◌+◌, Bool, true, false, not, ◌&&◌, none, some, List, [], ◌∷◌, ◌==◌, if◌then◌else◌, length,
  drop,
}
use appx.Text.{Text, text_eq, has_byte, has_prefix, has_suffix, index_of, split}

abbrev pub star : ℕ
star = b'*'

abbrev pub dot : ℕ
dot = b'.'

-- parts[len(parts)-1], where `first` is parts[0].
abbrev pub last_part : Text → List Text → Text
last_part first [] = first
last_part first (p ∷ ps) = last_part p ps

-- parts[1 : len(parts)-1], from the parts after the first one.
abbrev pub middle_parts : List Text → List Text
middle_parts [] = []
middle_parts (p ∷ []) = []
middle_parts (p ∷ q ∷ ps) = p ∷ middle_parts (q ∷ ps)

-- The loop: each part is searched for behind the one before it.
unfoldable pub in_order : List Text → Text → Bool
unfolding index_of
in_order [] rest = true
in_order (part ∷ ps) rest = elim (index_of rest part) [
  | none ↦ false
  | some idx ↦ in_order ps (drop (idx + length part) rest)
]

-- The tests on the parts; a split has at least one.
unfoldable pub parts_match : List Text → Text → Bool
unfolding in_order has_prefix has_suffix
parts_match [] label = false
parts_match (first ∷ ps) label =
    if not (has_prefix label first)
    then false
    else if not (has_suffix label (last_part first ps))
    then false
    else in_order (middle_parts ps) (drop (length first) label)

unfoldable pub label_glob : Text → Text → Bool
unfolding parts_match split has_byte text_eq
label_glob pattern label =
    if not (has_byte star pattern)
    then text_eq pattern label
    else parts_match (split star pattern) label

-- The loop over the labels of the pattern. The host has as many when it is called; if it had fewer, Go
-- would panic where this is false.
unfoldable pub labels_match : List Text → List Text → Bool
unfolding label_glob
labels_match [] hs = true
labels_match (p ∷ ps) [] = false
labels_match (p ∷ ps) (h ∷ hs) = label_glob p h && labels_match ps hs

unfoldable pub wildcard_host_match : Text → Text → Bool
unfolding labels_match split
wildcard_host_match pattern host =
    if length (split dot pattern) == length (split dot host)
    then labels_match (split dot pattern) (split dot host)
    else false
