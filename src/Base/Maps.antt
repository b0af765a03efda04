-- ===== src/Base/Maps.antt =====
-- Maps from texts, as association lists: a key that occurs is bound by its first entry, and `insert`
-- leaves one entry of its key.
use appx.Base.{◌≡◌, subst, true, Option, none, some, List, [], ◌∷◌, arith, if◌then◌else◌}
use appx.Text.{Text, text_eq}
use appx.Text.Equality.{text_eq_iff}

module _ {ℓ} {A : Type ℓ} where
  unfoldable pub lookup : Text → List (Text × A) → Option A
  lookup k [] = none
  lookup k ((j, a) ∷ m) = if text_eq j k then some a else lookup k m

  unfoldable pub delete : Text → List (Text × A) → List (Text × A)
  delete k [] = []
  delete k ((j, a) ∷ m) = let rest = delete k m in if text_eq j k then rest else (j, a) ∷ rest

  unfoldable pub insert : Text → A → List (Text × A) → List (Text × A)
  insert k a m = (k, a) ∷ delete k m

  pub lookup-delete :
      (k j : Text) (m : List (Text × A))
      → lookup j (delete k m) ≡ (if text_eq k j then none else lookup j m)
  unfolding lookup delete
  lookup-delete k j [] = ground arith
  lookup-delete k j ((i, a) ∷ m) =
      ground (arith, lookup-delete k j m, text_eq_iff k j, text_eq_iff i j, text_eq_iff i k)

  pub lookup-insert :
      (k j : Text) (a : A) (m : List (Text × A))
      → lookup j (insert k a m) ≡ (if text_eq k j then some a else lookup j m)
  unfolding lookup insert
  lookup-insert k j a m = ground (arith, lookup-delete k j m)

  pub lookup-same :
      (k j : Text) (o : Option A) (m : List (Text × A))
      → lookup k m ≡ o
      → text_eq k j ≡ true
      → lookup j m ≡ o
  lookup-same k j o m h e = subst (λ x. lookup x m ≡ o) ((text_eq_iff k j).0 e) h
