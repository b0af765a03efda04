-- ===== src/Server/RateLimit/Map.antt =====
-- The map of attempts, and the times that are still in the window.
use appx.Base.{
  ℕ, ◌≤◌, ◌≡◌, refl, inl, inr, Bool, false, List, [], ◌∷◌, ◌++◌, arith, Bool-cases, length,
  length-eq_zero, ◌||◌, if◌then◌else◌,
}
use appx.Text.{Text, text_eq}
use appx.Text.Equality.{text_eq_iff}
use appx.Server.RateLimit.{Attempts, lookup, store, valid_times, cleanup_map}

pub lookup-store :
    (ip k : Text) (times : List ℕ) (m : Attempts)
    → lookup k (store ip times m) ≡ (if text_eq ip k then times else lookup k m)
unfolding lookup store
lookup-store ip k times [] = refl
lookup-store ip k times ((j, old) ∷ m) =
    ground (arith, lookup-store ip k times m, text_eq_iff j ip, text_eq_iff j k, text_eq_iff ip k)

pub valid_times-append :
    (w now : ℕ) (xs ys : List ℕ)
    → valid_times w now (xs ++ ys) ≡ valid_times w now xs ++ valid_times w now ys
unfolding valid_times
valid_times-append w now [] ys = refl
valid_times-append w now (x ∷ xs) ys = ground (arith, valid_times-append w now xs ys)

-- What is out of the window stays out of it.
pub valid_times-valid_times :
    (w now later : ℕ) (xs : List ℕ)
    → now ≤ later
    → valid_times w later (valid_times w now xs) ≡ valid_times w later xs
unfolding valid_times
valid_times-valid_times w now later [] h = refl
valid_times-valid_times w now later (x ∷ xs) h =
    ground (arith, valid_times-valid_times w now later xs h)

pub length-valid_times_mono :
    (w now later : ℕ) (xs : List ℕ)
    → now ≤ later
    → length (valid_times w later xs) ≤ length (valid_times w now xs)
unfolding valid_times
length-valid_times_mono w now later [] h = omega arith
length-valid_times_mono w now later (x ∷ xs) h =
    ground (arith, length-valid_times_mono w now later xs h)

pub length-valid_times_le : (w now : ℕ) (xs : List ℕ) → length (valid_times w now xs) ≤ length xs
unfolding valid_times
length-valid_times_le w now [] = omega arith
length-valid_times_le w now (x ∷ xs) = ground (arith, length-valid_times_le w now xs)

pub valid_times-nil : (w now : ℕ) → valid_times w now [] ≡ []
unfolding valid_times
valid_times-nil w now = refl

-- Keys of a map are distinct.
pub has_key : Text → Attempts → Bool
has_key ip [] = false
has_key ip ((k, times) ∷ m) = text_eq k ip || has_key ip m

abbrev pub Distinct : Attempts → Type 0
Distinct [] = Unit
Distinct ((k, times) ∷ m) = (has_key k m ≡ false) × Distinct m

has_key-store :
    (ip k : Text) (times : List ℕ) (m : Attempts)
    → text_eq ip k ≡ false
    → has_key k (store ip times m) ≡ has_key k m
unfolding has_key store
has_key-store ip k times [] h = ground arith
has_key-store ip k times ((j, old) ∷ m) h = ground (arith, has_key-store ip k times m h)

pub store-Distinct :
    (ip : Text) (times : List ℕ) (m : Attempts) → Distinct m → Distinct (store ip times m)
unfolding store
store-Distinct ip times [] d = (unfold has_key in refl, tt)
store-Distinct ip times ((k, old) ∷ m) d = elim (Bool-cases (text_eq k ip)) [
  | inl same ↦ ground (arith, same)
  | inr other ↦ ground (
    arith,
    other,
    store-Distinct ip times m d.1,
    has_key-store ip k times m,
    text_eq_iff k ip,
    text_eq_iff ip k,
  )
]

has_key-cleanup :
    (w now : ℕ) (k : Text) (m : Attempts)
    → has_key k m ≡ false
    → has_key k (cleanup_map w now m) ≡ false
unfolding has_key cleanup_map
has_key-cleanup w now k [] h = refl
has_key-cleanup w now k ((j, times) ∷ m) h = ground (arith, has_key-cleanup w now k m)

pub cleanup-Distinct : (w now : ℕ) (m : Attempts) → Distinct m → Distinct (cleanup_map w now m)
unfolding cleanup_map
cleanup-Distinct w now [] d = tt
cleanup-Distinct w now ((k, times) ∷ m) d =
    ground (arith, cleanup-Distinct w now m d.1, has_key-cleanup w now k m d.0)

lookup-absent : (ip : Text) (m : Attempts) → has_key ip m ≡ false → lookup ip m ≡ []
unfolding lookup has_key
lookup-absent ip [] h = refl
lookup-absent ip ((k, times) ∷ m) h = ground (arith, lookup-absent ip m)

pub lookup-cleanup :
    (w now : ℕ) (ip : Text) (m : Attempts)
    → Distinct m
    → lookup ip (cleanup_map w now m) ≡ valid_times w now (lookup ip m)
unfolding lookup cleanup_map
lookup-cleanup w now ip [] d = unfold valid_times in refl
lookup-cleanup w now ip ((k, times) ∷ m) d = ground (
  arith,
  lookup-cleanup w now ip m d.1,
  lookup-absent ip m,
  text_eq_iff k ip,
  length-eq_zero (valid_times w now times),
  valid_times-nil w now,
)
