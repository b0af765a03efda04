-- ===== src/Terminal/Ring/Copy.antt =====
-- Go's `copy(dst[i:], src)`: the bytes of `src` that fit replace those of `dst` from index `i` on.
use appx.Base.{
  ℕ, zero, suc, ◌≤◌, ◌≡◌, refl, ap, List, [], ◌∷◌, ◌++◌, arith, length, take, drop, take_all,
}

unfoldable pub copy_at : List ℕ → ℕ → List ℕ → List ℕ
copy_at [] i src = []
copy_at (b ∷ bs) zero [] = b ∷ bs
copy_at (b ∷ bs) zero (x ∷ src) = x ∷ copy_at bs zero src
copy_at (b ∷ bs) (suc i) src = b ∷ copy_at bs i src

pub length-copy_at : (dst : List ℕ) (i : ℕ) (src : List ℕ) → length (copy_at dst i src) ≡ length dst
unfolding copy_at
length-copy_at [] i src = refl
length-copy_at (b ∷ bs) zero [] = refl
length-copy_at (b ∷ bs) zero (x ∷ src) = ap suc (length-copy_at bs zero src)
length-copy_at (b ∷ bs) (suc i) src = ap suc (length-copy_at bs i src)

pub copy_at-append :
    (a b src : List ℕ) (i : ℕ) → i ≡ length a → copy_at (a ++ b) i src ≡ a ++ copy_at b 0 src
unfolding copy_at
copy_at-append [] b src zero h = refl
copy_at-append [] b src (suc i) h = absurd (omega arith)
copy_at-append (x ∷ a) b src zero h = absurd (omega arith)
copy_at-append (x ∷ a) b src (suc i) h = ap (◌∷◌ x) (copy_at-append a b src i (omega arith))

-- A source that fits keeps the rest of the destination; one that does not is cut.
pub copy_at_short :
    (dst src : List ℕ) → length src ≤ length dst → copy_at dst 0 src ≡ src ++ drop (length src) dst
unfolding copy_at
copy_at_short [] [] h = refl
copy_at_short [] (x ∷ src) h = absurd (omega arith)
copy_at_short (b ∷ bs) [] h = refl
copy_at_short (b ∷ bs) (x ∷ src) h = ap (◌∷◌ x) (copy_at_short bs src (omega arith))

pub copy_at_long :
    (dst src : List ℕ) → length dst ≤ length src → copy_at dst 0 src ≡ take (length dst) src
unfolding copy_at
copy_at_long [] src h = refl
copy_at_long (b ∷ bs) [] h = absurd (omega arith)
copy_at_long (b ∷ bs) (x ∷ src) h = ap (◌∷◌ x) (copy_at_long bs src (omega arith))

pub copy_at_whole : (dst src : List ℕ) → length dst ≡ length src → copy_at dst 0 src ≡ src
copy_at_whole dst src h =
    rw (copy_at_long dst src (omega arith)) (take_all (length dst) src (omega arith))
