-- ===== src/Terminal/Ring/Cuts.antt =====
-- Facts on a storage cut at the write position: what stands there after one or two calls of `copy`,
-- and the last bytes of what it held and a new piece.
use appx.Base.{
  ℕ, ◌+◌, ◌-◌, ◌≤◌, ◌≡◌, refl, ap, ◌∙◌, sym, Bool, true, false, List, ◌++◌, append_assoc, arith,
  length, take, drop, length-append, length-drop, drop-append_le, drop-append_ge, take-length,
  drop-length,
}
use appx.Terminal.Ring.Copy.{copy_at, copy_at-append, copy_at_short, copy_at_long, copy_at_whole}

-- The last `n` items.
abbrev pub last_n : ℕ → List ℕ → List ℕ
last_n n xs = drop (length xs - n) xs

-- The storage cut at the write position.
abbrev pub held : Bool → List ℕ → List ℕ → List ℕ
held true a b = b ++ a
held false a b = a

-- Two calls of `copy` put the older part first.
pub join_parts :
    (a b out : List ℕ) (i : ℕ)
    → length out ≡ length b + length a
    → i ≡ length b
    → copy_at (copy_at out 0 b) i a ≡ b ++ a
join_parts a b out i h e = rw (copy_at_short out b (omega arith)) (
    copy_at-append b (drop (length b) out) a i e
    ∙ ap (◌++◌ b)
        (copy_at_whole (drop (length b) out) a (omega (arith, length-drop (length b) out))))

pub length-held : (full : Bool) (a b : List ℕ) → length (held full a b) ≤ length a + length b
length-held true a b = omega (arith, length-append b a)
length-held false a b = omega arith

module _ (a b p : List ℕ) (size : ℕ) (whole : length a + length b ≡ size) where
  -- The bytes fit behind the write position: the oldest ones give way to them.
  pub held_fits :
      (full : Bool)
      → length p ≤ length b
      → last_n size (held full a b ++ p) ≡ held full (a ++ p) (drop (length p) b)
  held_fits true h = rw append_assoc (
      ap (λ k. drop k (b ++ (a ++ p)))
        (omega (arith, length-append b (a ++ p), length-append a p, whole))
      ∙ drop-append_le (length p) b (a ++ p) h)
  held_fits false h =
      ap (λ k. drop k (a ++ p))
        (let e : length (a ++ p) - size ≡ 0 = omega (arith, length-append a p, whole) in e)

  -- They are too many by `m`, and go on from the start of the storage.
  pub held_wraps :
      (full : Bool) (m : ℕ)
      → length p ≡ length b + m
      → m ≤ length a
      → last_n size (held full a b ++ p) ≡ drop m a ++ p
  held_wraps true m e h = rw append_assoc (
      ap (λ k. drop k (b ++ (a ++ p)))
        (omega (arith, length-append b (a ++ p), length-append a p, whole))
      ∙ drop-append_ge (length p) m b (a ++ p) e
      ∙ drop-append_le m a p h)
  held_wraps false m e h =
      ap (λ k. drop k (a ++ p)) (omega (arith, length-append a p, whole)) ∙ drop-append_le m a p h

pub held_over :
    (old p : List ℕ) (size : ℕ)
    → size ≤ length p
    → last_n size (old ++ p) ≡ drop (length p - size) p
held_over old p size h =
    drop-append_ge (length (old ++ p) - size) (length p - size) old p
      (omega (arith, length-append old p))

-- The storage after a write that ends before the end of the storage, cut at the new position.
module _ (a b p : List ℕ) where
  pub cut_fits :
      (k : ℕ)
      → k ≡ length a + length p
      → length p ≤ length b
      → (take k (copy_at (a ++ b) (length a) p) ≡ a ++ p)
        × (drop k (copy_at (a ++ b) (length a) p) ≡ drop (length p) b)
  cut_fits k e h =
      rw (stored, k_eq)
        (take-length (a ++ p) (drop (length p) b), drop-length (a ++ p) (drop (length p) b))
    where
      stored : copy_at (a ++ b) (length a) p ≡ (a ++ p) ++ drop (length p) b
      stored =
          rw (copy_at-append a b p (length a) refl, copy_at_short b p h)
            (sym (append_assoc a p (drop (length p) b)))

      k_eq : k ≡ length (a ++ p)
      k_eq = omega (arith, length-append a p)

  -- The storage after a write that goes on from the start, cut at the new position `m`.
  pub cut_wraps :
      (n m : ℕ)
      → n ≡ length b
      → length p ≡ n + m
      → m ≤ length a
      → (take m (copy_at (copy_at (a ++ b) (length a) p) 0 (drop n p)) ≡ drop n p)
        × (drop m (copy_at (copy_at (a ++ b) (length a) p) 0 (drop n p)) ≡ drop m a ++ take n p)
  cut_wraps n m en e h =
      rw (stored, m_eq)
        (
          take-length (drop n p) (drop (length (drop n p)) a ++ take n p),
          drop-length (drop n p) (drop (length (drop n p)) a ++ take n p),
        )
    where
      m_eq : m ≡ length (drop n p)
      m_eq = omega (arith, length-drop n p)

      first : copy_at (a ++ b) (length a) p ≡ a ++ take n p
      first =
          rw (copy_at-append a b p (length a) refl, en)
            (ap (◌++◌ a) (copy_at_long b p (omega arith)))

      stored :
          copy_at (copy_at (a ++ b) (length a) p) 0 (drop n p)
          ≡ drop n p ++ (drop (length (drop n p)) a ++ take n p)
      stored = rw first (
          copy_at_short (a ++ take n p) (drop n p)
            (omega (arith, length-append a (take n p), length-drop n p))
          ∙ ap (◌++◌ (drop n p))
              (drop-append_le (length (drop n p)) a (take n p) (omega (arith, length-drop n p))))
