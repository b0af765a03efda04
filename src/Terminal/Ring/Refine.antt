-- ===== src/Terminal/Ring/Refine.antt =====
-- The buffer against its specification: the last `size` bytes of all that was written.
use appx.Base.{
  ℕ, ◌+◌, ◌-◌, ◌≤◌, ◌<◌, ◌≡◌, refl, ap, ap₂, ◌∙◌, sym, subst, ◌⊎◌, inl, inr, Bool, Bool-cases, true,
  List, [], ◌∷◌, ◌++◌, append-nil, append_assoc, arith, length, take, drop, drop_all, leb, ltb,
  length-append, length-drop, length-take_le, drop-drop, take-drop, length-replicate,
  drop-append_le, take-length, drop-length, leb→le, leb_false→lt, ltb→lt, min, ltb_false→le, ◌==◌,
  ==_iff, replicate, replicate,
}
use mathlib.Core.List.{flatten}
use appx.Terminal.Ring.Cuts.{
  length-held, last_n, held, join_parts, held_fits, held_wraps, held_over, cut_fits, cut_wraps,
}
use appx.Terminal.Ring.{RingBuffer, new_ring_buffer, write, bytes}
use appx.Terminal.Ring.Copy.{copy_at, length-copy_at, copy_at-append, copy_at_whole}

-- The write position is inside the storage (or 0 in a buffer of no bytes).
pub record IsValid (rb : RingBuffer) : Type 0 where
  pub storage : length rb.buf ≡ rb.size
  pub position : (rb.w < rb.size) ⊎ (rb.w ≡ 0)

-- What the buffer holds, oldest first, in terms of the cut.
pub bytes-held :
    (rb : RingBuffer) → IsValid rb → bytes rb ≡ held rb.full (take rb.w rb.buf) (drop rb.w rb.buf)
unfolding bytes
bytes-held rb v = elim (Bool-cases rb.full) [
  | inl wrapped ↦ rw wrapped (
      join_parts (take rb.w rb.buf) (drop rb.w rb.buf) _ _
        (omega (
          arith,
          v,
          length-replicate rb.size (let z : ℕ = 0 in z),
          length-take_le rb.w rb.buf,
          length-drop rb.w rb.buf,
        ))
        (omega (arith, length-replicate rb.size (let z : ℕ = 0 in z), length-drop rb.w rb.buf, v)))
  | inr fresh ↦ rw fresh (
      copy_at_whole (replicate rb.w 0) (take rb.w rb.buf)
        (omega (arith, v, length-replicate rb.w (let z : ℕ = 0 in z), length-take_le rb.w rb.buf)))
]

-- A write keeps the write position in the storage.
pub write-IsValid : (rb : RingBuffer) (p : List ℕ) → IsValid rb → IsValid (write rb p)
unfolding write
write-IsValid rb p v = ground (
  arith,
  v,
  length-copy_at rb.buf 0 (drop (length p - rb.size) p),
  length-copy_at rb.buf rb.w p,
  length-copy_at (copy_at rb.buf rb.w p) 0 (drop (min (length p) (length rb.buf - rb.w)) p),
)

-- A buffer given by its storage, cut at the write position.
abbrev cut : List ℕ → List ℕ → ℕ → Bool → RingBuffer
cut a b size full = record { buf = a ++ b; size = size; w = length a; full = full }

module _ (a b p : List ℕ) (size : ℕ) (full : Bool) (v : IsValid (cut a b size full)) where
  whole : length a + length b ≡ size
  whole = omega (arith, v, length-append a b)

  bytes-cut : bytes (cut a b size full) ≡ held full a b
  bytes-cut = bytes-held (cut a b size full) v ∙ ap₂ (held full) (take-length a b) (drop-length a b)

  -- The bytes after a write, from those of its result.
  after_write :
      (rb : RingBuffer) (x : List ℕ)
      → write (cut a b size full) p ≡ rb
      → held rb.full (take rb.w rb.buf) (drop rb.w rb.buf) ≡ x
      → bytes (write (cut a b size full) p) ≡ x
  after_write rb x e h =
      rw e (bytes-held rb (subst IsValid e (write-IsValid (cut a b size full) p v)) ∙ h)

  write_over : size ≤ length p → bytes (write (cut a b size full) p) ≡ drop (length p - size) p
  unfolding write
  write_over h =
      after_write
        (record {
          buf = copy_at (a ++ b) 0 (drop (length p - size) p);
          size = size;
          w = 0;
          full = true;
        })
        _ (ground (arith))
        (append-nil _
          ∙ copy_at_whole (a ++ b) (drop (length p - size) p)
              (omega (arith, v, length-drop (length p - size) p)))

  write_short :
      length a + length p < size
      → bytes (write (cut a b size full) p) ≡ held full (a ++ p) (drop (length p) b)
  unfolding write
  write_short h =
      after_write
        (record {
          buf = copy_at (a ++ b) (length a) p;
          size = size;
          w = length a + length p;
          full = full;
        })
        _ (ground (arith, whole, length-append a b))
        (let c = cut_fits a b p (length a + length p) refl (omega (arith, whole)) in
          ap₂ (held full) c.0 c.1)

  write_exact :
      length p < size → length a + length p ≡ size → bytes (write (cut a b size full) p) ≡ a ++ p
  unfolding write
  write_exact short h =
      after_write (record { buf = copy_at (a ++ b) (length a) p; size = size; w = 0; full = true })
        _ (ground (arith, whole, length-append a b))
        (append-nil _
          ∙ copy_at-append a b p (length a) refl
          ∙ ap (◌++◌ a) (copy_at_whole b p (omega (arith, whole))))

  write_wraps :
      length p < size
      → size < length a + length p
      → bytes (write (cut a b size full) p) ≡ drop (length p - length b) a ++ p
  unfolding write
  write_wraps short h =
      after_write
        (record {
          buf = copy_at (copy_at (a ++ b) (length a) p) 0 (drop (length b) p);
          size = size;
          w = length p - length b;
          full = true;
        })
        _
        (let n_eq : min (length p) (length (a ++ b) - length a) ≡ length b =
            omega (arith, length-append a b, whole) in
          ground (arith, whole, n_eq))
        (let c =
            cut_wraps a b p (length b) (length p - length b) refl (omega (arith, whole))
              (omega (arith, whole)) in
          rw (c.0, c.1, append_assoc)
            (ap (◌++◌ (drop (length p - length b) a)) (take-drop (length b) p)))

  bytes-write-cut :
      bytes (write (cut a b size full) p) ≡ last_n size (bytes (cut a b size full) ++ p)
  bytes-write-cut = elim (Bool-cases (leb size (length p))) [
    | inl over ↦ write_over (leb→le _ _ over) ∙ sym (held_over _ p size (leb→le _ _ over))
    | inr under ↦ rw bytes-cut (elim (Bool-cases (ltb (length a + length p) size)) [
      | inl short ↦
          write_short (ltb→lt _ _ short)
          ∙ sym (held_fits a b p size whole full (omega (arith, whole, ltb→lt _ _ short)))
      | inr long ↦ elim (Bool-cases (length a + length p == size)) [
        | inl exact ↦
            write_exact (leb_false→lt _ _ under) ((==_iff _ _).0 exact)
            ∙ sym (
                held_wraps a b p size whole full 0 (omega (arith, whole, (==_iff _ _).0 exact))
                  (omega arith))
        | inr past ↦
            write_wraps (leb_false→lt _ _ under) (ground (arith, ltb_false→le _ _ long))
            ∙ sym (
                held_wraps a b p size whole full (length p - length b)
                  (omega (arith, whole, ltb_false→le _ _ long))
                  (omega (arith, whole, leb_false→lt _ _ under)))
      ]
    ])
  ]

-- Writing a piece leaves the last `size` bytes of what the buffer held followed by the piece.
pub bytes-write :
    (rb : RingBuffer) (p : List ℕ)
    → IsValid rb
    → bytes (write rb p) ≡ last_n rb.size (bytes rb ++ p)
bytes-write rb p v =
    subst (λ (r : RingBuffer). bytes (write r p) ≡ last_n r.size (bytes r ++ p)) same
      (bytes-write-cut (take rb.w rb.buf) (drop rb.w rb.buf) p rb.size rb.full
        (subst IsValid (sym same) v))
  where
    at : length (take rb.w rb.buf) ≡ rb.w
    at = length-take_le rb.w rb.buf (omega (arith, v))

    same : cut (take rb.w rb.buf) (drop rb.w rb.buf) rb.size rb.full ≡ rb
    same = λ i. record { buf = take-drop rb.w rb.buf i; size = rb.size; w = at i; full = rb.full }

pub new_ring_buffer-IsValid : (size : ℕ) → IsValid (new_ring_buffer size)
unfolding new_ring_buffer
new_ring_buffer-IsValid size = record {
  storage = length-replicate size (let z : ℕ = 0 in z);
  position = inr refl;
}

-- The pieces that the output pump writes, one after the other.
pub write_all : RingBuffer → List (List ℕ) → RingBuffer
write_all rb [] = rb
write_all rb (p ∷ ps) = write_all (write rb p) ps

size-write : (rb : RingBuffer) (p : List ℕ) → (write rb p).size ≡ rb.size
unfolding write
size-write rb p = ground arith

-- A cut before the last piece changes nothing of the last bytes.
last_n-last_n_append : (n : ℕ) (xs p : List ℕ) → last_n n (last_n n xs ++ p) ≡ last_n n (xs ++ p)
last_n-last_n_append n xs p = elim (Bool-cases (leb n (length xs))) [
  | inl long ↦ rw (← drop-append_le (length xs - n) xs p (omega arith)) (
      drop-drop (length xs - n) _ (xs ++ p)
      ∙ ap (λ k. drop k (xs ++ p))
          (omega
            (arith, length-drop (length xs - n) (xs ++ p), length-append xs p, leb→le _ _ long)))
  | inr short ↦
      ap (λ (k : ℕ). last_n n (drop k xs ++ p))
        (let z : length xs - n ≡ 0 = omega (arith, leb_false→lt _ _ short) in z)
]

bytes-write_all_from :
    (rb : RingBuffer) (ps : List (List ℕ)) (done : List ℕ)
    → IsValid rb
    → bytes rb ≡ last_n rb.size done
    → bytes (write_all rb ps) ≡ last_n rb.size (done ++ flatten ps)
unfolding write_all flatten
bytes-write_all_from rb [] done v h = h ∙ ap (last_n rb.size) (sym (append-nil done))
bytes-write_all_from rb (p ∷ ps) done v h =
    bytes-write_all_from (write rb p) ps (done ++ p) (write-IsValid rb p v)
      (bytes-write rb p v ∙ rw (h, size-write) (last_n-last_n_append rb.size done p))
    ∙ rw (size-write, append_assoc) refl

-- After any pieces, a new buffer of `size` bytes replays the last `size` bytes of their sequence.
pub bytes-write_all :
    (size : ℕ) (ps : List (List ℕ))
    → bytes (write_all (new_ring_buffer size) ps) ≡ last_n size (flatten ps)
unfolding new_ring_buffer
bytes-write_all size ps =
    bytes-write_all_from (new_ring_buffer size) ps [] (new_ring_buffer-IsValid size) (
      bytes-held (new_ring_buffer size) (new_ring_buffer-IsValid size)
      ∙ unfold new_ring_buffer in sym (drop_all (0 - size) [] (omega arith)))

-- The replay never holds more than `size` bytes.
pub length-bytes : (rb : RingBuffer) → IsValid rb → length (bytes rb) ≤ rb.size
length-bytes rb v = rw (bytes-held rb v) (
    omega (
      arith,
      v,
      length-held rb.full (take rb.w rb.buf) (drop rb.w rb.buf),
      length-append (take rb.w rb.buf) (drop rb.w rb.buf),
      ap length (take-drop rb.w rb.buf),
    ))
