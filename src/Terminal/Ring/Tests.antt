-- ===== src/Terminal/Ring/Tests.antt =====
-- The ring buffer on small inputs.
use appx.Base.{ℕ, ◌≡◌, refl, List, [], ◌∷◌}
use appx.Terminal.Ring.{RingBuffer, new_ring_buffer, write, bytes}
use mathlib.Core.List.{flatten}
use appx.Terminal.Ring.Cuts.{last_n}
use appx.Terminal.Ring.Refine.{write_all, bytes-write_all}

abbrev first_write : List ℕ
first_write = 1 ∷ 2 ∷ 3 ∷ []

abbrev second_write : List ℕ
second_write = 4 ∷ 5 ∷ []

abbrev filled : RingBuffer
filled = write (new_ring_buffer 4) first_write

wrapped : bytes (write filled second_write) ≡ 2 ∷ 3 ∷ 4 ∷ 5 ∷ []
unfolding bytes write new_ring_buffer appx.Terminal.Ring.Copy.copy_at
wrapped = refl

bytes-write_all_example :
    bytes (write_all (new_ring_buffer 4) (first_write ∷ second_write ∷ []))
    ≡ last_n 4 (flatten (first_write ∷ second_write ∷ []))
bytes-write_all_example = bytes-write_all 4 (first_write ∷ second_write ∷ [])
