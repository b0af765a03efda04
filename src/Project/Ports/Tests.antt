-- ===== src/Project/Ports/Tests.antt =====
-- With the first port taken.
use appx.Base.{ℕ, ◌==◌, Bool}

abbrev first_taken : ℕ → Bool
first_taken q = q == 10000
