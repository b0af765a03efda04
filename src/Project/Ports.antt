-- ===== src/Project/Ports.antt =====
-- internal/project/store.go: nextAvailablePortPairTx, the search for two free ports.
pub mod Lowest
mod Tests
use appx.Base.{ℕ, zero, suc, ◌+◌, ◌-◌, Bool, Option, none, some, List, [], ◌∷◌, ◌++◌, if◌then◌else◌}

abbrev pub port_range_start : ℕ
port_range_start = 10000

abbrev pub port_range_end : ℕ
port_range_end = 10999

abbrev pub published_port_range_end : ℕ
published_port_range_end = 10199

-- `len(pair) == 2`
abbrev pub full_pair : List ℕ → Option (ℕ × ℕ)
full_pair [] = none
full_pair (a ∷ []) = none
full_pair (a ∷ b ∷ rest) = some (a, b)

-- The loop, with the rounds that are left.
unfoldable pub scan : ℕ → ℕ → (ℕ → Bool) → List ℕ → Option (ℕ × ℕ)
scan zero port used pair = none
scan (suc rounds) port used pair =
    let skip = scan rounds (port + 1) used pair in
    let more = scan rounds (port + 1) used (pair ++ port ∷ []) in
    if used port
    then skip
    else elim (full_pair (pair ++ port ∷ [])) [ some found ↦ some found | none ↦ more ]

-- for port := PortRangeStart; port <= PublishedPortRangeEnd; port++
unfoldable pub next_available_port_pair : (ℕ → Bool) → Option (ℕ × ℕ)
next_available_port_pair used =
    scan (published_port_range_end + 1 - port_range_start) port_range_start used []
