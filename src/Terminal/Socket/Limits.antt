-- ===== src/Terminal/Socket/Limits.antt =====
-- The bounds that internal/terminal/handler.go puts on what a client and a session can send.
use appx.Base.{
  ℕ, zero, suc, ◌-◌, ◌≤◌, ◌<◌, ◌≡◌, refl, sym, some, List, [], ◌++◌, arith, Bool-cases, inl, inr,
  ltb, ltb→lt, ltb_false→le, length, drop, length-drop, taken, not_taken, take, take-drop,
  length-take_le, subst,
}
use appx.Text.Int.{pos, negsuc}
use appx.Terminal.Socket.{
  Frame, binary, resizes, malformed, other_type, resize_to, dispatch_frame, clamp,
  max_resize_dimension, max_replay_bytes, capped_replay,
}

clamp-bounds : (n : ℕ) → 0 < n → (0 < clamp n) × (clamp n ≤ max_resize_dimension)
clamp-bounds n h = ground arith

-- Whatever frame a client sends, the terminal is resized only to 1 to 500 columns and rows.
pub dispatch_frame-bounds :
    (frame : Frame) (cols rows : ℕ)
    → dispatch_frame frame ≡ resize_to cols rows
    → ((0 < cols) × (cols ≤ 500)) × ((0 < rows) × (rows ≤ 500))
unfolding dispatch_frame
dispatch_frame-bounds (binary input) cols rows h = cc
dispatch_frame-bounds malformed cols rows h = cc
dispatch_frame-bounds other_type cols rows h = cc
dispatch_frame-bounds (resizes (negsuc n) r) cols rows h = cc
dispatch_frame-bounds (resizes (pos zero) r) cols rows h = cc
dispatch_frame-bounds (resizes (pos (suc n)) (negsuc k)) cols rows h = cc
dispatch_frame-bounds (resizes (pos (suc n)) (pos zero)) cols rows h = cc
dispatch_frame-bounds (resizes (pos (suc n)) (pos (suc k))) cols rows h =
    let wide : clamp (suc n) ≡ cols = cc in
    let high : clamp (suc k) ≡ rows = cc in
    let w = clamp-bounds (suc n) (omega arith) in
    let t = clamp-bounds (suc k) (omega arith) in
    ((omega arith, omega arith), (omega arith, omega arith))

-- A list is the end of another, of 65536 bytes at most, and leaves out no more than it has to.
abbrev Ends : List ℕ → List ℕ → Type 0
Ends replay sent =
    (length sent ≤ 65536)
    × ((front : List ℕ) × (front ++ sent ≡ replay) × (length front ≡ length replay - 65536))

-- The replay that a reconnecting client gets has at most 64 KB, and is the end of what the session's
-- buffer holds: the whole of it if it is no longer than that.
pub capped_replay-end :
    (replay : List ℕ)
    → (length (capped_replay (some replay)) ≤ 65536)
      × ((front : List ℕ) × (front ++ capped_replay (some replay) ≡ replay)
          × (length front ≡ length replay - 65536))
unfolding capped_replay
capped_replay-end replay = elim (Bool-cases (ltb max_replay_bytes (length replay))) [
  | inl long ↦
      subst (Ends replay) (sym (taken (ltb max_replay_bytes (length replay)) _ replay long)) (
        omega (arith, length-drop (length replay - max_replay_bytes) replay, ltb→lt _ _ long),
        (
          take (length replay - max_replay_bytes) replay,
          take-drop (length replay - max_replay_bytes) replay,
          length-take_le (length replay - max_replay_bytes) replay (omega arith),
        ),
      )
  | inr short ↦
      subst (Ends replay)
        (sym (
          not_taken (ltb max_replay_bytes (length replay))
            (drop (length replay - max_replay_bytes) replay) replay short))
        (ltb_false→le _ _ short, ([], refl, omega (arith, ltb_false→le _ _ short)))
]
