-- ===== src/Terminal/Ring.antt =====
-- internal/terminal/ringbuf.go: the circular buffer that keeps the last `size` bytes of output.
-- A byte is only moved, so it is any number.
pub mod Copy
pub mod Cuts
pub mod Refine
mod Tests
use appx.Base.{
  ℕ, ◌+◌, ◌-◌, min, Bool, true, false, List, leb, ltb, ◌==◌, if◌then◌else◌, length, take, drop,
  replicate,
}
use Copy.{copy_at}

pub record RingBuffer : Type 0 where
  pub buf : List ℕ
  pub size : ℕ
  pub w : ℕ
  pub full : Bool

pub new_ring_buffer : ℕ → RingBuffer
new_ring_buffer size = record { buf = replicate size 0; size = size; w = 0; full = false }

-- `copy` moves as many bytes as fit, and returns their number `n`.
pub write : RingBuffer → List ℕ → RingBuffer
write rb p =
    if leb rb.size (length p)
    then record rb { buf = copy_at rb.buf 0 (drop (length p - rb.size) p); w = 0; full = true }
    else (let n = min (length p) (length rb.buf - rb.w) in
        let first = copy_at rb.buf rb.w p in
        if ltb n (length p)
        then record rb { buf = copy_at first 0 (drop n p); w = length p - n; full = true }
        else if rb.w + n == rb.size
        then record rb { buf = first; w = 0; full = true }
        else record rb { buf = first; w = rb.w + n })

-- The output slice is allocated, and filled by one or two calls of `copy`.
pub bytes : RingBuffer → List ℕ
bytes rb =
    if rb.full
    then (let out = replicate rb.size 0 in
        let n = min (length out) (length (drop rb.w rb.buf)) in
        copy_at (copy_at out 0 (drop rb.w rb.buf)) n (take rb.w rb.buf))
    else copy_at (replicate rb.w 0) 0 (take rb.w rb.buf)
