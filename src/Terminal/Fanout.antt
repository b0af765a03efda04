-- ===== src/Terminal/Fanout.antt =====
-- The subscribers of a session in internal/terminal/manager.go and local.go: buffered channels, named
-- by numbers, that a piece of output is sent to, and that are closed when the session ends.
pub mod Delivery
use appx.Base.{
  ℕ, ◌+◌, Bool, true, false, List, [], ◌∷◌, ◌++◌, if◌then◌else◌, ltb, ◌==◌, length, drop,
}
use appx.Base.Effects.{Effect, ok, panic, ◌>>=◌}

pub record Chan : Type 0 where
  pub queued : List (List ℕ)
  pub closed : Bool

abbrev pub subscriber_buf_size : ℕ
subscriber_buf_size = 256

abbrev pub new_chan : Chan
new_chan = record { queued = []; closed = false }

abbrev pub update {ℓ} : {A : Type ℓ} → (ℕ → A) → ℕ → A → ℕ → A
update f c v j = if j == c then v else f j

-- How many times a channel is among the subscribers.
abbrev pub count : ℕ → List ℕ → ℕ
count c [] = 0
count c (d ∷ ds) = (if d == c then 1 else 0) + count c ds

unfoldable pub unsubscribed : ℕ → List ℕ → List ℕ
unsubscribed c [] = []
unsubscribed c (d ∷ ds) = let rest = unsubscribed c ds in if d == c then rest else d ∷ rest

-- A Go map of channels: a key that is set again is there once.
unfoldable pub subscribed : ℕ → List ℕ → List ℕ
subscribed c ds = c ∷ unsubscribed c ds

unfoldable pub close : ℕ → (ℕ → Chan) → Effect (ℕ → Chan)
close c chans =
    if (chans c).closed
    then panic
    else ok (update chans c (record { queued = (chans c).queued; closed = true }))

unfoldable pub has_room : Chan → Bool
has_room ch = ltb (length ch.queued) subscriber_buf_size

abbrev pub enqueue : List ℕ → Chan → Chan
enqueue data_sent ch = record { queued = ch.queued ++ (data_sent ∷ []); closed = ch.closed }

-- A receive from a channel takes what was queued first; a channel with nothing queued is left as it is,
-- and the receive waits, or learns that the channel is closed.
abbrev pub dequeue : Chan → Chan
dequeue ch = record { queued = drop 1 ch.queued; closed = ch.closed }

unfoldable pub receive : ℕ → (ℕ → Chan) → ℕ → Chan
receive c chans = update chans c (dequeue (chans c))

-- The loop over the subscribers, which gives those that stay: a send on a channel that is full closes
-- it instead.
unfoldable pub broadcast : List ℕ → List ℕ → (ℕ → Chan) → Effect (List ℕ × (ℕ → Chan))
broadcast sent [] chans = ok ([], chans)
broadcast sent (c ∷ cs) chans =
    if (chans c).closed
    then panic
    else if has_room (chans c)
    then (do
      (kept, after) ← broadcast sent cs (update chans c (enqueue sent (chans c)))
      ok (c ∷ kept, after))
    else (do closed_one ← close c chans; broadcast sent cs closed_one)

unfoldable pub close_all : List ℕ → (ℕ → Chan) → Effect (ℕ → Chan)
close_all [] chans = ok chans
close_all (c ∷ cs) chans = do next ← close c chans; close_all cs next
