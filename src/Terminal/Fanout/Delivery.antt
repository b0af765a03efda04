-- ===== src/Terminal/Fanout/Delivery.antt =====
-- What the loops over the subscribers do when each channel is there once and open.
use appx.Base.{
  ℕ, ◌+◌, ◌≤◌, ◌<◌, ◌≡◌, refl, ap, ◌∙◌, inl, inr, subst, Bool, true, false, List, [], ◌∷◌, arith,
  not_taken, ==_iff, Bool-cases, if◌then◌else◌, ◌==◌,
}
use appx.Base.Effects.{ok, panic, ◌>>=◌}
use appx.Terminal.Fanout.{
  Chan, update, count, unsubscribed, subscribed, close, has_room, enqueue, broadcast, close_all,
}

pub record IsLive (cs : List ℕ) (chans : ℕ → Chan) : Type 0 where
  pub once : (c : ℕ) → count c cs ≤ 1
  pub live : (c : ℕ) → 0 < count c cs → (chans c).closed ≡ false

-- A channel after a send that finds room, or after the eviction.
abbrev pub delivered : List ℕ → Chan → Chan
delivered sent ch =
    if has_room ch then enqueue sent ch else record { queued = ch.queued; closed = true }

-- Who stays, and what each channel holds afterwards.
pub record IsSent (sent cs : List ℕ) (chans : ℕ → Chan) (kept : List ℕ) (after : ℕ → Chan)
    : Type 0 where
  pub stays : (c : ℕ) → count c kept ≡ (if has_room (chans c) then count c cs else 0)
  pub reached : (c : ℕ) → 0 < count c cs → after c ≡ delivered sent (chans c)
  pub untouched : (c : ℕ) → count c cs ≡ 0 → after c ≡ chans c

pub update-same {ℓ} : {A : Type ℓ} (f : ℕ → A) (c : ℕ) (v : A) → update f c v c ≡ v
update-same f c v = ground arith

pub update-other {ℓ} :
    {A : Type ℓ} (f : ℕ → A) (c d : ℕ) (v : A) → (d == c) ≡ false → update f c v d ≡ f d
update-other f c d v h = ground arith

pub count-unsubscribed :
    (c d : ℕ) (cs : List ℕ) → count c (unsubscribed d cs) ≡ (if d == c then 0 else count c cs)
unfolding unsubscribed
count-unsubscribed c d [] = ground arith
count-unsubscribed c d (e ∷ cs) = ground (arith, count-unsubscribed c d cs)

pub count-subscribed :
    (c d : ℕ) (cs : List ℕ) → count c (subscribed d cs) ≡ (if d == c then 1 else count c cs)
unfolding subscribed
count-subscribed c d cs = ground (arith, count-unsubscribed c d cs)

IsLive-tail :
    (c : ℕ) (cs : List ℕ) (chans : ℕ → Chan) (v : Chan)
    → IsLive (c ∷ cs) chans
    → IsLive cs (update chans c v)
IsLive-tail c cs chans v h = record {
  once = λ d. omega (arith, h.once d);
  live = λ d k. ground (arith, h.once d, h.live d);
}

-- The channel at the head is not in the tail.
head-absent : (c : ℕ) (cs : List ℕ) (chans : ℕ → Chan) → IsLive (c ∷ cs) chans → count c cs ≡ 0
head-absent c cs chans h = ground (arith, h.once c)

count-cons_if :
    (b : Bool) (c d : ℕ) (cs : List ℕ)
    → count d (if b then c ∷ cs else cs) ≡ (if b then (if c == d then 1 else 0) else 0) + count d cs
count-cons_if true c d cs = refl
count-cons_if false c d cs = omega arith

IsSent-cons :
    (sent : List ℕ) (c : ℕ) (cs kept : List ℕ) (chans after : ℕ → Chan)
    → IsLive (c ∷ cs) chans
    → IsSent sent cs (update chans c (delivered sent (chans c))) kept after
    → IsSent sent (c ∷ cs) chans (if has_room (chans c) then c ∷ kept else kept) after
IsSent-cons sent c cs kept chans after h s = record {
  stays = λ d. elim (Bool-cases (c == d)) [
    | inl same ↦
        (let e = (==_iff c d).0 same in
          subst
            (λ x.
              count x (if has_room (chans c) then c ∷ kept else kept)
              ≡ (if has_room (chans x) then count x (c ∷ cs) else 0))
            e
            (ground (
              arith,
              count-cons_if (has_room (chans c)) c c kept,
              s.stays c,
              head-absent c cs chans h,
            )))
    | inr other ↦ ground (arith, count-cons_if (has_room (chans c)) c d kept, s.stays d)
  ];
  reached = λ d k. elim (Bool-cases (c == d)) [
    | inl same ↦
        (let e = (==_iff c d).0 same in
          subst (λ x. after x ≡ delivered sent (chans x)) e
            (s.untouched c (head-absent c cs chans h) ∙ update-same chans c _))
    | inr other ↦ ground (arith, s.reached d)
  ];
  untouched = λ d k. ground (arith, s.untouched d);
}

-- A channel that stays is open.
pub kept_open :
    (sent cs kept : List ℕ) (chans after : ℕ → Chan) (c : ℕ)
    → IsLive cs chans
    → IsSent sent cs chans kept after
    → 0 < count c kept
    → (after c).closed ≡ false
kept_open sent cs kept chans after c h s k =
    let held : 0 < count c cs = ground (arith, s.stays c) in
    ap (λ ch. ch.closed) (s.reached c held) ∙ ground (arith, s.stays c, h.live c held)

IsSent-nil : (sent : List ℕ) (chans : ℕ → Chan) → IsSent sent [] chans [] chans
IsSent-nil sent chans = record {
  stays = λ c. ground arith;
  reached = λ c h. absurd (omega arith);
  untouched = λ c h. refl;
}

pub close_open :
    (c : ℕ) (chans : ℕ → Chan)
    → (chans c).closed ≡ false
    → close c chans ≡ ok (update chans c (record { queued = (chans c).queued; closed = true }))
unfolding close
close_open c chans h = ground (arith, h)

broadcast-cons :
    (sent : List ℕ) (c : ℕ) (cs kept : List ℕ) (chans after : ℕ → Chan)
    → (chans c).closed ≡ false
    → broadcast sent cs (update chans c (delivered sent (chans c))) ≡ ok (kept, after)
    → broadcast sent (c ∷ cs) chans ≡ ok (if has_room (chans c) then c ∷ kept else kept, after)
unfolding broadcast
broadcast-cons sent c cs kept chans after still_open h =
    elim (has_room (chans c))
        as (λ b.
          broadcast sent cs (
              update chans c (
                if b
                then enqueue sent (chans c)
                else record { queued = (chans c).queued; closed = true }))
            ≡ ok (kept, after)
          → (if (chans c).closed
              then panic
              else if b
              then (broadcast sent cs (update chans c (enqueue sent (chans c))) >>= λ r.
                  ok (c ∷ r.0, r.1))
              else (close c chans >>= λ closed_one. broadcast sent cs closed_one))
            ≡ ok (if b then c ∷ kept else kept, after)) [
              | true ↦ λ e. not_taken _ _ _ still_open ∙ ap (λ r. r >>= λ r. ok (c ∷ r.0, r.1)) e
              | false ↦ λ e. not_taken _ _ _ still_open ∙ rw (close_open c chans still_open) e
            ]
      h

-- A broadcast to live subscribers ends, reaches each of them, and no one else.
pub broadcast-IsSent :
    (sent cs : List ℕ) (chans : ℕ → Chan)
    → IsLive cs chans
    → (kept : List ℕ) × (after : ℕ → Chan) × (broadcast sent cs chans ≡ ok (kept, after))
      × IsSent sent cs chans kept after
broadcast-IsSent sent [] chans h = ([], chans, unfold broadcast in refl, IsSent-nil sent chans)
broadcast-IsSent sent (c ∷ cs) chans h =
    let v = delivered sent (chans c) in
    let (kept, after, e, s) =
      broadcast-IsSent sent cs (update chans c v) (IsLive-tail c cs chans v h) in
    (
      if has_room (chans c) then c ∷ kept else kept,
      after,
      broadcast-cons sent c cs kept chans after (h.live c (ground arith)) e,
      IsSent-cons sent c cs kept chans after h s,
    )

-- After close_all each of the channels is closed, and no other has changed.
pub record IsAllClosed (cs : List ℕ) (chans after : ℕ → Chan) : Type 0 where
  pub shut : (c : ℕ) → 0 < count c cs → (after c).closed ≡ true
  pub others : (c : ℕ) → count c cs ≡ 0 → after c ≡ chans c

close_all-cons :
    (c : ℕ) (cs : List ℕ) (chans after : ℕ → Chan)
    → (chans c).closed ≡ false
    → close_all cs (update chans c (record { queued = (chans c).queued; closed = true })) ≡ ok after
    → close_all (c ∷ cs) chans ≡ ok after
unfolding close_all
close_all-cons c cs chans after still_open e = rw (close_open c chans still_open) e

IsAllClosed-cons :
    (c : ℕ) (cs : List ℕ) (chans after : ℕ → Chan)
    → IsLive (c ∷ cs) chans
    → IsAllClosed cs (update chans c (record { queued = (chans c).queued; closed = true })) after
    → IsAllClosed (c ∷ cs) chans after
IsAllClosed-cons c cs chans after h s = record {
  shut = λ d k. elim (Bool-cases (c == d)) [
    | inl same ↦
        subst (λ x. (after x).closed ≡ true) ((==_iff c d).0 same)
          (ap (λ ch. ch.closed) (s.others c (head-absent c cs chans h) ∙ update-same chans c _))
    | inr other ↦ s.shut d (ground arith)
  ];
  others = λ d k. ground (arith, s.others d);
}

pub close_all-IsAllClosed :
    (cs : List ℕ) (chans : ℕ → Chan)
    → IsLive cs chans
    → (after : ℕ → Chan) × (close_all cs chans ≡ ok after) × IsAllClosed cs chans after
close_all-IsAllClosed [] chans h = (
  chans,
  unfold close_all in refl,
  record { shut = λ c k. absurd (omega arith); others = λ c k. refl },
)
close_all-IsAllClosed (c ∷ cs) chans h =
    let v : Chan = record { queued = (chans c).queued; closed = true } in
    let (after, e, s) = close_all-IsAllClosed cs (update chans c v) (IsLive-tail c cs chans v h) in
    (
      after,
      close_all-cons c cs chans after (h.live c (ground arith)) e,
      IsAllClosed-cons c cs chans after h s,
    )
