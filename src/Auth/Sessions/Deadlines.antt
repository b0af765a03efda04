-- ===== src/Auth/Sessions/Deadlines.antt =====
-- The table of sessions against a map from hashes to deadlines, and what keeps the two related.
use appx.Base.{
  subst, ℕ, ◌+◌, ◌≤◌, ◌<◌, ◌≡◌, refl, sym, ◌∙◌, ap, Bool, true, false, Option, none, some,
  Option-cases, List, arith, ltb, if◌then◌else◌, Bool-cases, ◌⊎◌, inl, inr,
}
use appx.Text.{Text, text_eq}
use appx.Text.Equality.{text_eq→eq}
use appx.Auth.Sessions.{
  Session, session_duration, find_session, set_expiry, remove_session, remove_expired,
}
use appx.Auth.Sessions.Laws.{
  deadline, Unique, find-remove, find-set_other, deadline-set, find-expired, Unique-set,
  Unique-remove, Unique-expired,
}

abbrev pub Deadlines : Type 0
Deadlines = Text → Option ℕ

abbrev pub put : Text → Option ℕ → Deadlines → Deadlines
put h t d k = if text_eq h k then t else d k

-- A deadline that is past may be missing from the table.
abbrev pub Agree : ℕ → Option ℕ → Option ℕ → Type 0
Agree clock kept none = kept ≡ none
Agree clock kept (some end) = (kept ≡ some end) ⊎ ((kept ≡ none) × (end ≤ clock))

pub record Related (clock : ℕ) (ss : List Session) (d : Deadlines) : Type 0 where
  pub unique : Unique ss
  pub agree : (k : Text) → Agree clock (deadline k ss) (d k)

pub later-Agree :
    (clock clock' : ℕ) (kept end : Option ℕ)
    → clock ≤ clock'
    → Agree clock kept end
    → Agree clock' kept end
later-Agree clock clock' kept none h a = a
later-Agree clock clock' kept (some end) h (inl same) = inl same
later-Agree clock clock' kept (some end) h (inr (gone, past)) = inr (gone, omega arith)

pub later-Related :
    (clock clock' : ℕ) (ss : List Session) (d : Deadlines)
    → clock ≤ clock'
    → Related clock ss d
    → Related clock' ss d
later-Related clock clock' ss d h r = record {
  unique = r.unique;
  agree = λ k. later-Agree clock clock' (deadline k ss) (d k) h (r.agree k);
}

-- Whether a deadline, if there is one, lies ahead.
abbrev pub ahead : ℕ → Option ℕ → Bool
ahead now none = false
ahead now (some end) = ltb now end

pub Agree-ahead :
    (clock now : ℕ) (kept end : Option ℕ)
    → clock ≤ now
    → Agree clock kept end
    → ahead now kept ≡ ahead now end
Agree-ahead clock now kept none h a = rw a refl
Agree-ahead clock now kept (some end) h (inl same) = rw same refl
Agree-ahead clock now kept (some end) h (inr (gone, past)) = rw gone (ground arith)

pub deadline-none : (k : Text) (ss : List Session) → deadline k ss ≡ none → find_session k ss ≡ none
deadline-none k ss e = elim (Option-cases (find_session k ss)) [
  | inl f ↦ f
  | inr (s, f) ↦ ground (arith, f)
]

pub fresh-absent :
    (clock : ℕ) (k : Text) (ss : List Session) (d : Deadlines)
    → Related clock ss d
    → d k ≡ none
    → find_session k ss ≡ none
fresh-absent clock k ss d r e =
    deadline-none k ss (subst (Agree clock (deadline k ss)) e (r.agree k))

pub Agree-same : (clock : ℕ) (kept end : Option ℕ) → kept ≡ end → Agree clock kept end
Agree-same clock kept none e = e
Agree-same clock kept (some end) e = inl e

pub Agree-put :
    (clock : ℕ) (h k : Text) (kept end : Option ℕ) (d : Deadlines)
    → (text_eq h k ≡ true → kept ≡ end)
    → (text_eq h k ≡ false → Agree clock kept (d k))
    → Agree clock kept (put h end d k)
Agree-put clock h k kept end d here other = elim (Bool-cases (text_eq h k)) [
  | inl e ↦ rw e (Agree-same clock kept end (here e))
  | inr e ↦ rw e (other e)
]

pub same_deadline :
    (k : Text) (ss ss' : List Session)
    → find_session k ss ≡ find_session k ss'
    → deadline k ss' ≡ deadline k ss
same_deadline k ss ss' e = ap (λ f. elim f [ none ↦ none | some s ↦ some s.expires_at ]) (sym e)

pub request-Related :
    (h : Text) (end clock : ℕ) (ss : List Session) (d : Deadlines) (s : Session)
    → find_session h ss ≡ some s
    → Related clock ss d
    → Related clock (set_expiry h end ss) (put h (some end) d)
request-Related h end clock ss d s f r = record {
  unique = Unique-set h end ss r.unique;
  agree = λ k.
      Agree-put clock h k _ (some end) d
        (λ e.
          ap (λ t. deadline t (set_expiry h end ss)) (sym (text_eq→eq h k e))
          ∙ deadline-set h end s ss f)
        (λ e.
          subst (λ kept. Agree clock kept (d k))
            (same_deadline k (set_expiry h end ss) ss (find-set_other h end k ss e)) (r.agree k));
}

pub logout-Related :
    (h : Text) (clock : ℕ) (ss : List Session) (d : Deadlines)
    → Related clock ss d
    → Related clock (remove_session h ss) (put h none d)
logout-Related h clock ss d r = record {
  unique = Unique-remove h ss r.unique;
  agree = λ k.
      Agree-put clock h k _ none d (λ e. ground (arith, e, find-remove h k ss))
        (λ e.
          subst (λ kept. Agree clock kept (d k)) (ground (arith, e, find-remove h k ss))
            (r.agree k));
}

pub dropped :
    (clock now : ℕ) (kept kept' : Option ℕ) (end : ℕ) (o : Option ℕ)
    → Agree clock kept o
    → kept ≡ some end
    → end < now
    → kept' ≡ none
    → Agree now kept' o
dropped clock now kept kept' end none a e past gone = gone
dropped clock now kept kept' end (some t) (inl same) e past gone =
    inr (gone, let ends : t ≡ end = cc in omega arith)
dropped clock now kept kept' end (some t) (inr (absent, _)) e past gone = cc

pub clean-Related :
    (now clock : ℕ) (ss : List Session) (d : Deadlines)
    → clock ≤ now
    → Related clock ss d
    → Related now (remove_expired now ss) d
clean-Related now clock ss d h r = record {
  unique = Unique-expired now ss r.unique;
  agree = λ k. elim (find-expired now k ss r.unique) [
    | inl same ↦
        subst (λ kept. Agree now kept (d k)) (same_deadline k (remove_expired now ss) ss same)
          (later-Agree clock now _ (d k) h (r.agree k))
    | inr (s, found, past, gone) ↦
        dropped clock now (deadline k ss) (deadline k (remove_expired now ss)) s.expires_at (d k)
          (r.agree k) (ground (arith, found)) past (ground (arith, gone))
  ];
}

pub request-state :
    (h : Text) (now later clock : ℕ) (ss : List Session) (d : Deadlines)
    → Related clock ss d
    → (clock ≤ now) × (now ≤ later)
    → Related later
        (if ahead now (deadline h ss) then set_expiry h (later + session_duration) ss else ss)
        (if ahead now (d h) then put h (some (later + session_duration)) d else d)
request-state h now later clock ss d r p =
    rw (sym (Agree-ahead clock now (deadline h ss) (d h) p.0 (r.agree h)))
      (elim (Bool-cases (ahead now (deadline h ss))) [
        | inr past ↦ rw past (later-Related clock later ss d (omega arith) r)
        | inl live ↦ elim (Option-cases (find_session h ss)) [
          | inl gone ↦ absurd (ground (arith, gone, live))
          | inr (s, found) ↦ rw live (
              later-Related clock later _ _ (omega arith)
                (request-Related h (later + session_duration) clock ss d s found r))
        ]
      ])
