-- ===== src/Email/Poller/Interval.antt =====
-- The interval and the loop of the poller (internal/email/poller.go).
use beadle.Prelude.{
  ℕ, ◌<◌, ◌≡◌, ◌≢◌, ◌⊎◌, ◌↔◌, true, false, none, some, arith, Option-cases, inl, inr, List, [], ◌∷◌,
  All, Bool-cases,
}
use beadle.Text.{Text, equal, lookup}
use beadle.Email.Poller.{
  valid_poll_intervals, is_disabled, valid_poll_interval, Poller, set_interval,
}

-- The loop runs exactly when there is an interval to wait.
abbrev pub IsCoherent : Poller → Type 0
IsCoherent p =
    ((p.looping ≡ true) × (0 < p.interval)) ⊎ ((p.looping ≡ false) × (is_disabled p.raw ≡ true))

lookup_pos :
    (s : Text) (m : List (Text × ℕ)) {d : ℕ}
    → lookup s m ≡ some d
    → All (λ (entry : Text × ℕ). 0 < entry.1) m
    → 0 < d
unfolding lookup
lookup_pos s [] e h = cc
lookup_pos s ((j, w) ∷ m) {d} e h = elim (Bool-cases (equal j s)) [
  | inl same ↦ let eq : some w ≡ some d = rw same at e in ground arith
  | inr other ↦ lookup_pos s m (rw other at e) h.1
]

-- `SetInterval` refuses exactly the texts that are no interval, and then changes nothing; else the
-- loop runs exactly if the text does not disable it, at a positive interval, and the counts are kept.
pub set_interval_lem :
    (s : Text) (p : Poller)
    → let (q, e) = set_interval s p in
      ((e ≡ none) ↔ (valid_poll_interval s ≡ true))
      × (((e ≢ none) × (q ≡ p))
          ⊎ ((e ≡ none) × IsCoherent q × (q.raw ≡ s) × (q.last_seen ≡ p.last_seen)))
unfolding set_interval valid_poll_interval
set_interval_lem s p = elim (Option-cases (lookup s valid_poll_intervals)) [
  | inl missing ↦ ground arith
  | inr (d, found) ↦
      let positive : 0 < d = lookup_pos s valid_poll_intervals found (omega arith) in ground arith
]
