-- ===== src/Daemon/Persist/Periodic/Single.antt =====
-- There is one goroutine that prunes, and it can always be stopped (internal/daemon/persist.go).
use beadle.Prelude.{
  ℕ, suc, ◌≤◌, ◌<◌, ◌≡◌, ◌⊎◌, inl, inr, ap, refl, is_nil, Bool, true, false, not, List, [], ◌∷◌,
  Option, none, some, All, keep, length, arith,
}
use beadle.Daemon.Persist.{Dir}
use beadle.Daemon.Persist.Periodic.{
  Pruner, is_closed, start_with, stop_with, return_closed, prune_tick, Step, starts, stops, ticks,
  returns, unlocks, Reach, begin, step,
}

-- What the goroutines are: none, or one on the channel that is open, or, while `StopPruning` waits,
-- one on a channel that is closed.
abbrev pub AreSound : Bool → Option ℕ → List ℕ → List ℕ → ℕ → Type 0
AreSound false none workers closed made = workers ≡ []
AreSound false (some c) workers closed made =
    (workers ≡ c ∷ []) × (is_closed closed c ≡ false) × (c < made)
AreSound true none workers closed made =
    (length workers ≤ 1) × All (λ c. is_closed closed c ≡ true) workers
AreSound true (some c) workers closed made = true ≡ false

pub record IsSound (p : Pruner) : Type 0 where
  pub sound : AreSound p.waiting p.stop p.workers p.closed p.made
  pub fresh : All (λ c. c < p.made) p.closed

not_closed : (n : ℕ) (closed : List ℕ) → All (λ c. c < n) closed → is_closed closed n ≡ false
not_closed n [] h = refl
not_closed n (c ∷ closed) h = ground (arith, not_closed n closed)

more : (n : ℕ) (closed : List ℕ) → All (λ c. c < n) closed → All (λ c. c < suc n) closed
more n [] h = tt
more n (c ∷ closed) h = (omega (arith, h.0), more n closed h.1)

start-IsSound :
    (stop : Option ℕ) (p : Pruner)
    → p.stop ≡ stop
    → p.waiting ≡ false
    → IsSound p
    → IsSound (start_with stop p)
start-IsSound none p e f h = record {
  sound =
      rw f
        (ap (◌∷◌ p.made) (rw (f, e) at h.sound), not_closed p.made p.closed h.fresh, omega arith);
  fresh = more p.made p.closed h.fresh;
}
start-IsSound (some c) p e f h = h

stop_sound :
    (c made : ℕ) (workers closed : List ℕ)
    → AreSound false (some c) workers closed made
    → AreSound true none workers (c ∷ closed) made
stop_sound c made workers closed (e, k, l) = rw e (omega arith, (ground arith, tt))

stop-IsSound :
    (stop : Option ℕ) (p : Pruner)
    → p.stop ≡ stop
    → p.waiting ≡ false
    → IsSound p
    → IsSound (stop_with stop p)
stop-IsSound none p e f h = h
stop-IsSound (some c) p e f h =
    let k : AreSound false (some c) p.workers p.closed p.made = rw (f, e) at h.sound in
    record { sound = stop_sound c p.made p.workers p.closed k; fresh = (k.2, h.fresh) }

all_return :
    (closed workers : List ℕ)
    → All (λ c. is_closed closed c ≡ true) workers
    → keep (λ c. not (is_closed closed c)) workers ≡ []
all_return closed [] h = refl
all_return closed (c ∷ workers) h = rw (h.0, keep) (all_return closed workers h.1)

return_sound :
    (waiting : Bool) (stop : Option ℕ) (workers closed : List ℕ) (made : ℕ)
    → AreSound waiting stop workers closed made
    → AreSound waiting stop (keep (λ c. not (is_closed closed c)) workers) closed made
return_sound false none workers closed made h = rw h refl
return_sound false (some c) workers closed made (e, k, l) = rw e (rw (k, keep) refl, k, l)
return_sound true none workers closed made h = rw (all_return closed workers h.1) (omega arith, tt)
return_sound true (some c) workers closed made h = h

unlock_sound :
    (waiting : Bool) (stop : Option ℕ) (workers closed : List ℕ) (made : ℕ)
    → workers ≡ []
    → AreSound waiting stop workers closed made
    → AreSound false stop workers closed made
unlock_sound false stop workers closed made e h = h
unlock_sound true none workers closed made e h = e
unlock_sound true (some c) workers closed made e h = cc

Step-IsSound : {p q : Pruner} → Step p q → IsSound p → IsSound q
unfolding return_closed prune_tick
Step-IsSound (starts p f) h = start-IsSound p.stop p refl f h
Step-IsSound (stops p f) h = stop-IsSound p.stop p refl f h
Step-IsSound (ticks p c workers calls now max_age e) h = record { sound = h.sound; fresh = h.fresh }
Step-IsSound (returns p) h = record {
  sound = return_sound p.waiting p.stop p.workers p.closed p.made h.sound;
  fresh = h.fresh;
}
Step-IsSound (unlocks p e) h = record {
  sound = unlock_sound p.waiting p.stop p.workers p.closed p.made e h.sound;
  fresh = h.fresh;
}

Reach-IsSound : {dir : Dir} {p : Pruner} → Reach dir p → IsSound p
Reach-IsSound begin = record { sound = refl; fresh = tt }
Reach-IsSound (step r s) = Step-IsSound s (Reach-IsSound r)

abbrev pub has_channel : Option ℕ → Bool
has_channel none = false
has_channel (some c) = true

-- The goroutines: at most one; while `StopPruning` waits, all that are left return; and else one runs
-- exactly if the channel is open.
abbrev pub IsSingle : Bool → Option ℕ → List ℕ → List ℕ → Type 0
IsSingle waiting stop workers closed =
    (length workers ≤ 1)
    × (((waiting ≡ true) × (keep (λ c. not (is_closed closed c)) workers ≡ []))
        ⊎ ((waiting ≡ false) × (has_channel stop ≡ not (is_nil workers))))

sound-IsSingle :
    (waiting : Bool) (stop : Option ℕ) (workers closed : List ℕ) (made : ℕ)
    → AreSound waiting stop workers closed made
    → IsSingle waiting stop workers closed
sound-IsSingle false none workers closed made h = rw h (omega arith, inr (refl, refl))
sound-IsSingle false (some c) workers closed made (e, k, l) = rw e (omega arith, inr (refl, refl))
sound-IsSingle true none workers closed made h = (h.0, inl (refl, all_return closed workers h.1))
sound-IsSingle true (some c) workers closed made h = cc

-- However `StartPruning`, `StopPruning`, the ticks and the returns follow each other: at most one
-- goroutine prunes; while `StopPruning` waits, all that are left return, so that it ends; and
-- otherwise one prunes exactly if pruning has been started.
pub Reach-IsSingle :
    {dir : Dir} {p : Pruner} → Reach dir p → IsSingle p.waiting p.stop p.workers p.closed
Reach-IsSingle {p = p} r = sound-IsSingle _ _ _ _ p.made (Reach-IsSound r).sound
