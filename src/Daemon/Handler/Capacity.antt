-- ===== src/Daemon/Handler/Capacity.antt =====
-- The number of workers that `OnNewMail` (internal/daemon/handler.go) lets run at once.
use beadle.Prelude.{ℕ, zero, suc, ◌+◌, ◌≤◌, ◌<◌, ◌≡◌, refl, arith, ◌⊎◌, ◌≢◌}
use beadle.Prelude.Int.{ℤ, pos, negsuc}
use beadle.Text.{CaseTables}
use beadle.Daemon.Handler.{
  Message, MailHandler, Workers, worker_capacity, new_workers, dispatched, acquire, release, act,
  check_contact, handle,
}

worker_capacity-pos : (z : ℤ) → 0 < worker_capacity z
worker_capacity-pos (pos zero) = omega arith
worker_capacity-pos (pos (suc n)) = omega arith
worker_capacity-pos (negsuc n) = omega arith

module _ ⦃u : CaseTables⦄ (h : MailHandler) where
  -- Messages come in any order, and a worker that runs may end at any time.
  pub data Step : Workers → Workers → Type 0 where
    deliver : (w : Workers) (msg : Message) → Step w (handle h msg w).1
    done : (w : Workers) → 0 < w.busy → Step w (release w)

  pub data Reach (w : Workers) : Workers → Type 0 where
    start : Reach w w
    step : {v x : Workers} → Reach w v → Step v x → Reach w x

  -- What one message does to the slots: a worker takes one, and nothing else does.
  pub handle_slots :
      (msg : Message) (w : Workers)
      → (((handle h msg w).0 ≡ dispatched)
          × (w.busy < w.capacity)
          × ((handle h msg w).1 ≡ record w { busy = w.busy + 1 }))
        ⊎ (((handle h msg w).0 ≢ dispatched) × ((handle h msg w).1 ≡ w))
  unfolding handle check_contact act acquire
  handle_slots msg w = ground arith

  record IsWithin (capacity : ℕ) (w : Workers) : Type 0 where
    fixed : w.capacity ≡ capacity
    within : w.busy ≤ w.capacity

  Step-IsWithin : {c : ℕ} {v w : Workers} → Step v w → IsWithin c v → IsWithin c w
  unfolding release
  Step-IsWithin (deliver w msg) i = ground (arith, handle_slots msg w)
  Step-IsWithin (done w some_busy) i = ground arith

  Reach-IsWithin : {c : ℕ} {v w : Workers} → IsWithin c v → Reach v w → IsWithin c w
  Reach-IsWithin i start = i
  Reach-IsWithin i (step r s) = Step-IsWithin s (Reach-IsWithin i r)

  -- However messages arrive and workers end, there are never more workers than `NewMailHandler`
  -- allows, and it allows at least one.
  pub Reach-capacity :
      (max_workers : ℤ) {w : Workers}
      → Reach (new_workers max_workers) w
      → (w.busy ≤ worker_capacity max_workers) × (0 < worker_capacity max_workers)
  unfolding new_workers
  Reach-capacity max_workers r =
      let i = Reach-IsWithin (record { fixed = refl; within = omega arith }) r in
      (omega (arith, i.fixed, i.within), worker_capacity-pos max_workers)
