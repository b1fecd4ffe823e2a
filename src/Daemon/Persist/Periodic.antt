-- ===== src/Daemon/Persist/Periodic.antt =====
-- internal/daemon/persist.go, `StartPruning`, `StopPruning` and `pruneTick`: the goroutine that prunes
-- the records of runs again and again.
pub mod Single
use beadle.Prelude.{
  ℕ, suc, ◌*◌, ◌≡◌, Bool, true, false, List, [], ◌∷◌, Option, none, some, if◌then◌else◌, any, keep,
  not, ◌==◌,
}
use beadle.Prelude.Int.{ℤ, pos, is_positive}
use beadle.Daemon.Persist.{Dir, PruneCalls, prune_counts, minute}

-- The interval of the ticker, in nanoseconds.
abbrev pub default_prune_interval : ℕ
default_prune_interval = 24 * (60 * minute)

abbrev pub ticker_interval : ℤ → ℤ
ticker_interval i = if is_positive i then i else pos default_prune_interval

-- The channels are numbered as they are made. A goroutine is the channel that it listens to;
-- `waiting` says that `StopPruning` holds the lock until the goroutines have returned.
pub record Pruner : Type 0 where
  pub stop : Option ℕ
  pub made : ℕ
  pub closed : List ℕ
  pub workers : List ℕ
  pub waiting : Bool
  pub dir : Dir

abbrev pub is_closed : List ℕ → ℕ → Bool
is_closed closed c = any (λ d. d == c) closed

-- `StartPruning`, with the lock.
abbrev pub start_with : Option ℕ → Pruner → Pruner
start_with none p = record p { stop = some p.made; made = suc p.made; workers = p.made ∷ p.workers }
start_with (some c) p = p

abbrev pub start_pruning : Pruner → Pruner
start_pruning p = start_with p.stop p

-- `StopPruning` up to its wait.
abbrev pub stop_with : Option ℕ → Pruner → Pruner
stop_with none p = p
stop_with (some c) p = record p { closed = c ∷ p.closed; stop = none; waiting = true }

abbrev pub stop_pruning : Pruner → Pruner
stop_pruning p = stop_with p.stop p

-- The goroutines whose channel is closed return.
unfoldable pub return_closed : Pruner → Pruner
return_closed p = record p { workers = keep (λ c. not (is_closed p.closed c)) p.workers }

-- `pruneTick`.
unfoldable pub prune_tick : PruneCalls → ℕ → ℕ → Pruner → Pruner
prune_tick calls now max_age p = record p { dir = (prune_counts calls now max_age p.dir).0 }

abbrev pub new_pruner : Dir → Pruner
new_pruner dir = record {
  stop = none;
  made = 0;
  closed = [];
  workers = [];
  waiting = false;
  dir = dir;
}

-- The calls need the lock; a goroutine ticks at any time, also while it is told to stop.
pub data Step : Pruner → Pruner → Type 0 where
  starts : (p : Pruner) → p.waiting ≡ false → Step p (start_pruning p)
  stops : (p : Pruner) → p.waiting ≡ false → Step p (stop_pruning p)
  ticks :
      (p : Pruner) (c : ℕ) (workers : List ℕ) (calls : PruneCalls) (now max_age : ℕ)
      → p.workers ≡ c ∷ workers
      → Step p (prune_tick calls now max_age p)
  returns : (p : Pruner) → Step p (return_closed p)
  unlocks : (p : Pruner) → p.workers ≡ [] → Step p (record p { waiting = false })

pub data Reach (dir : Dir) : Pruner → Type 0 where
  begin : Reach dir (new_pruner dir)
  step : {p q : Pruner} → Reach dir p → Step p q → Reach dir q
