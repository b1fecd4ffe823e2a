-- ===== src/Tests/Records.antt =====
-- A directory of pipeline records, swept and pruned.
use beadle.Prelude.{◌≡◌, refl, true, false, not, ◌||◌, [], ◌∷◌, All}
use beadle.Text.{codes}
use beadle.Daemon.Persist.{
  Saved, holds, corrupt, File, Dir, SaveCalls, PruneCalls, load_running, sweep_stale_pipelines,
  prune_dir, default_retention,
}
use beadle.Daemon.Persist.Pruned.{is_removable}
use beadle.Daemon.Persist.Swept.{is_fresh, sweep-prune_dir}
use beadle.Daemon.Persist.Periodic.{
  Pruner, start_pruning, stop_pruning, new_pruner, starts, stops, Reach, begin, step,
}
use beadle.Daemon.Persist.Periodic.Single.{IsSingle, Reach-IsSingle}

abbrev interrupted : Saved
interrupted = record {
  id = codes "p1";
  status = codes "running";
  error = [];
  created_at = 0;
  rest = codes "{}";
}

abbrev dir : Dir
dir =
    record { name = codes "p1.json"; is_dir = false; content = holds interrupted; mod_time = 0 }
    ∷ record { name = codes ".tmp-p2.json"; is_dir = false; content = corrupt; mod_time = 0 }
    ∷ record { name = codes "notes.txt"; is_dir = false; content = corrupt; mod_time = 0 }
    ∷ []

abbrev saves : Saved → SaveCalls
saves p = record {
  makes_dir = true;
  marshals = true;
  writes = true;
  leaves_torn = false;
  renames = true;
  removes_temp = true;
}

abbrev prunes : PruneCalls
prunes = record { stats = λ name. true; removes = λ name. true }

-- Before the sweep the record is kept, however old.
unswept : (prune_dir prunes 9000000000000000 default_retention dir).1 ≡ 1
unfolding prune_dir beadle.Daemon.Persist.prune_counts beadle.Daemon.Persist.prune_entry
    beadle.Daemon.Persist.is_skipped beadle.Daemon.Persist.is_temp
    beadle.Daemon.Persist.prune_aged_file beadle.Daemon.Persist.prune_orphaned_temp
unswept = refl

sweep-prune_dir_example :
    All
      (λ f. (is_fresh 9 1 f || not (is_removable prunes f)) ≡ true)
      (prune_dir prunes 9 1 (sweep_stale_pipelines saves 5 dir)).0
unfolding load_running beadle.Daemon.Persist.is_skipped beadle.Daemon.Persist.is_temp
    beadle.Text.equal beadle.Daemon.Persist.is_bad_id
sweep-prune_dir_example =
    sweep-prune_dir saves 5 dir (refl, (refl, (refl, tt))) (refl, tt) prunes 9 1

-- Pruning has been started twice and stopped once; the goroutine has still to return.
abbrev started : Pruner
started = start_pruning (start_pruning (new_pruner dir))

stopping : Reach dir (stop_pruning started)
stopping = step (step (step begin (starts _ refl)) (starts _ refl)) (stops started refl)

Reach-IsSingle_example :
    let p = stop_pruning started in IsSingle p.waiting p.stop p.workers p.closed
Reach-IsSingle_example = Reach-IsSingle stopping
