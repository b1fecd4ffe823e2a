-- ===== src/Daemon/Persist.antt =====
-- internal/daemon/persist.go, the records of pipeline runs on disk, and `sweepStalePipelines` of
-- cmd/beadle-daemon/main.go. A directory is the list of its files. Which calls of the operating system
-- end well is an argument; times are counted in nanoseconds.
pub mod Periodic
pub mod Pruned
pub mod Swept
use beadle.Prelude.{
  ℕ, suc, ◌+◌, ◌*◌, Bool, true, false, not, ◌&&◌, ◌||◌, List, [], ◌∷◌, ◌++◌, Option, none, some,
  if◌then◌else◌, is_nil, ltb, keep,
}
use beadle.Text.{Text, codes, equal, has_prefix, has_suffix, contains, contains_any}

-- What the code reads of a saved `Pipeline`; `rest` is the JSON text of its other fields.
pub record Saved : Type 0 where
  pub id : Text
  pub status : Text
  pub error : Text
  pub created_at : ℕ
  pub rest : Text

-- What reading a file and decoding it gives.
pub data Content : Type 0 where
  unreadable corrupt : Content
  holds : Saved → Content

pub record File : Type 0 where
  pub name : Text
  pub is_dir : Bool
  pub content : Content
  pub mod_time : ℕ

abbrev pub Dir : Type 0
Dir = List File

abbrev pub minute : ℕ
minute = 60 * 1000000000

abbrev pub tmp_file_max_age : ℕ
tmp_file_max_age = 5 * minute

abbrev pub default_retention : ℕ
default_retention = 30 * (24 * (60 * minute))

abbrev pub is_running : Saved → Bool
is_running p = equal p.status (codes "running")

-- The entries that `LoadRunning` and `pruneCounts` look at, and those that `Save` left behind.
unfoldable pub is_skipped : File → Bool
unfolding has_suffix
is_skipped f = f.is_dir || not (has_suffix f.name (codes ".json"))

unfoldable pub is_temp : File → Bool
unfolding has_prefix
is_temp f = has_prefix f.name (codes ".tmp-")

-- `LoadRunning`, of a directory that can be read.
abbrev with_running : Content → List Saved → List Saved
with_running unreadable ps = ps
with_running corrupt ps = ps
with_running (holds p) ps = if is_running p then p ∷ ps else ps

unfoldable pub load_running : Dir → List Saved
load_running [] = []
load_running (f ∷ fs) =
    let rest = load_running fs in
    if is_skipped f || is_temp f then rest else with_running f.content rest

-- What `Save` needs of the operating system; a write that fails may leave a torn file behind.
pub record SaveCalls : Type 0 where
  pub makes_dir : Bool
  pub marshals : Bool
  pub writes : Bool
  pub leaves_torn : Bool
  pub renames : Bool
  pub removes_temp : Bool

pub data SaveError : Type 0 where
  invalid_id no_dir not_marshalled not_written not_renamed : SaveError

unfoldable pub is_bad_id : Text → Bool
unfolding contains contains_any
is_bad_id id = contains_any id (codes "/\\") || contains id (codes "..") || is_nil id

abbrev pub final_name : Text → Text
final_name id = id ++ codes ".json"

abbrev pub temp_name : Text → Text
temp_name id = codes ".tmp-" ++ (id ++ codes ".json")

-- Writing a file replaces the one of its name.
unfoldable pub put : File → Dir → Dir
unfolding equal
put f dir = keep (λ g. not (equal g.name f.name)) dir ++ f ∷ []

abbrev pub file_of : Text → Content → ℕ → File
file_of name content now = record { name = name; is_dir = false; content = content; mod_time = now }

-- `Save`, at the time `now`.
unfoldable pub save_file : SaveCalls → ℕ → Saved → Dir → Dir × Option SaveError
save_file calls now p dir =
    if is_bad_id p.id
    then (dir, some invalid_id)
    else if not calls.makes_dir
    then (dir, some no_dir)
    else if not calls.marshals
    then (dir, some not_marshalled)
    else if not calls.writes
    then (
      if calls.leaves_torn then put (file_of (temp_name p.id) corrupt now) dir else dir,
      some not_written,
    )
    else if calls.renames
    then (put (file_of (final_name p.id) (holds p) now) dir, none)
    else (
      if calls.removes_temp then dir else put (file_of (temp_name p.id) (holds p) now) dir,
      some not_renamed,
    )

-- `sweepStalePipelines`: what it makes of a record, and its loop. An error of `Save` is logged.
abbrev pub mark_stale : Saved → Saved
mark_stale p = record p {
  status = codes "failed";
  error = codes "daemon stopped while pipeline was running";
}

unfoldable pub save_stale : (Saved → SaveCalls) → ℕ → List Saved → Dir → Dir
save_stale calls now [] dir = dir
save_stale calls now (p ∷ ps) dir =
    save_stale calls now ps (save_file (calls p) now (mark_stale p) dir).0

unfoldable pub sweep_stale_pipelines : (Saved → SaveCalls) → ℕ → Dir → Dir
sweep_stale_pipelines calls now dir = save_stale calls now (load_running dir) dir

-- Which files `os.Stat` and `os.Remove` work on.
pub record PruneCalls : Type 0 where
  pub stats : Text → Bool
  pub removes : Text → Bool

pub data Fate : Type 0 where
  kept aged_removed temp_removed : Fate

abbrev pub tally : File → Fate → Dir × ℕ × ℕ → Dir × ℕ × ℕ
tally f kept (rest, aged, temp) = (f ∷ rest, aged, temp)
tally f aged_removed (rest, aged, temp) = (rest, suc aged, temp)
tally f temp_removed (rest, aged, temp) = (rest, aged, suc temp)

module _ (calls : PruneCalls) (now max_age : ℕ) where
  -- `pruneOrphanedTemp`: whether the file is removed.
  unfoldable pub prune_orphaned_temp : File → Bool
  prune_orphaned_temp f =
      if not (calls.stats f.name)
      then false
      else if ltb now (f.mod_time + tmp_file_max_age)
      then false
      else calls.removes f.name

  -- `pruneAgedFile`, where the cutoff is `now` less `max_age`.
  abbrev prune_content : Text → Content → Bool
  prune_content name unreadable = false
  prune_content name corrupt = false
  prune_content name (holds p) =
      if is_running p || not (ltb (p.created_at + max_age) now) then false else calls.removes name

  unfoldable pub prune_aged_file : File → Bool
  unfolding equal
  prune_aged_file f = prune_content f.name f.content

  -- The body of the loop of `pruneCounts`.
  unfoldable pub prune_entry : File → Fate
  prune_entry f =
      if is_skipped f
      then kept
      else if is_temp f
      then (if prune_orphaned_temp f then temp_removed else kept)
      else if prune_aged_file f
      then aged_removed
      else kept

  -- `pruneCounts`: what is left, and how many records and temporary files are removed.
  unfoldable pub prune_counts : Dir → Dir × ℕ × ℕ
  prune_counts [] = ([], 0, 0)
  prune_counts (f ∷ fs) = tally f (prune_entry f) (prune_counts fs)

  -- `Prune`.
  unfoldable pub prune_dir : Dir → Dir × ℕ
  prune_dir dir = let (rest, aged, temp) = prune_counts dir in (rest, aged + temp)
