-- ===== src/Daemon/Runner/Started.antt =====
-- What a command of the cli runner can start and return (internal/daemon/runner.go).
use beadle.Prelude.{
  ◌≤◌, ◌≡◌, ◌++◌, inl, inr, true, List, [], ◌∷◌, Option, none, some, ok, err, length, All,
  Bool-cases, arith,
}
use beadle.Text.{Text, codes, join, member}
use beadle.Daemon.Command.{Command, Step}
use beadle.Daemon.Runner.{
  output_cap, FileSystem, usable, check_resolved, resolve_from, resolve, or_empty,
}
use beadle.Daemon.Runner.Run.{Spawn, Host, Output, RunOutput}

resolve_from-eq-ok :
    (fs : FileSystem) (dirs : List Text) (name : Text) (rest : List Text) {path : Text}
    → resolve_from fs dirs name rest ≡ ok path
    → member (fs.dir_of path) dirs ≡ true
unfolding resolve_from
resolve_from-eq-ok fs dirs name [] h = cc
resolve_from-eq-ok fs dirs name (dir ∷ rest) {path} h =
    elim (Bool-cases (usable (fs.stat (fs.join_path dir name)))) [
      | inr skipped ↦ resolve_from-eq-ok fs dirs name rest (rw (skipped, resolve_from) at h)
      | inl found ↦
          checked (fs.eval_symlinks (fs.join_path dir name)) (rw (found, resolve_from) at h)
    ]
  where
    checked :
        (target : Option Text)
        → check_resolved fs dirs target ≡ ok path
        → member (fs.dir_of path) dirs ≡ true
    checked none k = cc
    checked (some t) k = ground arith

-- A binary that resolves lies directly in a directory of the whitelist, symbolic links followed.
pub resolve-eq-ok :
    (fs : FileSystem) (dirs : List Text) (name : Text) {path : Text}
    → resolve fs dirs name ≡ ok path
    → member (fs.dir_of path) dirs ≡ true
unfolding resolve
resolve-eq-ok fs dirs name h = resolve_from-eq-ok fs dirs name dirs h

abbrev pub IsBounded : Output → Type 0
IsBounded (err e) = Unit
IsBounded (ok (out, cut)) = length out ≤ output_cap

-- Each of the names is set, and the entries are the names with their values, in order.
pub data AreSet (getenv : Text → Option Text) : List Text → List Text → Type 0 where
  no_names : AreSet getenv [] []
  one_more :
      {name value : Text} {names entries : List Text}
      → getenv name ≡ some value
      → AreSet getenv names entries
      → AreSet getenv (name ∷ names) ((name ++ (codes "=" ++ value)) ∷ entries)

-- The environment of a command: the whitelist as its path, the home and the user of the daemon, and
-- the variables that the command declares, every one of which is set.
pub record IsEnvOf (getenv : Text → Option Text) (dirs names env : List Text) : Type 0 where
  pub entries : List Text
  pub declared : AreSet getenv names entries
  pub exact :
      env
      ≡ (codes "PATH=" ++ join (codes ":") dirs)
        ∷ (codes "HOME=" ++ or_empty (getenv (codes "HOME")))
        ∷ (codes "USER=" ++ or_empty (getenv (codes "USER")))
        ∷ entries

module _ (h : Host) (dirs : List Text) (cmd : Command) where
  -- The binary is whitelisted, and the environment is the command's.
  abbrev pub IsAllowed : Spawn → Type 0
  IsAllowed s =
      (member (h.files.dir_of s.path) dirs ≡ true) × IsEnvOf h.getenv dirs cmd.env_vars s.env

  -- All processes that were asked for are allowed, and the output keeps to the cap.
  abbrev pub IsConfined : RunOutput → Type 0
  IsConfined (output, spawns) = IsBounded output × All IsAllowed spawns

  -- The resolved steps of a compound command.
  abbrev AreResolved : List (Text × Step) → Type 0
  AreResolved steps = All (λ x. member (h.files.dir_of x.0) dirs ≡ true) steps
