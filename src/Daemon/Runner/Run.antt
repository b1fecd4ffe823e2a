-- ===== src/Daemon/Runner/Run.antt =====
-- internal/daemon/runner.go, `CLIRunner.Run`, `runOutput` and `runCompound`: which processes a command
-- starts, and what it returns.
use beadle.Prelude.{
  ℕ, suc, Bool, true, false, not, ◌&&◌, List, [], ◌∷◌, Option, none, some, Result, ok, err,
  if◌then◌else◌, is_nil, ltb, ◌==◌,
}
use beadle.Text.{Text, trim_space}
use beadle.Utf8.{Bytes}
use beadle.Daemon.Command.{Command, Step}
use beadle.Daemon.Call.{Args, Value}
use beadle.Daemon.Runner.{
  Reader, read_capped, CappedWriter, write_all, dropped, output_cap, FileSystem, RunnerError,
  not_started, wait_failed, read_failed, resolve, env_for_command, process_args,
}

-- A process that the runner asks the operating system to start.
pub record Spawn : Type 0 where
  pub path : Text
  pub args : List Text
  pub env : List Text

-- What the processes do, by their step: whether one starts, whether it ends well, what a single one
-- prints, and what the last of several writes.
pub record Processes : Type 0 where
  pub starts : ℕ → Bool
  pub ends_well : ℕ → Bool
  pub stdout : Reader
  pub last_writes : List Bytes

-- The libraries: the environment, `fmt.Sprint`, and the object of a JSON text.
pub record Host : Type 0 where
  pub files : FileSystem
  pub getenv : Text → Option Text
  pub print : Value → Text
  pub json_object : Text → Option Args

abbrev pub Output : Type 0
Output = Result RunnerError (Bytes × Bool)

abbrev pub RunOutput : Type 0
RunOutput = Output × List Spawn

-- `runOutput`.
abbrev pub captured : Option (Bytes × ℕ) → Output
captured none = err read_failed
captured (some (out, extra)) = ok (out, ltb 0 extra)

unfoldable pub run_output : Processes → Output
unfolding read_capped
run_output ps =
    if not (ps.ends_well 0) then err wait_failed else captured (read_capped ps.stdout output_cap)

-- The fields of a pipe value that looks like a JSON object.
abbrev starts_object : Text → Bool
starts_object [] = false
starts_object (c ∷ s) = c == b'{'

unfoldable pub pipe_fields : Host → Text → Option Args
unfolding trim_space
pipe_fields h pipe = if starts_object (trim_space pipe) then h.json_object pipe else none

-- `CLIRunner.Run` of a command with one binary.
abbrev pub start_single : Processes → Spawn → RunOutput
start_single ps s = if ps.starts 0 then (run_output ps, s ∷ []) else (err not_started, s ∷ [])

abbrev pub with_env : Processes → Text → List Text → Result RunnerError (List Text) → RunOutput
with_env ps path args (err e) = (err e, [])
with_env ps path args (ok env) = start_single ps (record { path = path; args = args; env = env })

abbrev pub with_path :
    Host → List Text → Processes → Command → Args → Text → Result RunnerError Text → RunOutput
with_path h dirs ps cmd args pipe (err e) = (err e, [])
with_path h dirs ps cmd args pipe (ok path) =
    with_env ps path (process_args h.print cmd args (pipe_fields h pipe))
      (env_for_command h.getenv cmd dirs)

unfoldable pub run_single : Host → List Text → Processes → Command → Args → Text → RunOutput
unfolding run_output
run_single h dirs ps cmd args pipe =
    with_path h dirs ps cmd args pipe (resolve h.files dirs cmd.binary)

-- The binaries of all steps, resolved before any of them starts.
abbrev pub cons_path :
    Step
    → Result RunnerError Text
    → Result RunnerError (List (Text × Step))
    → Result RunnerError (List (Text × Step))
cons_path step (err e) rest = err e
cons_path step (ok path) (err e) = err e
cons_path step (ok path) (ok rest) = ok ((path, step) ∷ rest)

unfoldable pub resolve_steps :
    FileSystem → List Text → List Step → Result RunnerError (List (Text × Step))
resolve_steps fs dirs [] = ok []
resolve_steps fs dirs (step ∷ steps) =
    cons_path step (resolve fs dirs step.binary) (resolve_steps fs dirs steps)

-- Starting them in order, up to one that does not start; and waiting for all.
unfoldable pub start_steps : Processes → List Text → ℕ → List (Text × Step) → Bool × List Spawn
start_steps ps env i [] = (true, [])
start_steps ps env i ((path, step) ∷ steps) =
    let s : Spawn = record { path = path; args = step.fixed_args; env = env } in
    let (all, rest) = start_steps ps env (suc i) steps in
    if ps.starts i then (all, s ∷ rest) else (false, s ∷ [])

unfoldable pub all_end_well : Processes → ℕ → List (Text × Step) → Bool
all_end_well ps i [] = true
all_end_well ps i (x ∷ xs) = ps.ends_well i && all_end_well ps (suc i) xs

abbrev new_writer : CappedWriter
new_writer = record { buf = []; max = output_cap; total = 0 }

unfoldable pub compound_output : Processes → List (Text × Step) → Output
unfolding all_end_well write_all dropped
compound_output ps steps =
    if not (all_end_well ps 0 steps)
    then err wait_failed
    else let w = write_all new_writer ps.last_writes in ok (w.buf, ltb 0 (dropped w))

-- `runCompound`.
abbrev pub finish_steps : Processes → List (Text × Step) → Bool × List Spawn → RunOutput
finish_steps ps steps (true, spawns) = (compound_output ps steps, spawns)
finish_steps ps steps (false, spawns) = (err not_started, spawns)

abbrev pub start_with : Processes → List (Text × Step) → Result RunnerError (List Text) → RunOutput
start_with ps steps (err e) = (err e, [])
start_with ps steps (ok env) = finish_steps ps steps (start_steps ps env 0 steps)

abbrev pub with_steps :
    Host → List Text → Processes → Command → Result RunnerError (List (Text × Step)) → RunOutput
with_steps h dirs ps cmd (err e) = (err e, [])
with_steps h dirs ps cmd (ok steps) = start_with ps steps (env_for_command h.getenv cmd dirs)

unfoldable pub run_compound : Host → List Text → Processes → Command → RunOutput
unfolding compound_output
run_compound h dirs ps cmd = with_steps h dirs ps cmd (resolve_steps h.files dirs cmd.steps)

-- `CLIRunner.Run`: what it returns, and the processes that it has asked for.
unfoldable pub run_cli : Host → List Text → Processes → Command → Args → Text → RunOutput
run_cli h dirs ps cmd args pipe =
    if is_nil cmd.steps then run_single h dirs ps cmd args pipe else run_compound h dirs ps cmd
