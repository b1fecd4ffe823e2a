-- ===== src/Daemon/Pipeline/Stages.antt =====
-- internal/daemon/pipeline.go: the loop of `Executor.Run` over the stages.
use beadle.Prelude.{
  ℕ, suc, Bool, not, ◌&&◌, List, [], ◌∷◌, ◌++◌, none, some, Result, ok, err, ◌>>=◌, if◌then◌else◌,
}
use beadle.Text.{Text, lookup}
use beadle.Daemon.Command.{Command}
use beadle.Daemon.Pipeline.Types.{
  CommandCall, nil_command, unknown_runner, stage_failed, bad_output, stage, ran, Runner, Executor,
  Schema, Progress, RunResult, is_process,
}
use beadle.Daemon.Pipeline.Effects.{save, fail}
use beadle.Daemon.Pipeline.Plan.{valid_output, schema_of}

module _ (e : Executor) where
  -- The end of a stage, once its runner has returned.
  unfoldable pub end_stage :
      ℕ → Command → Schema → Text → Bool → Progress → Result RunResult Progress
  unfolding save
  end_stage i cmd schema result cut s =
      if is_process cmd && not (valid_output e schema result)
      then err (fail e s.pipeline (bad_output i cut) s.events)
      else let p = record (s.pipeline) { results = s.pipeline.results ++ result ∷ [] } in
        ok (record {
          pipeline = p;
          pipe = if is_process cmd then result else s.pipe;
          truncated = if is_process cmd then cut else s.truncated;
          events = s.events ++ save e p;
        })

  unfoldable pub call_runner :
      ℕ → CommandCall → Command → Schema → Runner → Progress → Result RunResult Progress
  call_runner i call cmd schema runner s =
      let called = record s {
        events = s.events ++ ran (stage i) call.command s.pipe s.truncated ∷ [];
      } in
      elim (runner s.pipeline (stage i) cmd call s.pipe s.truncated) [
        | err x ↦ err (fail e s.pipeline (stage_failed i x) called.events)
        | ok (result, cut) ↦ end_stage i cmd schema result cut called
      ]

  -- One turn of the loop over the calls.
  unfoldable pub run_stage :
      List (Text × Schema) → ℕ → CommandCall → Progress → Result RunResult Progress
  unfolding save
  run_stage schemas i call s =
      let p = record (s.pipeline) { current = i } in
      let t = record s { pipeline = p; events = s.events ++ save e p } in
      elim (lookup call.command e.commands) [
        | none ↦ err (record { pipeline = p; error = some nil_command; events = t.events })
        | some cmd ↦ elim (lookup cmd.runner e.runners) [
          | none ↦ err (fail e p (unknown_runner i) t.events)
          | some runner ↦ call_runner i call cmd (schema_of call.command schemas) runner t
        ]
      ]

  unfoldable pub run_stages :
      List (Text × Schema) → ℕ → List CommandCall → Progress → Result RunResult Progress
  run_stages schemas i [] s = ok s
  run_stages schemas i (call ∷ calls) s =
      run_stage schemas i call s >>= λ t. run_stages schemas (suc i) calls t
