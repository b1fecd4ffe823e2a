-- ===== src/Daemon/Pipeline/Outcome.antt =====
-- How a run of `Executor.Run` (internal/daemon/pipeline.go) ends.
use beadle.Prelude.{
  ℕ, suc, ◌≡◌, ◌⊎◌, refl, inl, inr, Bool, true, List, [], ◌∷◌, ◌++◌, Option, none, some, Result, ok,
  err, ◌>>=◌, arith, All, Option-cases, Bool-cases, Result-cases, not, ◌&&◌,
}
use beadle.Text.{Text, lookup}
use beadle.Utf8.{Bytes}
use beadle.Daemon.Command.{Command}
use beadle.Daemon.Call.{validate_args}
use beadle.Daemon.Pipeline.Types.{
  EmailMeta, CommandCall, completed, failed, PipelineError, Pipeline, Event, saved, ran, Runner,
  Executor, Schema, Progress, RunResult, stage, bad_output, is_process,
}
use beadle.Daemon.Pipeline.Effects.{save, fire_else, fail}
use beadle.Daemon.Pipeline.Plan.{valid_output, check_calls, compile_schemas}
use beadle.Daemon.Pipeline.Stages.{end_stage, call_runner, run_stage, run_stages}
use beadle.Daemon.Pipeline.Run.{
  auto_reply, finish, collapse, run_plan, check_plan, run, effective_body,
}

-- The last state that was handed to the store.
abbrev pub last_saved_or : Option Pipeline → List Event → Option Pipeline
last_saved_or o [] = o
last_saved_or o (saved p ∷ es) = last_saved_or (some p) es
last_saved_or o (ran i c t b ∷ es) = last_saved_or o es

abbrev pub last_saved : List Event → Option Pipeline
last_saved = last_saved_or none

last_saved_or-append :
    (o : Option Pipeline) (xs ys : List Event)
    → last_saved_or o (xs ++ ys) ≡ last_saved_or (last_saved_or o xs) ys
last_saved_or-append o [] ys = refl
last_saved_or-append o (saved p ∷ xs) ys = last_saved_or-append (some p) xs ys
last_saved_or-append o (ran i c t b ∷ xs) ys = last_saved_or-append o xs ys

-- The run is over, its status agrees with what it returns, and the store has seen its last state.
pub record IsFinal (r : RunResult) : Type 0 where
  pub outcome :
      ((r.error ≡ none) × (r.pipeline.status ≡ completed))
      ⊎ ((x : PipelineError) × (r.error ≡ some x)
          × (r.pipeline.status ≡ failed)
          × (r.pipeline.error ≡ some x))
  pub persisted : last_saved r.events ≡ some r.pipeline

-- The call's command is registered, and accepts the call's arguments.
abbrev pub IsRegistered : Executor → CommandCall → Type 0
IsRegistered e call =
    (cmd : Command) × (lookup call.command e.commands ≡ some cmd)
    × (validate_args cmd call.args ≡ none)

pub check_calls-IsRegistered :
    (e : Executor) (i : ℕ) (calls : List CommandCall)
    → check_calls e i calls ≡ none
    → All (IsRegistered e) calls
unfolding check_calls
check_calls-IsRegistered e i [] h = tt
check_calls-IsRegistered e i (call ∷ calls) h =
    elim (Option-cases (lookup call.command e.commands)) [
      | inl missing ↦ cc (rw (missing, check_calls) at h)
      | inr (cmd, found) ↦ elim (Option-cases (validate_args cmd call.args)) [
        | inr (x, bad) ↦ cc (rw (found, bad, check_calls) at h)
        | inl good ↦ (
          (cmd, found, good),
          check_calls-IsRegistered e (suc i) calls (rw (found, good, check_calls) at h),
        )
      ]
    ]

module _ (e : Executor) (stored : e.has_store ≡ true) where
  last_saved-fire_else : (o : Option Pipeline) (p : Pipeline) → last_saved_or o (fire_else e p) ≡ o
  unfolding fire_else
  last_saved-fire_else o p = ground arith

  last_saved-save :
      (o : Option Pipeline) (p : Pipeline) (es : List Event)
      → last_saved_or o (save e p ++ es) ≡ last_saved_or (some p) es
  unfolding save
  last_saved-save o p es = rw stored

  fail-IsFinal : (p : Pipeline) (x : PipelineError) (es : List Event) → IsFinal (fail e p x es)
  unfolding fail
  fail-IsFinal p x es = record {
    outcome = inr (x, refl, refl, refl);
    persisted = rw (last_saved_or-append none es) (rw last_saved-save (last_saved-fire_else _ _));
  }

  -- The automatic reply saves nothing, and leaves the status to `finish`.
  last_saved-auto_reply :
      (o : Option Pipeline) (s : Progress) → last_saved_or o (auto_reply e s).1 ≡ o
  unfolding auto_reply
  last_saved-auto_reply o s = ground arith

  finish-IsFinal : (s : Progress) → IsFinal (finish e s)
  unfolding finish
  finish-IsFinal s = record {
    outcome = inl (refl, refl);
    persisted =
        rw (last_saved_or-append none s.events)
          (rw (last_saved_or-append (last_saved s.events) (auto_reply e s).1) (rw stored refl));
  }

  -- A loop that stops early stops with a final result.
  abbrev StopsFinal : Result RunResult Progress → Type 0
  StopsFinal (ok s) = Unit
  StopsFinal (err r) = IsFinal r

  end_stage-StopsFinal :
      (i : ℕ) (cmd : Command) (schema : Schema) (result : Text) (cut : Bool) (s : Progress)
      → StopsFinal (end_stage e i cmd schema result cut s)
  unfolding end_stage
  end_stage-StopsFinal i cmd schema result cut s =
      elim (Bool-cases (is_process cmd && not (valid_output e schema result))) [
        | inl wrong ↦ rw (wrong, end_stage) (fail-IsFinal s.pipeline (bad_output i cut) s.events)
        | inr right ↦ rw (right, end_stage) tt
      ]

  call_runner-StopsFinal :
      (i : ℕ) (call : CommandCall) (cmd : Command) (schema : Schema) (runner : Runner)
      (s : Progress)
      → StopsFinal (call_runner e i call cmd schema runner s)
  unfolding call_runner
  call_runner-StopsFinal i call cmd schema runner s =
      elim (Result-cases (runner s.pipeline (stage i) cmd call s.pipe s.truncated)) [
        | inl (x, failing) ↦ rw (failing, call_runner) (fail-IsFinal _ _ _)
        | inr ((result, cut), done) ↦
            rw (done, call_runner) (end_stage-StopsFinal i cmd schema result cut _)
      ]

  run_stage-StopsFinal :
      (schemas : List (Text × Schema)) (i : ℕ) (call : CommandCall) (s : Progress)
      → IsRegistered e call
      → StopsFinal (run_stage e schemas i call s)
  unfolding run_stage
  run_stage-StopsFinal schemas i call s (cmd, found, _) =
      elim (Option-cases (lookup cmd.runner e.runners)) [
        | inl missing ↦ rw (found, missing, run_stage) (fail-IsFinal _ _ _)
        | inr (runner, present) ↦
            rw (found, present, run_stage) (call_runner-StopsFinal i call cmd _ runner _)
      ]

  run_stages-StopsFinal :
      (schemas : List (Text × Schema)) (i : ℕ) (calls : List CommandCall) (s : Progress)
      → All (IsRegistered e) calls
      → StopsFinal (run_stages e schemas i calls s)
  unfolding run_stages
  run_stages-StopsFinal schemas i [] s h = tt
  run_stages-StopsFinal schemas i (call ∷ calls) s h =
      elim (Result-cases (run_stage e schemas i call s)) [
        | inl (r, stopped) ↦
            rw (stopped, run_stages) (rw stopped at (run_stage-StopsFinal schemas i call s h.0))
        | inr (t, done) ↦ rw (done, run_stages) (run_stages-StopsFinal schemas (suc i) calls t h.1)
      ]

  collapse-IsFinal :
      (m : Result RunResult Progress)
      → StopsFinal m
      → IsFinal (collapse e (m >>= λ s. ok (finish e s)))
  collapse-IsFinal (ok s) h = finish-IsFinal s
  collapse-IsFinal (err r) h = h

  run_plan-IsFinal :
      (p : Pipeline) (calls : List CommandCall)
      → All (IsRegistered e) calls
      → IsFinal (run_plan e p calls)
  unfolding run_plan
  run_plan-IsFinal p calls h = elim (Result-cases (compile_schemas e [] calls)) [
    | inl (x, bad) ↦ rw (bad, run_plan) (fail-IsFinal _ _ _)
    | inr (schemas, good) ↦
        rw (good, run_plan)
          (collapse-IsFinal (run_stages e schemas 0 calls _)
            (run_stages-StopsFinal schemas 0 calls _ h))
  ]

  check_plan-IsFinal : (p : Pipeline) (calls : List CommandCall) → IsFinal (check_plan e p calls)
  unfolding check_plan
  check_plan-IsFinal p [] = fail-IsFinal _ _ _
  check_plan-IsFinal p (call ∷ calls) = elim (Option-cases (check_calls e 0 (call ∷ calls))) [
    | inr (x, bad) ↦ rw (bad, check_plan) (fail-IsFinal _ _ _)
    | inl good ↦
        rw (good, check_plan)
          (run_plan-IsFinal p (call ∷ calls) (check_calls-IsRegistered e 0 (call ∷ calls) good))
  ]

  -- With a store, whatever the planner, the commands and the runners are: `Run` ends with the
  -- status "completed" and no error, or with the status "failed" and the error that the pipeline
  -- records; it never ends "running"; and the last state handed to the store is the one returned.
  pub run-IsFinal :
      (id : Text) (now : ℕ) (meta : EmailMeta) (body : Bytes) → IsFinal (run e id now meta body)
  unfolding run
  run-IsFinal id now meta body =
      let b = effective_body body in
      elim (Result-cases (e.planner meta b)) [
        | inl (x, bad) ↦ rw (bad, run) (fail-IsFinal _ _ _)
        | inr (calls, good) ↦ rw (good, run) (check_plan-IsFinal _ calls)
      ]
