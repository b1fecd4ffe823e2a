-- ===== src/Daemon/Pipeline/Order.antt =====
-- Which runner calls a run of `Executor.Run` (internal/daemon/pipeline.go) makes, and in what order.
use mathlib.Core.List.{append-nil}
use beadle.Prelude.{
  ℕ, suc, ◌+◌, ◌≤◌, sym, ◌≡◌, ◌≢◌, ◌⊎◌, refl, ◌∙◌, inl, inr, List, [], ◌∷◌, ◌++◌, none, Result, ok,
  err, ◌>>=◌, arith, All, Option-cases, Result-cases, length,
}
use beadle.Text.{Text, codes, lookup}
use beadle.Daemon.Call.{validate_args}
use beadle.Utf8.{Bytes}
use beadle.Daemon.Pipeline.Types.{
  EmailMeta, CommandCall, PipelineError, Pipeline, Event, Executor, Progress, RunResult, stage,
}
use beadle.Daemon.Pipeline.Effects.{reply_call, save, fail}
use beadle.Daemon.Pipeline.Plan.{check_calls, compile_schemas}
use beadle.Daemon.Pipeline.Stages.{run_stages}
use beadle.Daemon.Pipeline.Outcome.{IsRegistered, check_calls-IsRegistered}
use beadle.Daemon.Pipeline.Run.{
  auto_reply, reply_pipe, finish, collapse, run_plan, check_plan, run, effective_body,
}
use beadle.Daemon.Pipeline.Loop.{
  stages_of, count_up, AreAnswers, no_calls, Answered, stages_of-append, stages_of-save,
  stages_of-fail, Inv, Stopped, Follows, fail-Stopped, run_stages-Follows,
}

module _ (e : Executor) where
  -- Stages 0, 1, … have run, each once, and after the last of the plan at most the automatic reply;
  -- the run ended with an error, or all of them have run, and the results are what the runner of each
  -- has returned, in order, and at most that of the reply behind them.
  pub record IsOrdered (calls : List CommandCall) (r : RunResult) : Type 0 where
    pub called : ℕ
    pub in_order : stages_of r.events ≡ count_up called
    pub within : called ≤ suc (length calls)
    pub complete :
        (r.error ≢ none)
        ⊎ ((length calls ≤ called)
            × (answers : List Text) × (reply : List Text) × (r.pipeline.results ≡ answers ++ reply)
            × AreAnswers e 0 calls answers
            × (length reply + length calls ≤ called))

  Stopped-IsOrdered :
      (calls : List CommandCall) (r : RunResult) → Stopped e (length calls) r → IsOrdered calls r
  Stopped-IsOrdered calls r s = record {
    called = s.called;
    in_order = s.in_order;
    within = omega (arith, s.within);
    complete = inl s.with_error;
  }

  -- The automatic reply is one more stage with at most one more result, or nothing.
  abbrev Replied : Progress → Pipeline × List Event → Type 0
  Replied s r =
      ((stages_of r.1 ≡ []) × (r.0.results ≡ s.pipeline.results))
      ⊎ ((stages_of r.1 ≡ length s.pipeline.commands ∷ [])
          × (reply : List Text) × (r.0.results ≡ s.pipeline.results ++ reply)
          × (length reply ≤ 1))

  auto_reply-Replied : (s : Progress) → Replied s (auto_reply e s)
  unfolding auto_reply
  auto_reply-Replied s = elim (Option-cases (lookup (codes "reply") e.commands)) [
    | inl f ↦ rw (f, auto_reply) (inl (refl, refl))
    | inr (cmd, f) ↦ elim (Option-cases (validate_args cmd (reply_call e s.pipeline).args)) [
      | inr (x, g) ↦ rw (f, g, auto_reply) (inl (refl, refl))
      | inl g ↦ elim (Option-cases (lookup cmd.runner e.runners)) [
        | inl k ↦ rw (f, g, k, auto_reply) (inl (refl, refl))
        | inr (runner, k) ↦
            elim (Result-cases (
              runner s.pipeline (stage (length s.pipeline.commands)) cmd (reply_call e s.pipeline)
                (reply_pipe e s) s.truncated)) [
                  | inl (x, m) ↦
                      rw (f, g, k, auto_reply)
                        (rw m (inr (refl, [], sym (append-nil s.pipeline.results), omega arith)))
                  | inr ((result, cut), m) ↦
                      rw (f, g, k, auto_reply) (rw m (inr (refl, result ∷ [], refl, omega arith)))
                ]
      ]
    ]
  ]

  finish_events :
      (s : Progress)
      → stages_of (finish e s).events ≡ stages_of s.events ++ stages_of (auto_reply e s).1
  unfolding finish
  finish_events s =
      rw (stages_of-append s.events)
        (rw (stages_of-append (auto_reply e s).1) (rw stages_of-save (rw append-nil)))

  finish_results : (s : Progress) → (finish e s).pipeline.results ≡ (auto_reply e s).0.results
  unfolding finish
  finish_results s = refl

  -- At the end of the loop every call has been answered.
  all_answers :
      (calls : List CommandCall) (answers : List Text)
      → Answered e calls [] (length calls) answers
      → AreAnswers e 0 calls answers
  all_answers calls answers d =
      let same : d.before ≡ calls = sym (d.so_far ∙ append-nil d.before) in rw same at d.are_answers

  finish-IsOrdered :
      (calls : List CommandCall) (s : Progress)
      → Inv e calls [] (length calls) s
      → IsOrdered calls (finish e s)
  finish-IsOrdered calls s inv =
      let answers = all_answers calls s.pipeline.results inv.answered in
      elim (auto_reply-Replied s) [
        | inl silent ↦ record {
          called = length calls;
          in_order = finish_events s ∙ rw silent.0 (append-nil (stages_of s.events) ∙ inv.in_order);
          within = omega arith;
          complete = inr (
            omega arith,
            s.pipeline.results,
            [],
            finish_results s ∙ silent.1 ∙ sym (append-nil s.pipeline.results),
            answers,
            omega arith,
          );
        }
        | inr (spoken, reply, same, short) ↦ record {
          called = suc (length calls);
          in_order = finish_events s ∙ rw (spoken, inv.planned, inv.in_order);
          within = omega arith;
          complete = inr (
            omega arith,
            s.pipeline.results,
            reply,
            finish_results s ∙ same,
            answers,
            omega (arith, short),
          );
        }
      ]

  collapse-IsOrdered :
      (calls : List CommandCall) (m : Result RunResult Progress)
      → Follows e calls [] (length calls) m
      → IsOrdered calls (collapse e (m >>= λ s. ok (finish e s)))
  collapse-IsOrdered calls (ok s) h = finish-IsOrdered calls s h
  collapse-IsOrdered calls (err r) h = Stopped-IsOrdered calls r h

  fail-IsOrdered :
      (calls : List CommandCall) (p q : Pipeline) (x : PipelineError)
      → IsOrdered calls (fail e p x (save e q))
  fail-IsOrdered calls p q x =
      Stopped-IsOrdered calls _
        (fail-Stopped e (length calls) 0 p x (save e q) (omega arith) (stages_of-save e q))

  run_plan-IsOrdered :
      (p : Pipeline) (calls : List CommandCall)
      → All (IsRegistered e) calls
      → IsOrdered calls (run_plan e p calls)
  unfolding run_plan
  run_plan-IsOrdered p calls h = elim (Result-cases (compile_schemas e [] calls)) [
    | inl (x, bad) ↦ rw (bad, run_plan) (fail-IsOrdered calls _ p x)
    | inr (schemas, good) ↦
        rw (good, run_plan)
          (collapse-IsOrdered calls (run_stages e schemas 0 calls _) (
            run_stages-Follows e calls schemas 0 (length calls) calls _ h (omega arith) (record {
              in_order = stages_of-save e p;
              planned = refl;
              answered = record {
                before = [];
                so_far = refl;
                counted = refl;
                are_answers = no_calls;
              };
            })))
  ]

  check_plan-IsOrdered :
      (p : Pipeline) (calls : List CommandCall) → IsOrdered calls (check_plan e p calls)
  unfolding check_plan
  check_plan-IsOrdered p [] = fail-IsOrdered [] p p _
  check_plan-IsOrdered p (call ∷ calls) = elim (Option-cases (check_calls e 0 (call ∷ calls))) [
    | inr (x, bad) ↦ rw (bad, check_plan) (fail-IsOrdered _ p p x)
    | inl good ↦
        rw (good, check_plan)
          (run_plan-IsOrdered p (call ∷ calls) (check_calls-IsRegistered e 0 (call ∷ calls) good))
  ]

  -- No stage runs unless every call of the plan is for a registered command that accepts its
  -- arguments.
  check_plan-validated :
      (p : Pipeline) (calls : List CommandCall)
      → (stages_of (check_plan e p calls).events ≡ []) ⊎ All (IsRegistered e) calls
  unfolding check_plan
  check_plan-validated p [] = inr tt
  check_plan-validated p (call ∷ calls) = elim (Option-cases (check_calls e 0 (call ∷ calls))) [
    | inr (x, bad) ↦
        inl (rw (bad, check_plan) (stages_of-fail e p x (save e p) ∙ stages_of-save e p))
    | inl good ↦ inr (check_calls-IsRegistered e 0 (call ∷ calls) good)
  ]

  module _ (id : Text) (now : ℕ) (meta : EmailMeta) (body : Bytes) {calls : List CommandCall}
      (planned : e.planner meta (effective_body body) ≡ ok calls) where
    -- When the planner returns a list of calls, `Run` calls the runners of the stages 0, 1, … in
    -- order and each at most once, then at most that of the automatic reply; if it returns no error,
    -- every stage has run, and the results are what the runner of each call's command has returned
    -- for its stage, in order, and behind them at most one of the reply.
    pub run-IsOrdered : IsOrdered calls (run e id now meta body)
    unfolding run
    run-IsOrdered = rw (planned, run) (check_plan-IsOrdered _ calls)

    -- When the planner returns a list of calls, `Run` calls the runner of no stage unless every call
    -- of the list is for a registered command that accepts the call's arguments.
    pub run_validated :
        (stages_of (run e id now meta body).events ≡ []) ⊎ All (IsRegistered e) calls
    unfolding run
    run_validated = rw (planned, run) (check_plan-validated _ calls)
