-- ===== src/Daemon/Pipeline/Loop.antt =====
-- The order of the stages in the loop of `Executor.Run` (internal/daemon/pipeline.go).
use mathlib.Core.List.{append-nil, append_assoc}
use beadle.Prelude.{
  ℕ, zero, suc, ◌+◌, ◌≤◌, ◌≡◌, ◌≢◌, refl, ◌∙◌, sym, ap, inl, inr, Bool, not, ◌&&◌, List, [], ◌∷◌,
  ◌++◌, none, some, Result, ok, err, arith, All, Option-cases, Bool-cases, Result-cases, length,
  length-append,
}
use beadle.Text.{Text, lookup}
use beadle.Daemon.Command.{Command}
use beadle.Daemon.Pipeline.Types.{
  CommandCall, PipelineError, Pipeline, Event, saved, ran, Runner, Executor, Schema, Progress,
  RunResult, stage, failure_reply, is_process,
}
use beadle.Daemon.Pipeline.Effects.{save, fire_else, fail}
use beadle.Daemon.Pipeline.Plan.{valid_output}
use beadle.Daemon.Pipeline.Stages.{end_stage, call_runner, run_stage, run_stages}
use beadle.Daemon.Pipeline.Outcome.{IsRegistered}

-- The stages whose runners were called, in order; the reply to a failure is no stage.
abbrev pub stages_of : List Event → List ℕ
stages_of [] = []
stages_of (saved p ∷ es) = stages_of es
stages_of (ran (stage i) c t b ∷ es) = i ∷ stages_of es
stages_of (ran failure_reply c t b ∷ es) = stages_of es

-- 0, 1, …, n - 1.
abbrev pub count_up : ℕ → List ℕ
count_up zero = []
count_up (suc n) = count_up n ++ n ∷ []

pub stages_of-append : (xs ys : List Event) → stages_of (xs ++ ys) ≡ stages_of xs ++ stages_of ys
stages_of-append [] ys = refl
stages_of-append (saved p ∷ xs) ys = stages_of-append xs ys
stages_of-append (ran (stage i) c t b ∷ xs) ys = ap (◌∷◌ i) (stages_of-append xs ys)
stages_of-append (ran failure_reply c t b ∷ xs) ys = stages_of-append xs ys

module _ (e : Executor) where
  pub stages_of-save : (p : Pipeline) → stages_of (save e p) ≡ []
  unfolding save
  stages_of-save p = ground arith

  pub stages_of-fire_else : (p : Pipeline) → stages_of (fire_else e p) ≡ []
  unfolding fire_else
  stages_of-fire_else p = ground arith

  pub stages_of-fail :
      (p : Pipeline) (x : PipelineError) (es : List Event)
      → stages_of (fail e p x es).events ≡ stages_of es
  unfolding fail
  stages_of-fail p x es = rw (stages_of-append es) (
      rw (stages_of-append (save e _))
        (rw (stages_of-save, stages_of-fire_else) (append-nil (stages_of es))))

  -- The text is what the runner of the call's command has returned for this stage.
  pub record IsAnswerOf (i : ℕ) (call : CommandCall) (answer : Text) : Type 0 where
    pub cmd : Command
    pub runner : Runner
    pub p : Pipeline
    pub pipe : Text
    pub cut : Bool
    pub cut_after : Bool
    pub registered : lookup call.command e.commands ≡ some cmd
    pub present : lookup cmd.runner e.runners ≡ some runner
    pub returned : runner p (stage i) cmd call pipe cut ≡ ok (answer, cut_after)

  -- The texts are the answers to the calls, in order, from a stage on.
  pub data AreAnswers : ℕ → List CommandCall → List Text → Type 0 where
    no_calls : {i : ℕ} → AreAnswers i [] []
    next_call :
        {i : ℕ} {call : CommandCall} {calls : List CommandCall} {answer : Text}
        {answers : List Text}
        → IsAnswerOf i call answer
        → AreAnswers (suc i) calls answers
        → AreAnswers i (call ∷ calls) (answer ∷ answers)

  AreAnswers-snoc :
      (i : ℕ) {calls : List CommandCall} {answers : List Text} {call : CommandCall} {answer : Text}
      → AreAnswers i calls answers
      → IsAnswerOf (i + length calls) call answer
      → AreAnswers i (calls ++ call ∷ []) (answers ++ answer ∷ [])
  AreAnswers-snoc i no_calls a = let j : i + 0 ≡ i = omega arith in next_call (rw j at a) no_calls
  AreAnswers-snoc i {calls = call' ∷ calls} (next_call b bs) a =
      let j : i + suc (length calls) ≡ suc i + length calls = omega arith in
      next_call b (AreAnswers-snoc (suc i) bs (rw j at a))

  -- The calls but for the last ones have been answered.
  pub record Answered (calls rest : List CommandCall) (i : ℕ) (answers : List Text) : Type 0 where
    pub before : List CommandCall
    pub so_far : calls ≡ before ++ rest
    pub counted : length before ≡ i
    pub are_answers : AreAnswers 0 before answers

  Answered-snoc :
      (calls rest : List CommandCall) (i : ℕ) (answers : List Text) (call : CommandCall)
      (answer : Text)
      → Answered calls (call ∷ rest) i answers
      → IsAnswerOf i call answer
      → Answered calls rest (suc i) (answers ++ answer ∷ [])
  Answered-snoc calls rest i answers call answer d a =
      let j : i ≡ 0 + length d.before = omega (arith, d.counted) in
      record {
        before = d.before ++ call ∷ [];
        so_far = d.so_far ∙ sym (append_assoc d.before (call ∷ []) rest);
        counted = omega (arith, d.counted, length-append d.before (call ∷ []));
        are_answers = AreAnswers-snoc 0 d.are_answers (rw j at a);
      }

  -- What the loop keeps: `i` stages have run, each with its result.
  pub record Inv (calls rest : List CommandCall) (i : ℕ) (s : Progress) : Type 0 where
    pub in_order : stages_of s.events ≡ count_up i
    pub planned : s.pipeline.commands ≡ calls
    pub answered : Answered calls rest i s.pipeline.results

  -- The run has stopped with an error, having called the first stages only.
  pub record Stopped (n : ℕ) (r : RunResult) : Type 0 where
    pub called : ℕ
    pub within : called ≤ n
    pub in_order : stages_of r.events ≡ count_up called
    pub with_error : r.error ≢ none

  abbrev pub Follows : List CommandCall → List CommandCall → ℕ → Result RunResult Progress → Type 0
  Follows calls rest n (ok s) = Inv calls rest n s
  Follows calls rest n (err r) = Stopped n r

  pub fail-Stopped :
      (n k : ℕ) (p : Pipeline) (x : PipelineError) (es : List Event)
      → k ≤ n
      → stages_of es ≡ count_up k
      → Stopped n (fail e p x es)
  unfolding fail
  fail-Stopped n k p x es h order = record {
    called = k;
    within = h;
    in_order = stages_of-fail p x es ∙ order;
    with_error = λ eq. cc eq;
  }

  end_stage-Follows :
      (calls rest : List CommandCall) (i : ℕ) (call : CommandCall) (cmd : Command) (schema : Schema)
      (result : Text) (cut : Bool) (s : Progress)
      → stages_of s.events ≡ count_up (suc i)
      → s.pipeline.commands ≡ calls
      → Answered calls (call ∷ rest) i s.pipeline.results
      → IsAnswerOf i call result
      → Follows calls rest (suc i) (end_stage e i cmd schema result cut s)
  unfolding end_stage
  end_stage-Follows calls rest i call cmd schema result cut s order planned answered a =
      elim (Bool-cases (is_process cmd && not (valid_output e schema result))) [
        | inl wrong ↦
            rw (wrong, end_stage) (fail-Stopped (suc i) (suc i) _ _ s.events (omega arith) order)
        | inr right ↦
            rw (right, end_stage)
              (record {
                in_order =
                    stages_of-append s.events (save e _)
                    ∙ rw stages_of-save (append-nil (stages_of s.events) ∙ order);
                planned = planned;
                answered = Answered-snoc calls rest i s.pipeline.results call result answered a;
              })
      ]

  call_runner-Follows :
      (calls rest : List CommandCall) (i : ℕ) (call : CommandCall) (cmd : Command) (schema : Schema)
      (runner : Runner) (s : Progress)
      → lookup call.command e.commands ≡ some cmd
      → lookup cmd.runner e.runners ≡ some runner
      → Inv calls (call ∷ rest) i s
      → Follows calls rest (suc i) (call_runner e i call cmd schema runner s)
  unfolding call_runner
  call_runner-Follows calls rest i call cmd schema runner s found present inv =
      let order =
        stages_of-append s.events (ran (stage i) call.command s.pipe s.truncated ∷ [])
        ∙ ap (λ l. l ++ i ∷ []) inv.in_order in
      elim (Result-cases (runner s.pipeline (stage i) cmd call s.pipe s.truncated)) [
        | inl (x, failing) ↦
            rw (failing, call_runner) (fail-Stopped (suc i) (suc i) _ _ _ (omega arith) order)
        | inr ((result, cut), done) ↦
            rw (done, call_runner)
              (end_stage-Follows calls rest i call cmd schema result cut _ order inv.planned
                inv.answered
                (record {
                  cmd = cmd;
                  runner = runner;
                  p = s.pipeline;
                  pipe = s.pipe;
                  cut = s.truncated;
                  cut_after = cut;
                  registered = found;
                  present = present;
                  returned = done;
                }))
      ]

  run_stage-Follows :
      (calls rest : List CommandCall) (schemas : List (Text × Schema)) (i : ℕ) (call : CommandCall)
      (s : Progress)
      → IsRegistered e call
      → Inv calls (call ∷ rest) i s
      → Follows calls rest (suc i) (run_stage e schemas i call s)
  unfolding run_stage
  run_stage-Follows calls rest schemas i call s (cmd, found, _) inv =
      let up : i ≤ suc i = omega arith in
      let order =
        stages_of-append s.events (save e (record (s.pipeline) { current = i }))
        ∙ rw stages_of-save (append-nil (stages_of s.events) ∙ inv.in_order) in
      elim (Option-cases (lookup cmd.runner e.runners)) [
        | inl missing ↦ rw (found, missing, run_stage) (fail-Stopped (suc i) i _ _ _ up order)
        | inr (runner, present) ↦
            rw (found, present, run_stage)
              (call_runner-Follows calls rest i call cmd _ runner _ found present
                (record { in_order = order; planned = inv.planned; answered = inv.answered }))
      ]

  Stopped-mono : (m n : ℕ) (r : RunResult) → m ≤ n → Stopped m r → Stopped n r
  Stopped-mono m n r h s = record {
    called = s.called;
    within = omega arith;
    in_order = s.in_order;
    with_error = s.with_error;
  }

  pub run_stages-Follows :
      (calls : List CommandCall) (schemas : List (Text × Schema)) (i n : ℕ)
      (rest : List CommandCall) (s : Progress)
      → All (IsRegistered e) rest
      → n ≡ i + length rest
      → Inv calls rest i s
      → Follows calls [] n (run_stages e schemas i rest s)
  unfolding run_stages
  run_stages-Follows calls schemas i n [] s h eq inv =
      let eq' : i ≡ n = omega arith in rw eq' at inv
  run_stages-Follows calls schemas i n (call ∷ rest) s h eq inv =
      elim (Result-cases (run_stage e schemas i call s)) [
        | inl (r, stopped) ↦
            rw (stopped, run_stages)
              (Stopped-mono (suc i) n r (omega arith)
                (rw stopped at (run_stage-Follows calls rest schemas i call s h.0 inv)))
        | inr (t, done) ↦
            rw (done, run_stages)
              (run_stages-Follows calls schemas (suc i) n rest t h.1 (omega arith)
                (rw done at (run_stage-Follows calls rest schemas i call s h.0 inv)))
      ]
