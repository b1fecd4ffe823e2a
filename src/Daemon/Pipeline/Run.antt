-- ===== src/Daemon/Pipeline/Run.antt =====
-- internal/daemon/pipeline.go: `Executor.Run` around the loop over the stages.
use beadle.Prelude.{
  ℕ, Bool, true, false, ◌&&◌, List, [], ◌∷◌, ◌++◌, none, some, Result, ok, err, ◌>>=◌,
  if◌then◌else◌, length,
}
use beadle.Text.{Text, codes, is_space, lookup}
use beadle.Utf8.{Bytes, Decoded, rune, bad, decode}
use beadle.Daemon.Call.{validate_args}
use beadle.Daemon.Sanitize.{sanitize_text, cap_runes}
use beadle.Daemon.Pipeline.Types.{
  EmailMeta, CommandCall, running, completed, plan_failed, empty_plan, reply_args, reply_runner,
  reply_failed, Pipeline, stage, Event, ran, Executor, Progress, RunResult,
}
use beadle.Daemon.Pipeline.Effects.{truncation_notice, reply_call, save, fail}
use beadle.Daemon.Pipeline.Plan.{union_write_sets, check_calls, compile_schemas}
use beadle.Daemon.Pipeline.Stages.{run_stages}

-- `maxContractFieldRunes`, in mission.go.
abbrev pub max_contract_field_runes : ℕ
max_contract_field_runes = 500

-- `strings.TrimSpace(body) == ""`.
unfoldable pub is_blank : List Decoded → Bool
is_blank [] = true
is_blank (rune c ∷ us) = is_space c && is_blank us
is_blank (bad b ∷ us) = false

-- The pipeline that `Run` creates, and the body that it plans on.
abbrev pub effective_body : Bytes → Bytes
effective_body body = if is_blank (decode body) then [] else body

unfoldable pub create : Text → ℕ → EmailMeta → Bytes → Pipeline
create id now meta body =
    let (clean, sanitized) = sanitize_text body in
    let (capped, truncated) = cap_runes clean max_contract_field_runes in
    record {
      version = 1;
      id = id;
      created_at = now;
      email = meta;
      body = capped;
      body_truncated = truncated;
      body_sanitized = sanitized;
      commands = [];
      current = 0;
      results = [];
      status = running;
      error = none;
      write_set = [];
    }

module _ (e : Executor) where
  -- The pipe, as JSON, that the first stage reads.
  abbrev pub first_pipe : EmailMeta → Text
  first_pipe meta = e.json_object (
      (codes "from", meta.from)
      ∷ (codes "message_id", meta.message_id)
      ∷ (codes "subject", meta.subject)
      ∷ (codes "trust_level", codes "trusted")
      ∷ [])

  abbrev pub reply_pipe : Progress → Text
  reply_pipe s = if s.truncated then s.pipe ++ truncation_notice else s.pipe

  -- The automatic reply: the pipeline with its result or its error, and the call made.
  unfoldable pub auto_reply : Progress → Pipeline × List Event
  auto_reply s =
      let p = s.pipeline in
      elim (lookup (codes "reply") e.commands) [
        | none ↦ (p, [])
        | some cmd ↦ elim (validate_args cmd (reply_call e p).args) [
          | some x ↦ (record p { error = some (reply_args x) }, [])
          | none ↦ elim (lookup cmd.runner e.runners) [
            | none ↦ (record p { error = some reply_runner }, [])
            | some runner ↦
                let i = stage (length p.commands) in
                let call = ran i (codes "reply") (reply_pipe s) s.truncated ∷ [] in
                elim (runner p i cmd (reply_call e p) (reply_pipe s) s.truncated) [
                  | err x ↦ (record p { error = some (reply_failed x) }, call)
                  | ok (result, cut) ↦ (record p { results = p.results ++ result ∷ [] }, call)
                ]
          ]
        ]
      ]

  unfoldable pub finish : Progress → RunResult
  unfolding save
  finish s =
      let (p, calls) = auto_reply s in
      let q = record p { status = completed } in
      record { pipeline = q; error = none; events = s.events ++ (calls ++ save e q) }

  abbrev pub collapse : Result RunResult RunResult → RunResult
  collapse (ok r) = r
  collapse (err r) = r

  -- The run of a plan that is not empty and whose calls are all valid.
  unfoldable pub run_plan : Pipeline → List CommandCall → RunResult
  unfolding save
  run_plan p calls =
      let q = record p {
        commands = calls;
        write_set = union_write_sets e [] calls;
        results = [];
      } in
      elim (compile_schemas e [] calls) [
        | err x ↦ fail e q x (save e p)
        | ok schemas ↦ collapse (
            run_stages e schemas 0 calls (record {
              pipeline = q;
              pipe = first_pipe q.email;
              truncated = false;
              events = save e p;
            })
            >>= λ s. ok (finish s))
      ]

  unfoldable pub check_plan : Pipeline → List CommandCall → RunResult
  unfolding save
  check_plan p [] = fail e p empty_plan (save e p)
  check_plan p (call ∷ calls) = elim (check_calls e 0 (call ∷ calls)) [
    | some x ↦ fail e p x (save e p)
    | none ↦ run_plan p (call ∷ calls)
  ]

  -- `Executor.Run`, with the identifier and the time that it asks for.
  unfoldable pub run : Text → ℕ → EmailMeta → Bytes → RunResult
  unfolding save
  run id now meta given =
      let body = effective_body given in
      let p = create id now meta body in
      elim (e.planner meta body) [
        | err x ↦ fail e p (plan_failed x) (save e p)
        | ok calls ↦ check_plan p calls
      ]
