-- ===== src/Daemon/Pipeline/Effects.antt =====
-- internal/daemon/pipeline.go: what a run does besides computing, and the end of its failing paths.
use beadle.Prelude.{false, List, [], ◌∷◌, ◌++◌, none, some, if◌then◌else◌}
use beadle.Text.{Text, codes, lookup}
use beadle.Email.Address.{extract_email_address}
use beadle.Daemon.Call.{string, validate_args}
use beadle.Daemon.Pipeline.Types.{
  CommandCall, failed, PipelineError, Pipeline, failure_reply, Event, saved, ran, Executor,
  RunResult,
}

abbrev pub truncation_notice : Text
truncation_notice = codes "\n[output truncated at 1MB]\n"

module _ (e : Executor) where
  -- `Executor.save`; an error of the store is only logged.
  unfoldable pub save : Pipeline → List Event
  save p = if e.has_store then saved p ∷ [] else []

  abbrev pub reply_call : Pipeline → CommandCall
  reply_call p = record {
    command = codes "reply";
    args = (codes "to", string (extract_email_address e.parse_address p.email.from)) ∷ [];
  }

  abbrev pub else_pipe : Pipeline → Text
  else_pipe p = codes "Your request could not be completed. Reference: pipeline-" ++ p.id

  -- `fireElse`: the one call that it may make; what the runner returns is only logged.
  unfoldable pub fire_else : Pipeline → List Event
  fire_else p = elim (lookup (codes "reply") e.commands) [
    | none ↦ []
    | some cmd ↦ elim (validate_args cmd (reply_call p).args) [
      | some x ↦ []
      | none ↦ elim (lookup cmd.runner e.runners) [
        | none ↦ []
        | some runner ↦ ran failure_reply (codes "reply") (else_pipe p) false ∷ []
      ]
    ]
  ]

  -- The end of every failing path of `Run`.
  unfoldable pub fail : Pipeline → PipelineError → List Event → RunResult
  unfolding save
  fail p x events =
      let q = record p { status = failed; error = some x } in
      record { pipeline = q; error = some x; events = events ++ (save q ++ fire_else q) }
