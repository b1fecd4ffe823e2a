-- ===== src/Daemon/Pipeline/Types.antt =====
-- The data of a pipeline run (internal/daemon/pipeline.go). A run returns the pipeline and its error,
-- and the list of what it did on the way, in order.
use beadle.Prelude.{ℕ, Bool, List, Option, Result}
use beadle.Text.{Text, codes, equal}
use beadle.Utf8.{Bytes}
use beadle.Email.Address.{ParseAddress}
use beadle.Daemon.Command.{Command}
use beadle.Daemon.Call.{Args, ArgError}

pub record EmailMeta : Type 0 where
  pub message_id : Text
  pub from : Text
  pub subject : Text

pub record CommandCall : Type 0 where
  pub command : Text
  pub args : Args

pub data Status : Type 0 where
  running completed failed : Status

-- The errors of `Executor.Run`; `nil_command` is the panic on a command that is not registered.
pub data PipelineError : Type 0 where
  plan_failed : Text → PipelineError
  empty_plan nil_command : PipelineError
  unknown_command : ℕ → PipelineError
  bad_args : ℕ → ArgError → PipelineError
  schema_failed : Text → PipelineError
  unknown_runner : ℕ → PipelineError
  stage_failed : ℕ → Text → PipelineError
  bad_output : ℕ → Bool → PipelineError
  reply_args : ArgError → PipelineError
  reply_runner : PipelineError
  reply_failed : Text → PipelineError

pub record Pipeline : Type 0 where
  pub version : ℕ
  pub id : Text
  pub created_at : ℕ
  pub email : EmailMeta
  pub body : Text
  pub body_truncated : Bool
  pub body_sanitized : Bool
  pub commands : List CommandCall
  pub current : ℕ
  pub results : List Text
  pub status : Status
  pub error : Option PipelineError
  pub write_set : List Text

-- The `idx` that a runner is given; `failure_reply` is -1.
pub data StageIndex : Type 0 where
  stage : ℕ → StageIndex
  failure_reply : StageIndex

-- What a run does: a state handed to the store, and a runner called with a pipe value.
pub data Event : Type 0 where
  saved : Pipeline → Event
  ran : StageIndex → Text → Text → Bool → Event

abbrev pub Runner : Type 0
Runner = Pipeline → StageIndex → Command → CommandCall → Text → Bool → Result Text (Text × Bool)

-- The executor, and what it takes from the libraries: `mail.ParseAddress`, the JSON text of a map,
-- and the JSON schema compiler and validator.
pub record Executor : Type 0 where
  pub planner : EmailMeta → Bytes → Result Text (List CommandCall)
  pub commands : List (Text × Command)
  pub runners : List (Text × Runner)
  pub has_store : Bool
  pub parse_address : ParseAddress
  pub json_object : List (Text × Text) → Text
  pub compiles : Text → Bool
  pub accepts : Text → Text → Bool

-- A compiled schema; `text` is the nil schema.
pub data Schema : Type 0 where
  text : Schema
  compiled : Text → Schema

-- The state of a loop over the stages.
pub record Progress : Type 0 where
  pub pipeline : Pipeline
  pub pipe : Text
  pub truncated : Bool
  pub events : List Event

-- What `Run` returns, and what it has done.
pub record RunResult : Type 0 where
  pub pipeline : Pipeline
  pub error : Option PipelineError
  pub events : List Event

abbrev pub is_process : Command → Bool
is_process cmd = equal cmd.mode (codes "process")
