-- ===== src/Daemon/Pipeline/Plan.antt =====
-- internal/daemon/planner.go and schema.go, and what `Executor.Run` checks before the first stage.
use beadle.Prelude.{
  ℕ, suc, Bool, true, List, [], ◌∷◌, ◌++◌, Option, none, some, Result, ok, err, if◌then◌else◌,
}
use beadle.Text.{Text, codes, equal, member, lookup}
use beadle.Daemon.Command.{OutputSchema, nil, str, object, other}
use beadle.Daemon.Call.{validate_args}
use beadle.Daemon.Pipeline.Types.{
  CommandCall, PipelineError, nil_command, unknown_command, bad_args, schema_failed, Executor,
  Schema, text, compiled,
}

-- `RulePlanner.Plan`: the calls of the first rule whose compiled pattern matches.
unfoldable pub rule_plan :
    List ((Text → Bool) × List CommandCall) → Text → Text → Result Text (List CommandCall)
rule_plan [] subject body = err (codes "no rule matches this instruction")
rule_plan ((matches, calls) ∷ rules) subject body =
    if matches (subject ++ b'\n' ∷ body) then ok calls else rule_plan rules subject body

-- `unionWriteSets`: the entries of the commands called, each once.
unfoldable pub add_new : List Text → List Text → List Text
add_new seen [] = seen
add_new seen (w ∷ ws) = add_new (if member w seen then seen else seen ++ w ∷ []) ws

-- `schemas[name]`: a name that is missing has the nil schema.
abbrev pub schema_of : Text → List (Text × Schema) → Schema
schema_of name schemas = elim (lookup name schemas) [ none ↦ text | some s ↦ s ]

module _ (e : Executor) where
  -- `CompileSchema`.
  unfoldable pub compile_schema : OutputSchema → Option Schema
  compile_schema nil = none
  compile_schema (str s) = if equal s (codes "text") then some text else none
  compile_schema (object o) = if e.compiles o then some (compiled o) else none
  compile_schema other = none

  -- `ValidateOutput` finds nothing wrong.
  unfoldable pub valid_output : Schema → Text → Bool
  valid_output text output = true
  valid_output (compiled o) output = e.accepts o output

  unfoldable pub union_write_sets : List Text → List CommandCall → List Text
  unfolding add_new
  union_write_sets seen [] = seen
  union_write_sets seen (call ∷ calls) =
      union_write_sets
        (elim (lookup call.command e.commands) [
          | none ↦ seen
          | some cmd ↦ add_new seen cmd.write_set
        ])
        calls

  -- The loop that validates all calls before any of them runs.
  unfoldable pub check_calls : ℕ → List CommandCall → Option PipelineError
  check_calls i [] = none
  check_calls i (call ∷ calls) = elim (lookup call.command e.commands) [
    | none ↦ some (unknown_command i)
    | some cmd ↦ elim (validate_args cmd call.args) [
      | some x ↦ some (bad_args i x)
      | none ↦ check_calls (suc i) calls
    ]
  ]

  -- The map of compiled schemas, or the name of the command whose schema does not compile.
  unfoldable pub compile_schemas :
      List (Text × Schema) → List CommandCall → Result PipelineError (List (Text × Schema))
  compile_schemas schemas [] = ok schemas
  compile_schemas schemas (call ∷ calls) = elim (lookup call.command e.commands) [
    | none ↦ err nil_command
    | some cmd ↦ elim (compile_schema cmd.output_schema) [
      | none ↦ err (schema_failed call.command)
      | some schema ↦ compile_schemas ((call.command, schema) ∷ schemas) calls
    ]
  ]
