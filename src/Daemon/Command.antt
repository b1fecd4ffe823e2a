-- ===== src/Daemon/Command.antt =====
-- internal/daemon/command.go: a recipe and its validation.
pub mod Parts
pub mod WellFormed
use beadle.Prelude.{
  ℕ, zero, suc, Bool, true, false, not, ◌&&◌, ◌||◌, List, [], ◌∷◌, Option, none, some,
  if◌then◌else◌, ltb, leb, ◌==◌, any, is_nil,
}
use beadle.Prelude.Int.{ℤ, pos, negsuc, is_positive, is_below}
use beadle.Text.{Text, codes, equal, byte_len, member, lookup}

pub record CommandArg : Type 0 where
  pub name : Text
  pub type : Text
  pub values : List Text
  pub max_length : ℤ
  pub required : Bool
  pub default : Text
  pub position : ℤ

pub record Step : Type 0 where
  pub binary : Text
  pub fixed_args : List Text
  pub stdin : Text

-- The `any` of `OutputSchema`, by its dynamic type; an object is its JSON text.
pub data OutputSchema : Type 0 where
  nil : OutputSchema
  str : Text → OutputSchema
  object : Text → OutputSchema
  other : OutputSchema

pub record Command : Type 0 where
  pub name : Text
  pub description : Text
  pub signature : Text
  pub runner : Text
  pub mode : Text
  pub args : List CommandArg
  pub output_schema : OutputSchema
  pub binary : Text
  pub fixed_args : List Text
  pub steps : List Step
  pub write_set : List Text
  pub rounds : ℤ
  pub reflection_after_each : Bool
  pub timeout : Text
  pub prompt : Text
  pub tools : List Text
  pub mcp_servers : List Text
  pub env_vars : List Text

pub data CommandError : Type 0 where
  missing_name bad_runner bad_mode : CommandError
  claude_prompt claude_rounds claude_binary claude_steps claude_fixed_args : CommandError
  cli_nothing cli_both cli_tools : CommandError
  bad_tool : Text → CommandError
  missing_schema bad_schema bad_timeout : CommandError
  arg_without_name : ℕ → CommandError
  bad_arg_name bad_arg_type enum_without_values : Text → CommandError
  duplicate_position : Text → Text → CommandError
  step_without_binary bad_stdin : ℕ → CommandError

-- Early returns in a row: the first error.
abbrev pub first : Option CommandError → Option CommandError → Option CommandError
first none rest = rest
first (some e) rest = some e

abbrev pub reject_if : Bool → CommandError → Option CommandError
reject_if test e = if test then some e else none

-- `validArgTypes`.
abbrev pub valid_arg_types : List Text
valid_arg_types = codes "string" ∷ codes "enum" ∷ codes "int" ∷ codes "bool" ∷ []

-- `validToolNames`.
abbrev pub valid_tool_names : List Text
valid_tool_names =
    codes "Bash"
    ∷ codes "Read"
    ∷ codes "Edit"
    ∷ codes "Write"
    ∷ codes "Glob"
    ∷ codes "Grep"
    ∷ codes "Agent"
    ∷ codes "Task"
    ∷ codes "WebFetch"
    ∷ codes "WebSearch"
    ∷ codes "NotebookEdit"
    ∷ codes "TodoWrite"
    ∷ codes "BashOutput"
    ∷ codes "KillShell"
    ∷ codes "ExitPlanMode"
    ∷ []

-- `validArgName`: one or more of the characters of `[A-Za-z0-9_.-]`.
unfoldable pub is_arg_char : ℕ → Bool
is_arg_char c =
    (leb b'A' c && leb c b'Z')
    || (leb b'a' c && leb c b'z')
    || (leb b'0' c && leb c b'9')
    || c == b'_'
    || c == b'.'
    || c == b'-'

unfoldable pub all_arg_chars : Text → Bool
all_arg_chars [] = true
all_arg_chars (c ∷ s) = is_arg_char c && all_arg_chars s

unfoldable pub valid_arg_name : Text → Bool
valid_arg_name s = not (is_nil s) && all_arg_chars s

-- The `switch cmd.Runner` of `ValidateCommand`.
unfoldable pub check_runner : Command → Option CommandError
check_runner c =
    if equal c.runner (codes "claude")
    then first (reject_if (is_nil c.prompt) claude_prompt) (
        first (reject_if (not (is_positive c.rounds)) claude_rounds) (
          first (reject_if (not (is_nil c.binary)) claude_binary) (
            first (reject_if (not (is_nil c.steps)) claude_steps)
              (reject_if (not (is_nil c.fixed_args)) claude_fixed_args))))
    else if equal c.runner (codes "cli")
    then first (reject_if (is_nil c.binary && is_nil c.steps) cli_nothing) (
        first (reject_if (not (is_nil c.binary) && not (is_nil c.steps)) cli_both)
          (reject_if (not (is_nil c.tools)) cli_tools))
    else none

unfoldable pub check_tools : List Text → Option CommandError
check_tools [] = none
check_tools (tool ∷ tools) =
    first (reject_if (not (member tool valid_tool_names)) (bad_tool tool)) (check_tools tools)

unfoldable pub check_schema : OutputSchema → Option CommandError
check_schema nil = some missing_schema
check_schema (str s) = reject_if (not (equal s (codes "text"))) bad_schema
check_schema (object o) = none
check_schema other = some bad_schema

-- `seenPos`: the positions taken, each with the argument that took it.
unfoldable pub position_owner : ℕ → List (ℕ × Text) → Option Text
position_owner p [] = none
position_owner p ((q, name) ∷ seen) = if q == p then some name else position_owner p seen

-- An argument's position against those seen: the error, or the positions seen now.
unfoldable pub check_position : CommandArg → ℤ → List (ℕ × Text) → Option CommandError
check_position a (negsuc p) seen = none
check_position a (pos zero) seen = none
check_position a (pos (suc p)) seen = elim (position_owner (suc p) seen) [
  | none ↦ none
  | some other_name ↦ some (duplicate_position a.name other_name)
]

unfoldable pub see_position : CommandArg → ℤ → List (ℕ × Text) → List (ℕ × Text)
see_position a (negsuc p) seen = seen
see_position a (pos zero) seen = seen
see_position a (pos (suc p)) seen = (suc p, a.name) ∷ seen

unfoldable pub check_arg : ℕ → CommandArg → List (ℕ × Text) → Option CommandError
check_arg i a seen = first (reject_if (is_nil a.name) (arg_without_name i)) (
    first (reject_if (not (valid_arg_name a.name)) (bad_arg_name a.name)) (
      first (reject_if (not (member a.type valid_arg_types)) (bad_arg_type a.name)) (
        first
          (reject_if (equal a.type (codes "enum") && is_nil a.values) (enum_without_values a.name))
          (check_position a a.position seen))))

unfoldable pub check_args : ℕ → List (ℕ × Text) → List CommandArg → Option CommandError
check_args i seen [] = none
check_args i seen (a ∷ args) =
    first (check_arg i a seen) (check_args (suc i) (see_position a a.position seen) args)

-- What the step at an index must read from.
abbrev pub wanted_stdin : ℕ → Text
wanted_stdin zero = codes "pipe"
wanted_stdin (suc i) = codes "stdout"

unfoldable pub check_steps : ℕ → List Step → Option CommandError
check_steps i [] = none
check_steps i (step ∷ steps) = first (reject_if (is_nil step.binary) (step_without_binary i)) (
    first (reject_if (not (equal step.stdin (wanted_stdin i))) (bad_stdin i))
      (check_steps (suc i) steps))

abbrev pub or_default : Text → Text → Text
or_default [] d = d
or_default (c ∷ s) d = c ∷ s

abbrev pub with_defaults : Command → Command
with_defaults cmd = record cmd {
  runner = or_default cmd.runner (codes "claude");
  mode = or_default cmd.mode (codes "process");
}

-- `time.ParseDuration` accepts the text.
abbrev pub IsDuration : Type 0
IsDuration = Text → Bool

module _ (is_duration : IsDuration) where
  -- What `ValidateCommand` checks once the defaults are written.
  unfoldable pub check_shape : Command → Option CommandError
  check_shape c = first (check_runner c) (
      first (check_tools c.tools) (
        first (check_schema c.output_schema) (
          first (reject_if (not (is_nil c.timeout) && not (is_duration c.timeout)) bad_timeout)
            (first (check_args 0 [] c.args) (check_steps 0 c.steps)))))

  -- `ValidateCommand`: the command with the defaults that it has written, and the error.
  unfoldable pub validate_command : Command → Command × Option CommandError
  validate_command cmd =
      if is_nil cmd.name
      then (cmd, some missing_name)
      else let c = record cmd { runner = or_default cmd.runner (codes "claude") } in
        if not (equal c.runner (codes "claude")) && not (equal c.runner (codes "cli"))
        then (c, some bad_runner)
        else let d = record c { mode = or_default c.mode (codes "process") } in
          if not (equal d.mode (codes "process")) && not (equal d.mode (codes "passthrough"))
          then (d, some bad_mode)
          else (d, check_shape d)
