-- ===== src/Daemon/Command/WellFormed.antt =====
-- The recipes that `ValidateCommand` (internal/daemon/command.go) accepts, described without it.
use beadle.Prelude.{◌≡◌, ◌≢◌, ◌⊎◌, ◌↔◌, true, [], none, inl, inr, arith, All}
use beadle.Text.{codes, member}
use beadle.Text.Laws.{equal_iff}
use beadle.Daemon.Command.{
  Command, valid_tool_names, check_runner, check_tools, check_schema, check_args, check_steps,
  or_default, with_defaults, IsDuration, check_shape, validate_command,
}
use beadle.Daemon.Command.Parts.{
  HasRunner, check_runner-IsClaude, check_runner-IsCli, positions, Distinct, IsArg, check_args_iff,
  All-IsFree-nil, IsChain, check_steps_iff, check_tools_iff, IsSchema, check_schema_iff,
}

-- What a recipe must be, its defaults written.
pub record IsWellFormed (is_duration : IsDuration) (c : Command) : Type 0 where
  pub named : c.name ≢ []
  pub has_runner : HasRunner c
  pub has_mode : (c.mode ≡ codes "process") ⊎ (c.mode ≡ codes "passthrough")
  pub known_tools : All (λ t. member t valid_tool_names ≡ true) c.tools
  pub schema_ok : IsSchema c.output_schema
  pub timeout_ok : (c.timeout ≡ []) ⊎ (is_duration c.timeout ≡ true)
  pub args_ok : All IsArg c.args
  pub positions_ok : Distinct (positions c.args)
  pub chained : IsChain 0 c.steps

module _ (is_duration : IsDuration) where
  check_runner_iff :
      (c : Command)
      → ((c.runner ≡ codes "claude") ⊎ (c.runner ≡ codes "cli"))
      → (check_runner c ≡ none) ↔ HasRunner c
  check_runner_iff c (inl h) = ground (arith, check_runner-IsClaude c h)
  check_runner_iff c (inr h) = ground (arith, check_runner-IsCli c h)

  check_shape-eq-none :
      (c : Command)
      → check_shape is_duration c ≡ none
      → (check_runner c ≡ none)
        × (check_tools c.tools ≡ none)
        × (check_schema c.output_schema ≡ none)
        × ((c.timeout ≡ []) ⊎ (is_duration c.timeout ≡ true))
        × (check_args 0 [] c.args ≡ none)
        × (check_steps 0 c.steps ≡ none)
  unfolding check_shape
  check_shape-eq-none c h = ground arith

  check_shape-none :
      (c : Command)
      → check_runner c ≡ none
      → check_tools c.tools ≡ none
      → check_schema c.output_schema ≡ none
      → (c.timeout ≡ []) ⊎ (is_duration c.timeout ≡ true)
      → check_args 0 [] c.args ≡ none
      → check_steps 0 c.steps ≡ none
      → check_shape is_duration c ≡ none
  unfolding check_shape
  check_shape-none c r t s d a p = ground arith

  -- The part of `ValidateCommand` before the checks of the shape.
  validate_command-eq-none :
      (cmd : Command)
      → (validate_command is_duration cmd).1 ≡ none
      → let c = (validate_command is_duration cmd).0 in
        (c ≡ with_defaults cmd)
        × (c.name ≢ [])
        × ((c.runner ≡ codes "claude") ⊎ (c.runner ≡ codes "cli"))
        × ((c.mode ≡ codes "process") ⊎ (c.mode ≡ codes "passthrough"))
        × (check_shape is_duration c ≡ none)
  unfolding validate_command
  validate_command-eq-none cmd h = ground (
    arith,
    equal_iff (or_default cmd.runner (codes "claude")) (codes "claude"),
    equal_iff (or_default cmd.runner (codes "claude")) (codes "cli"),
    equal_iff (or_default cmd.mode (codes "process")) (codes "process"),
    equal_iff (or_default cmd.mode (codes "process")) (codes "passthrough"),
  )

  -- A recipe that `ValidateCommand` accepts is, with the defaults it has written, well formed.
  pub validate_command-IsWellFormed :
      (cmd : Command)
      → (validate_command is_duration cmd).1 ≡ none
      → IsWellFormed is_duration (validate_command is_duration cmd).0
  validate_command-IsWellFormed cmd h =
      let c = (validate_command is_duration cmd).0 in
      let (e, n, r, m, s) = validate_command-eq-none cmd h in
      let (h₁, h₂, h₃, h₄, h₅, h₆) = check_shape-eq-none c s in
      let (good, placed) = (check_args_iff 0 [] c.args).0 h₅ in
      record {
        named = n;
        has_runner = (check_runner_iff c r).0 h₁;
        has_mode = m;
        known_tools = (check_tools_iff c.tools).0 h₂;
        schema_ok = (check_schema_iff c.output_schema).0 h₃;
        timeout_ok = h₄;
        args_ok = good;
        positions_ok = placed.1;
        chained = (check_steps_iff 0 c.steps).0 h₆;
      }

  runner_of : (c : Command) → HasRunner c → (c.runner ≡ codes "claude") ⊎ (c.runner ≡ codes "cli")
  runner_of c (inl h) = inl h.0
  runner_of c (inr h) = inr h.0

  validate_command_shape :
      (c : Command)
      → c.name ≢ []
      → (c.runner ≡ codes "claude") ⊎ (c.runner ≡ codes "cli")
      → (c.mode ≡ codes "process") ⊎ (c.mode ≡ codes "passthrough")
      → check_shape is_duration c ≡ none
      → validate_command is_duration c ≡ (c, none)
  unfolding validate_command
  validate_command_shape c n r m s = ground (
    arith,
    equal_iff c.runner (codes "claude"),
    equal_iff c.runner (codes "cli"),
    equal_iff c.mode (codes "process"),
    equal_iff c.mode (codes "passthrough"),
  )

  -- A well-formed recipe is accepted, and comes back as it was given.
  pub IsWellFormed-validate_command :
      (c : Command) → IsWellFormed is_duration c → validate_command is_duration c ≡ (c, none)
  IsWellFormed-validate_command c w =
      let r = runner_of c w.has_runner in
      validate_command_shape c w.named r w.has_mode (
        check_shape-none c ((check_runner_iff c r).1 w.has_runner)
          ((check_tools_iff c.tools).1 w.known_tools)
          ((check_schema_iff c.output_schema).1 w.schema_ok) w.timeout_ok
          ((check_args_iff 0 [] c.args).1
            (w.args_ok, (All-IsFree-nil (positions c.args), w.positions_ok)))
          ((check_steps_iff 0 c.steps).1 w.chained))

  -- A recipe that `ValidateCommand` accepts is, with the defaults it has written, well formed, and
  -- comes back unchanged when it is validated again.
  pub validate_command-accepted :
      (cmd : Command)
      → (validate_command is_duration cmd).1 ≡ none
      → let c = (validate_command is_duration cmd).0 in
        IsWellFormed is_duration c × (validate_command is_duration c ≡ (c, none))
  validate_command-accepted cmd h =
      let w = validate_command-IsWellFormed cmd h in (w, IsWellFormed-validate_command _ w)
