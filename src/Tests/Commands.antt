-- ===== src/Tests/Commands.antt =====
-- Runs of internal/daemon/command.go and pipeline.go's text functions, and their theorems.
use beadle.Prelude.{◌≡◌, ◌↔◌, refl, true, false, [], ◌∷◌, none, some, All}
use beadle.Text.{Text, codes, equal, lookup, byte_len, member}
use beadle.Utf8.{Bytes, encode}
use beadle.Daemon.Command.{
  validate_command, check_shape, check_runner, check_tools, check_schema, check_args, check_arg,
  check_position, position_owner, check_steps, valid_arg_name, all_arg_chars, is_arg_char,
}
use beadle.Daemon.Call.{
  Value, string, too_long, is_declared, validate_args, check_known, check_declared, check_value,
  check_string,
}
use beadle.Daemon.Command.WellFormed.{IsWellFormed, validate_command-accepted}
use beadle.Daemon.Call.Arguments.{Accepts, validate_args_iff}
use beadle.Daemon.Sanitize.{sanitize_text}
use beadle.Tests.Data.{echo, hello}

echo_accepted : (validate_command (λ d. false) echo).1 ≡ none
unfolding validate_command check_shape check_runner check_tools check_schema check_args check_arg
    check_position check_steps valid_arg_name all_arg_chars is_arg_char equal member position_owner
echo_accepted = refl

too_long_rejected :
    validate_args echo ((codes "text", string (codes "hello!")) ∷ [])
    ≡ some (too_long (codes "text"))
unfolding validate_args check_known check_declared check_value check_string is_declared equal lookup
    byte_len
too_long_rejected = refl

validate_args_iff_example : (validate_args echo hello ≡ none) ↔ (
    All (λ (given : Text × Value). is_declared echo.args given.0 ≡ true) hello
    × All (λ a. Accepts a (lookup a.name hello)) echo.args)
validate_args_iff_example = validate_args_iff echo hello

sanitized_run : sanitize_text (b'a' ∷ 0 ∷ 0xc3 ∷ 0xff ∷ []) ≡ (b'a' ∷ 0xfffd ∷ [], true)
unfolding sanitize_text beadle.Utf8.decode encode equal
sanitized_run = refl

validate_command-accepted_example :
    let c = (validate_command (λ d. false) echo).0 in
    IsWellFormed (λ d. false) c × (validate_command (λ d. false) c ≡ (c, none))
validate_command-accepted_example = validate_command-accepted (λ d. false) echo echo_accepted
