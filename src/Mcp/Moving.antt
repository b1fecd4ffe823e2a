-- ===== src/Mcp/Moving.antt =====
-- internal/mcp/tools.go: the tools that move and mark messages, one or a batch of them.
use beadle.Prelude.{
  ℕ, Bool, true, List, Option, none, some, Result, ok, err, ◌>>=◌, if◌then◌else◌, is_nil, length,
}
use beadle.Text.{Text, codes}
use beadle.Email.Listing.{Mover, move_messages, move_message, set_seen_batch, set_seen}
use beadle.Mcp.Params.{
  Arguments, ToolError, no_context, not_connected, missing_param, server_failed, string_param,
  bool_param_default, string_slice_param, parse_uids, message_uid,
}
use beadle.Mcp.Format.{
  format_move_result, format_mark_result, format_batch_move_result, format_batch_mark_result,
}

module _ (has_context connects : Bool) (s : Mover) where
  abbrev pub in_context : Result ToolError Text → Result ToolError Text
  in_context r = if has_context then r else err no_context

  -- `withClient`, and what the server's count is printed as.
  abbrev pub of_count : Option ℕ → (ℕ → Text) → Result ToolError Text
  of_count none show = err server_failed
  of_count (some n) show = ok (show n)

  abbrev pub with_count : Option ℕ → (ℕ → Text) → Result ToolError Text
  with_count count show = if connects then of_count count show else err not_connected

  abbrev pub folder_of : Arguments → Text
  folder_of args = string_param args (codes "folder") (codes "INBOX")

  abbrev pub destination_of : Arguments → Text
  destination_of args = string_param args (codes "destination") (codes "Archive")

  abbrev pub one_uid : Option Text → (Text → ℕ → Result ToolError Text) → Result ToolError Text
  one_uid none act = err missing_param
  one_uid (some id) act = message_uid (some id) >>= act id

  -- `moveMessage`.
  unfoldable pub move_one : Arguments → Option Text → Result ToolError Text
  unfolding string_param message_uid move_message format_move_result
  move_one args id = in_context (
      one_uid id (λ text uid.
        with_count (move_message s (folder_of args) uid (destination_of args))
          (format_move_result text (destination_of args))))

  -- `markMessage`.
  unfoldable pub mark_one : Arguments → Option Text → Result ToolError Text
  unfolding string_param bool_param_default message_uid set_seen format_mark_result
  mark_one args id =
      let seen = bool_param_default args (codes "seen") true in
      in_context (
        one_uid id (λ text uid.
          with_count (set_seen s (folder_of args) uid seen) (format_mark_result text seen)))

  -- A batch, for the ids of the parameter.
  abbrev pub of_ids :
      Result ToolError (Option (List Text))
      → Text
      → (List ℕ → Result ToolError Text)
      → Result ToolError Text
  of_ids (err e) empty act = err e
  of_ids (ok none) empty act = err missing_param
  of_ids (ok (some ids)) empty act = if is_nil ids then ok empty else (parse_uids ids >>= act)

  -- `batchMoveMessages`.
  abbrev pub move_all : Arguments → List ℕ → Result ToolError Text
  move_all args uids =
      with_count (move_messages s (folder_of args) uids (destination_of args))
        (λ moved. format_batch_move_result moved (length uids) (destination_of args))

  unfoldable pub batch_move : Arguments → Result ToolError Text
  unfolding string_param string_slice_param parse_uids move_messages format_batch_move_result
  batch_move args = in_context (
      of_ids (string_slice_param args (codes "message_ids"))
        (format_batch_move_result 0 0 (destination_of args)) (move_all args))

  -- `batchMarkMessages`.
  abbrev pub mark_all : Arguments → List ℕ → Result ToolError Text
  mark_all args uids =
      let seen = bool_param_default args (codes "seen") true in
      with_count (set_seen_batch s (folder_of args) uids seen)
        (λ modified. format_batch_mark_result modified (length uids) seen)

  unfoldable pub batch_mark : Arguments → Result ToolError Text
  unfolding string_param bool_param_default string_slice_param parse_uids set_seen_batch
      format_batch_mark_result
  batch_mark args = in_context (
      of_ids (string_slice_param args (codes "message_ids"))
        (format_batch_mark_result 0 0 (bool_param_default args (codes "seen") true))
        (mark_all args))
