-- ===== src/Mcp/Params.antt =====
-- internal/mcp/tools.go: the parameters of a tool's call, and the message ids among them.
pub mod Uids
use beadle.Prelude.{
  ℕ, Bool, true, false, ◌||◌, List, [], ◌∷◌, ◌++◌, Option, none, some, Result, ok, err,
  if◌then◌else◌, is_nil, ltb, ◌==◌,
}
use beadle.Prelude.Int.{ℤ, pos, negsuc}
use beadle.Text.{Text, codes, join, lookup}
use beadle.Daemon.Handler.{parse_uint32}
use beadle.Email.Search.{dedup_uids}

-- An argument. Of a `float64` the code asks whether it is whole, and then for its value.
pub data Item : Type 0 where
  text : Text → Item
  no_text : Item

pub data Value : Type 0 where
  string : Text → Value
  whole : ℤ → Value
  fraction : Value
  int : ℤ → Value
  boolean : Bool → Value
  array : List Item → Value
  no_value : Value

abbrev pub Arguments : Type 0
Arguments = List (Text × Value)

-- The errors that tools return, without their texts; `denied` has the sender's address, or the
-- recipients.
pub data ToolError : Type 0 where
  no_context not_connected missing_param bad_param out_of_range : ToolError
  bad_id : ToolError
  bad_ids : Text → ToolError
  unparseable_sender : Text → ToolError
  denied : Text → ToolError
  server_failed verify_failed parse_failed not_written : ToolError

-- `stringParam`.
abbrev pub string_or : Text → Option Value → Text
string_or fallback (some (string s)) = if is_nil s then fallback else s
string_or fallback v = fallback

unfoldable pub string_param : Arguments → Text → Text → Text
unfolding lookup
string_param args key fallback = string_or fallback (lookup key args)

-- `intParam`.
abbrev pub is_int32 : ℤ → Bool
is_int32 (pos n) = ltb n 0x80000000
is_int32 (negsuc n) = ltb n 0x80000000

abbrev pub int_or : ℤ → Option Value → Result ToolError ℤ
int_or fallback none = ok fallback
int_or fallback (some (whole z)) = if is_int32 z then ok z else err out_of_range
int_or fallback (some (int z)) = ok z
int_or fallback (some v) = err bad_param

unfoldable pub int_param : Arguments → Text → ℤ → Result ToolError ℤ
unfolding lookup
int_param args key fallback = int_or fallback (lookup key args)

-- `boolParamDefault`.
abbrev pub bool_or : Bool → Option Value → Bool
bool_or fallback (some (boolean b)) = b
bool_or fallback v = fallback

unfoldable pub bool_param_default : Arguments → Text → Bool → Bool
unfolding lookup
bool_param_default args key fallback = bool_or fallback (lookup key args)

-- `boolParam`.
unfoldable pub bool_param : Arguments → Text → Bool
unfolding bool_param_default
bool_param args key = bool_param_default args key false

-- `stringSliceParam`; `none` is the nil slice of a missing key.
unfoldable pub texts_of : List Item → Result ToolError (List Text)
texts_of [] = ok []
texts_of (no_text ∷ items) = err bad_param
texts_of (text s ∷ items) = elim (texts_of items) [ err e ↦ err e | ok ss ↦ ok (s ∷ ss) ]

abbrev pub slice_or : Option Value → Result ToolError (Option (List Text))
slice_or none = ok none
slice_or (some (array items)) = elim (texts_of items) [ err e ↦ err e | ok ss ↦ ok (some ss) ]
slice_or (some v) = err bad_param

unfoldable pub string_slice_param : Arguments → Text → Result ToolError (Option (List Text))
unfolding lookup texts_of
string_slice_param args key = slice_or (lookup key args)

-- The loop of `parseUIDs`: `uids` and `parseErrs`.
abbrev pub invalid : Text → Text
invalid id = codes "#" ++ (id ++ codes ": invalid id")

abbrev pub add_id : Text → Option ℕ → List ℕ × List Text → List ℕ × List Text
add_id id none (uids, errs) = (uids, invalid id ∷ errs)
add_id id (some uid) (uids, errs) =
    if uid == 0 then (uids, invalid id ∷ errs) else (uid ∷ uids, errs)

unfoldable pub parse_ids : List Text → List ℕ × List Text
unfolding parse_uint32
parse_ids [] = ([], [])
parse_ids (id ∷ ids) = add_id id (parse_uint32 id) (parse_ids ids)

-- `parseUIDs`.
abbrev pub checked_ids : List ℕ × List Text → Result ToolError (List ℕ)
checked_ids (uids, []) = ok (dedup_uids uids)
checked_ids (uids, e ∷ errs) =
    err (bad_ids (codes "invalid message_ids: " ++ join (codes ", ") (e ∷ errs)))

unfoldable pub parse_uids : List Text → Result ToolError (List ℕ)
unfolding parse_ids dedup_uids join
parse_uids ids = checked_ids (parse_ids ids)

-- `markStatus`.
abbrev pub mark_status : Bool → Text
mark_status seen = if seen then codes "read" else codes "unread"

-- The id of one message, as the tools parse it: required, and of 32 bits.
unfoldable pub message_uid : Option Text → Result ToolError ℕ
unfolding parse_uint32
message_uid none = err missing_param
message_uid (some id) = elim (parse_uint32 id) [ none ↦ err bad_id | some uid ↦ ok uid ]
