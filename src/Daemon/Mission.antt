-- ===== src/Daemon/Mission.antt =====
-- internal/daemon/mission.go and pipeline.go: the mission contract of a message and of a stage, and
-- the mission's id in what `ethos` prints.
pub mod Scalar
use beadle.Prelude.{
  ℕ, ◌+◌, Bool, true, false, not, ◌&&◌, ◌||◌, List, [], ◌∷◌, ◌++◌, Option, none, some, Result, ok,
  err, if◌then◌else◌, is_nil, keep, length, take, leb, ltb, ◌==◌,
}
use beadle.Prelude.Int.{ℤ, pos, negsuc}
use beadle.Text.{Text, codes, join, split, trim_space, has_prefix, fields}
use beadle.Text.Decimal.{decimal}
use beadle.Daemon.Command.{Command}
use beadle.Daemon.Pipeline.Types.{EmailMeta, StageIndex, stage, failure_reply}

-- `strings.ReplaceAll(s, c, with)`, for a `c` of one rune.
unfoldable pub replace_all : ℕ → Text → Text → Text
replace_all c with [] = []
replace_all c with (d ∷ s) =
    let rest = replace_all c with s in if d == c then with ++ rest else d ∷ rest

-- `strings.ReplaceAll(s, "\x00", "")`, of text.
abbrev pub without_zero : Text → Text
without_zero s = keep (λ c. not (c == 0)) s

-- The five replacements of `escapeYAMLValue` and `escapeYAMLPipe`, in their order.
unfoldable pub escape : Text → Text
unfolding replace_all
escape s = replace_all 9 (codes "\\t") (
    replace_all 13 (codes "\\r") (
      replace_all 10 (codes "\\n")
        (replace_all b'"' (codes "\\\"") (replace_all b'\\' (codes "\\\\") s))))

abbrev pub quoted : Text → Text
quoted s = b'"' ∷ (s ++ b'"' ∷ [])

-- `escapeYAMLPipe`.
unfoldable pub escape_yaml_pipe : Text → Text
unfolding escape
escape_yaml_pipe s = quoted (escape (without_zero s))

-- `escapeYAMLValue`.
unfoldable pub escape_yaml_value : Text → Text
unfolding escape
escape_yaml_value s =
    let clean = without_zero s in
    quoted (escape (if ltb 500 (length clean) then take 500 clean else clean))

-- The lines that a contract begins with, and those of the email's headers.
abbrev pub contract_head : List Text
contract_head =
    codes "leader: claude"
    ∷ codes "worker: bwk"
    ∷ codes "evaluator:"
    ∷ codes "  handle: mdm"
    ∷ codes "inputs:"
    ∷ codes "  trigger:"
    ∷ codes "    type: email"
    ∷ []

unfoldable pub trigger_lines : EmailMeta → List Text
trigger_lines meta =
    (codes "    message_id: " ++ escape_yaml_value meta.message_id)
    ∷ (codes "    from: " ++ escape_yaml_value meta.from)
    ∷ (codes "    subject: " ++ escape_yaml_value meta.subject)
    ∷ []

-- `BuildContract`.
abbrev pub contract_tail : List Text
contract_tail =
    codes "  files: []"
    ∷ codes "write_set:"
    ∷ codes "  - daemon output"
    ∷ codes "success_criteria:"
    ∷ codes "  - \"Complete the task described in the triggering email (see inputs.trigger).\""
    ∷ codes "budget:"
    ∷ codes "  rounds: 1"
    ∷ codes "  reflection_after_each: false"
    ∷ []
    ∷ []

unfoldable pub build_contract : EmailMeta → Text
unfolding trigger_lines join
build_contract meta = join (codes "\n") (contract_head ++ (trigger_lines meta ++ contract_tail))

-- `writeSetYAML`.
unfoldable pub write_set_yaml : List Text → Text
unfolding join
write_set_yaml [] = codes "daemon output"
write_set_yaml (w ∷ ws) = join (codes "\n  - ") (w ∷ ws)

-- `stageContextReference`.
abbrev pub stage_name : StageIndex → Text
stage_name (stage i) = codes "stage " ++ decimal i
stage_name failure_reply = codes "failure reply"

unfoldable pub stage_context_reference : Text → StageIndex → Text
stage_context_reference pipeline_id i =
    codes "stage input delivered via the per-spawn system prompt (pipeline "
    ++ (pipeline_id
        ++ (codes ", "
            ++ (stage_name i
                ++ codes
                    "); the triggering email's body, this stage's args, and the prior stage's output are not stored here -- see this worker's own appended system prompt (STAGE INPUT, after SECURITY) for the content")))

-- `%d` and `%v`.
abbrev pub decimal_int : ℤ → Text
decimal_int (pos n) = decimal n
decimal_int (negsuc n) = b'-' ∷ decimal (n + 1)

abbrev pub print_bool : Bool → Text
print_bool b = if b then codes "true" else codes "false"

-- `buildStageContract`.
abbrev pub stage_tail : Command → Text → StageIndex → List Text
stage_tail cmd pipeline_id i =
    (codes "context: " ++ escape_yaml_value (stage_context_reference pipeline_id i))
    ∷ codes "write_set:"
    ∷ (codes "  - " ++ write_set_yaml cmd.write_set)
    ∷ codes "success_criteria:"
    ∷ (codes "  - " ++ escape_yaml_pipe cmd.prompt)
    ∷ codes "budget:"
    ∷ (codes "  rounds: " ++ decimal_int cmd.rounds)
    ∷ (codes "  reflection_after_each: " ++ print_bool cmd.reflection_after_each)
    ∷ []
    ∷ []

unfoldable pub build_stage_contract : EmailMeta → Command → Text → StageIndex → Text
unfolding trigger_lines write_set_yaml stage_context_reference join
build_stage_contract meta cmd pipeline_id i =
    join (codes "\n") (contract_head ++ (trigger_lines meta ++ stage_tail cmd pipeline_id i))

-- `ValidMissionID`: `m-`, a letter or digit, and at most 61 letters, digits and dashes.
abbrev is_id_first : ℕ → Bool
is_id_first c = (leb b'a' c && leb c b'z') || (leb b'0' c && leb c b'9')

abbrev pub all_id_chars : Text → Bool
all_id_chars [] = true
all_id_chars (c ∷ s) = (is_id_first c || c == b'-') && all_id_chars s

unfoldable pub valid_mission_id : Text → Bool
valid_mission_id (m ∷ d ∷ c ∷ s) =
    m == b'm' && d == b'-' && is_id_first c && all_id_chars s && leb (length s) 61
valid_mission_id _ = false

pub data MissionIdError : Type 0 where
  no_id bad_id : MissionIdError

-- `parseMissionID`: the word behind the first "created: ", else the last line that is not blank and
-- not from `ethos` itself.
abbrev second_word : List Text → Text
second_word (a ∷ b ∷ ws) = b
second_word _ = []

unfoldable pub created_id : List Text → Text
unfolding trim_space has_prefix fields
created_id [] = []
created_id (line ∷ lines) =
    let rest = created_id lines in
    if has_prefix (trim_space line) (codes "created: ")
    then second_word (fields (trim_space line))
    else rest

unfoldable pub last_line : Text → List Text → Text
unfolding trim_space has_prefix
last_line id [] = id
last_line id (line ∷ lines) =
    let t = trim_space line in
    last_line (if is_nil t || has_prefix t (codes "ethos:") then id else t) lines

unfoldable pub parse_mission_id : Text → Result MissionIdError Text
unfolding created_id last_line split valid_mission_id
parse_mission_id output =
    let lines = split b'\n' output in
    let created = created_id lines in
    let id = if is_nil created then last_line [] lines else created in
    if is_nil id then err no_id else if valid_mission_id id then ok id else err bad_id
