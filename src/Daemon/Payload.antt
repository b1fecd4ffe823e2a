-- ===== src/Daemon/Payload.antt =====
-- internal/daemon/pipeline.go, `stagePayloadText`: the block of a worker's system prompt that holds
-- what came with the email, fenced by lines with a nonce.
pub mod Fences
use beadle.Prelude.{
  ℕ, Bool, true, false, not, List, [], ◌∷◌, ◌++◌, map, if◌then◌else◌, is_nil, length,
}
use beadle.Text.{Text, codes, join}
use beadle.Text.Decimal.{decimal}

pub record StageArg : Type 0 where
  pub name : Text
  pub value : Text
  pub truncated : Bool
  pub sanitized : Bool

pub record StagePayload : Type 0 where
  pub args : List StageArg
  pub pipeline_output : Text
  pub pipeline_output_truncated : Bool
  pub pipeline_output_sanitized : Bool
  pub email_body : Text
  pub email_body_truncated : Bool
  pub email_body_sanitized : Bool

-- What a part of the block shows: nothing, or a value with what was done to it.
pub data Part : Type 0 where
  none_of : Text → Part
  shown : Text → Text → Bool → Bool → Part

-- `emptyMarker`.
unfoldable pub empty_marker : Text → Text → Text
empty_marker nonce name = codes "--- " ++ (nonce ++ (codes " " ++ (name ++ codes ": (none) ---")))

-- The first and the last line of `fenceField`.
abbrev pub states : Bool → Bool → List Text
states true true = codes "sanitized" ∷ codes "truncated" ∷ []
states true false = codes "sanitized" ∷ []
states false true = codes "truncated" ∷ []
states false false = []

abbrev pub state_text : List Text → Text
state_text [] = []
state_text (s ∷ ss) = codes ", " ++ join (codes ", ") (s ∷ ss)

unfoldable pub begin_line : Text → Text → ℕ → List Text → Text
unfolding join
begin_line nonce name count ss =
    codes "--- begin "
    ++ (nonce
        ++ (codes " "
            ++ (name
                ++ (codes ": "
                    ++ (decimal count ++ (codes " runes" ++ (state_text ss ++ codes " ---")))))))

unfoldable pub end_line : Text → Text → Text
end_line nonce name = codes "--- end " ++ (nonce ++ (codes " " ++ (name ++ codes " ---")))

-- `fenceField`.
unfoldable pub fence_field : Text → Text → Text → Bool → Bool → Text
fence_field nonce name value truncated sanitized =
    begin_line nonce name (length value) (states sanitized truncated)
    ++ b'\n' ∷ (value ++ b'\n' ∷ end_line nonce name)

abbrev pub render : Text → Part → Text
render nonce (none_of name) = empty_marker nonce name
render nonce (shown name value truncated sanitized) =
    fence_field nonce name value truncated sanitized

-- The parts of the block, in their order.
abbrev pub arg_parts : List StageArg → List Part
arg_parts [] = none_of (codes "stage args") ∷ []
arg_parts (a ∷ rest) =
    map (λ b. shown (codes "stage arg " ++ b.name) b.value b.truncated b.sanitized) (a ∷ rest)

abbrev pub field_part : Text → Text → Bool → Bool → Part
field_part name value truncated sanitized =
    if is_nil value then none_of name else shown name value truncated sanitized

abbrev pub parts_of : StagePayload → List Part
parts_of p =
    arg_parts p.args
    ++ (field_part (codes "pipeline output") p.pipeline_output p.pipeline_output_truncated
          p.pipeline_output_sanitized
        ∷ field_part (codes "email body") p.email_body p.email_body_truncated p.email_body_sanitized
        ∷ [])

-- `stagePayloadText`.
unfoldable pub stage_payload_text : StagePayload → Text → Text
unfolding join
stage_payload_text p nonce = join (codes "\n") (map (render nonce) (parts_of p))
