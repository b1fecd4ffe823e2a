-- ===== src/Permissions/Allow.antt =====
-- The edit of the list `permissions.allow` (internal/permissions/permissions.go).
pub mod Restored
use beadle.Prelude.{
  Bool, true, false, not, ◌&&◌, List, [], ◌∷◌, ◌++◌, Option, none, some, Result, ok, err, ◌>>=◌,
  if◌then◌else◌, any, is_nil, ◌==◌,
}
use beadle.Text.{Text, codes, equal, member, join, trim_space}
use beadle.Utf8.{Bytes, Decoded, rune, bad, decode}
use beadle.Permissions.Json.{
  Raw, Member, Json, PlanError, not_utf8, not_an_object, permissions_not_object, allow_not_list,
  not_encoded, find, find_from, set, encode_object,
}

-- `Rules`.
abbrev pub rules : List Text
rules =
    codes "mcp__plugin_beadle_email__*"
    ∷ codes "mcp__beadle-email__*"
    ∷ codes "Bash(beadle-email:*)"
    ∷ codes "Skill(beadle)"
    ∷ codes "Skill(contacts)"
    ∷ codes "Skill(inbox)"
    ∷ codes "Skill(mail)"
    ∷ codes "Skill(send)"
    ∷ []

module _ (json : Json) where
  -- `ruleString` gives this rule.
  abbrev pub is_rule : Text → Raw → Bool
  is_rule rule raw = elim (json.decode_string raw) [ none ↦ false | some s ↦ equal s rule ]

  -- `hasRule`.
  unfoldable pub has_rule : List Raw → Text → Bool
  unfolding equal
  has_rule allow rule = any (is_rule rule) allow

  -- The loop of `plan` that adds: the list and the rules added. `none` is an error.
  unfoldable pub add_rules : List Text → List Raw → List Text → Option (List Raw × List Text)
  unfolding has_rule
  add_rules [] allow changed = some (allow, changed)
  add_rules (rule ∷ rs) allow changed =
      let skip = add_rules rs allow changed in
      let add = λ (enc : Raw). add_rules rs (allow ++ enc ∷ []) (changed ++ rule ∷ []) in
      if has_rule allow rule
      then skip
      else elim (json.encode_string rule) [ none ↦ none | some enc ↦ add enc ]

  -- The value is one of the rules to remove.
  abbrev pub named : List Text → Raw → Option Text
  named rs raw = elim (json.decode_string raw) [
    | none ↦ none
    | some s ↦ if member s rs then some s else none
  ]

  -- The loop of `plan` that removes: the list kept and the rules removed, each once.
  unfoldable pub drop_rules : List Text → List Raw → List Text → List Raw × List Text
  unfolding member
  drop_rules rs [] changed = ([], changed)
  drop_rules rs (raw ∷ allow) changed =
      let again = drop_rules rs allow in
      elim (named rs raw) [
        | some s ↦ again (if member s changed then changed else changed ++ s ∷ [])
        | none ↦ let (kept, all) = again changed in (raw ∷ kept, all)
      ]

  -- The two loops, as `plan` chooses between them.
  abbrev pub edit_allow : Bool → List Text → List Raw → Option (List Raw × List Text)
  edit_allow add rs allow = if add then add_rules rs allow [] else some (drop_rules rs allow [])

  abbrev pub starts_list : Raw → Bool
  starts_list [] = false
  starts_list (c ∷ s) = c == b'['

  -- The value of "allow" as a list; a missing one is empty.
  unfoldable pub allow_list : Option Raw → Result PlanError (List Raw)
  unfolding trim_space
  allow_list none = ok []
  allow_list (some v) =
      let val = trim_space v in
      if starts_list val
      then elim (json.decode_list val) [ none ↦ err allow_not_list | some xs ↦ ok xs ]
      else err allow_not_list

  abbrev pub object_or : PlanError → Option Raw → Result PlanError (List Member)
  object_or e none = ok []
  object_or e (some v) = elim (json.decode_object v) [ none ↦ err e | some ms ↦ ok ms ]

  -- The new contents of the file, from its members and those of "permissions".
  unfoldable pub contents : List Member → List Member → List Raw → Result PlanError Text
  unfolding encode_object set
  contents top perms allow =
      let listed : Raw = b'[' ∷ (join (codes ",") allow ++ b']' ∷ []) in
      elim (encode_object json (set perms (codes "allow") listed)) [
        | none ↦ err not_encoded
        | some p ↦ elim (encode_object json (set top (codes "permissions") p)) [
          | none ↦ err not_encoded
          | some compact ↦ elim (json.indent compact) [
            | none ↦ err not_encoded
            | some out ↦ ok (out ++ b'\n' ∷ [])
          ]
        ]
      ]

abbrev is_bad : Decoded → Bool
is_bad (rune c) = false
is_bad (bad b) = true

-- `utf8.Valid`.
unfoldable pub is_valid : Bytes → Bool
unfolding decode
is_valid s = not (any is_bad (decode s))

module _ (json : Json) where
  -- The members of the file; a file that is missing has none.
  unfoldable pub top_members : Option Bytes → Result PlanError (List Member)
  unfolding is_valid
  top_members none = ok []
  top_members (some s) =
      if not (is_valid s) then err not_utf8 else object_or json not_an_object (some s)

  -- The end of `plan`: with nothing to change it returns no contents.
  unfoldable pub finish :
      List Member
      → List Member
      → Option (List Raw × List Text)
      → Result PlanError (List Text × Option Text)
  unfolding contents
  finish top perms none = err not_encoded
  finish top perms (some (allow, [])) = ok ([], none)
  finish top perms (some (allow, rule ∷ changed)) =
      contents json top perms allow >>= λ out. ok (rule ∷ changed, some out)

  -- `plan`: the rules changed and the new contents.
  unfoldable pub plan : Option Bytes → Bool → List Text → Result PlanError (List Text × Option Text)
  unfolding top_members find_from allow_list finish
  plan given add rs = do
    top ← top_members given
    found ← find top (codes "permissions")
    perms ← object_or json permissions_not_object found
    listed ← find perms (codes "allow")
    allow ← allow_list json listed
    finish top perms (edit_allow json add rs allow)
