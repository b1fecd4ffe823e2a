-- ===== src/Permissions/Json.antt =====
-- The members of a JSON object as internal/permissions/permissions.go keeps them. What it takes from
-- `encoding/json` is a parameter; `none` is an error.
use beadle.Prelude.{List, [], ◌∷◌, ◌++◌, Option, none, some, Result, ok, err, if◌then◌else◌}
use beadle.Text.{Text, codes, equal, join}

-- A value as the text it was written as.
abbrev pub Raw : Type 0
Raw = Text

-- `member`.
abbrev pub Member : Type 0
Member = Text × Raw

-- Reading one whole object, a list, a string, a list of strings; writing a string and a list of
-- strings; and indenting.
pub record Json : Type 0 where
  pub decode_object : Text → Option (List Member)
  pub decode_list : Raw → Option (List Raw)
  pub decode_string : Raw → Option Text
  pub decode_strings : Text → Option (List Text)
  pub encode_string : Text → Option Raw
  pub encode_strings : List Text → Option Text
  pub indent : Text → Option Text

-- Why an edit ends without a result: it is refused (`ErrRefused`), or a write of JSON fails.
pub data PlanError : Type 0 where
  not_utf8 not_an_object permissions_not_object allow_not_list bad_record : PlanError
  duplicate_key : Text → PlanError
  not_encoded : PlanError

-- `find`, with the value in place of its index.
unfoldable pub find_from : Option Raw → List Member → Text → Result PlanError (Option Raw)
find_from at [] key = ok at
find_from at ((k, v) ∷ ms) key =
    let skip = find_from at ms key in
    let here = find_from (some v) ms key in
    if equal k key then elim at [ none ↦ here | some w ↦ err (duplicate_key key) ] else skip

abbrev pub find : List Member → Text → Result PlanError (Option Raw)
find ms key = find_from none ms key

-- `set`.
unfoldable pub set : List Member → Text → Raw → List Member
set [] key v = (key, v) ∷ []
set ((k, w) ∷ ms) key v =
    let rest = set ms key v in if equal k key then (k, v) ∷ ms else (k, w) ∷ rest

module _ (json : Json) where
  -- The members of `encodeObject`, each "key:value".
  unfoldable pub encode_members : List Member → Option (List Text)
  encode_members [] = some []
  encode_members ((k, v) ∷ ms) =
      let rest = encode_members ms in
      elim (json.encode_string k) [
        | none ↦ none
        | some name ↦ elim rest [ none ↦ none | some more ↦ some ((name ++ b':' ∷ v) ∷ more) ]
      ]

  -- `encodeObject`.
  unfoldable pub encode_object : List Member → Option Raw
  unfolding encode_members
  encode_object ms = elim (encode_members ms) [
    | none ↦ none
    | some parts ↦ some (b'{' ∷ (join (codes ",") parts ++ b'}' ∷ []))
  ]
