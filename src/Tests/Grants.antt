-- ===== src/Tests/Grants.antt =====
-- A grant of the permissions and its removal at concrete files.
use native.Mathlib.Decide.{ℕ_discrete}
use mathlib.Core.Logic.{ite}
use beadle.Prelude.{◌≡◌, refl, sym, ap, true, List, [], ◌∷◌, none, some, Option, arith}
use beadle.Text.{Text, codes}
use beadle.Permissions.Json.{Json}
use beadle.Permissions.Allow.{rules, add_rules, drop_rules}
use beadle.Permissions.Allow.Restored.{IsReadBack, drop_rules-add_rules}
use beadle.Permissions.Transact.{Disk, System, grant, transact}
use beadle.Permissions.Transact.Recorded.{IsListReadBack, IsSafe, transact-IsSafe}

abbrev pub texts_discrete : Discrete (List Text)
texts_discrete = hlevel (ℕ_discrete)

-- Strings stand for themselves, and the only list that can be written is that of all rules.
abbrev pub plain_strings : List Text → Option Text
plain_strings l = ite (texts_discrete l rules) (some (codes "all")) none

abbrev pub plain_json : Json
plain_json = record {
  decode_object = λ s. none;
  decode_list = λ s. none;
  decode_string = λ s. some s;
  decode_strings = λ s. some rules;
  encode_string = λ s. some s;
  encode_strings = plain_strings;
  indent = λ s. some s;
}

plain_IsReadBack : IsReadBack plain_json
plain_IsReadBack s enc h = ground arith

plain_IsListReadBack : IsListReadBack plain_json
plain_IsListReadBack l s h = elim (texts_discrete l rules) [
  | yes same ↦ ap some (sym same)
  | no other ↦ ground arith
]

abbrev pub healthy : System
healthy = record { reads = true; records = true; writes = true; restores = true }

-- The repository has no settings yet.
abbrev pub fresh : Disk
fresh = record { settings = none; granted = none }

abbrev two : List Text
two = codes "Skill(inbox)" ∷ codes "Skill(mail)" ∷ []

two_added :
    add_rules plain_json two (codes "Skill(mail)" ∷ []) []
    ≡ some (codes "Skill(mail)" ∷ codes "Skill(inbox)" ∷ [], codes "Skill(inbox)" ∷ [])
unfolding add_rules
two_added = refl

drop_rules-add_rules_example :
    drop_rules plain_json
      (codes "Skill(inbox)" ∷ [])
      (codes "Skill(mail)" ∷ codes "Skill(inbox)" ∷ [])
      []
    ≡ (codes "Skill(mail)" ∷ [], codes "Skill(inbox)" ∷ [])
drop_rules-add_rules_example =
    drop_rules-add_rules plain_json plain_IsReadBack two (codes "Skill(mail)" ∷ []) two_added

transact-IsSafe_example :
    IsSafe plain_json plain_IsListReadBack fresh (transact plain_json healthy grant fresh)
transact-IsSafe_example = transact-IsSafe plain_json plain_IsListReadBack healthy fresh
