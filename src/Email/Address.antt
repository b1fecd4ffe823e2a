-- ===== src/Email/Address.antt =====
-- internal/email/address.go: the address and the display name of a From header.
use beadle.Prelude.{ℕ, not, ◌&&◌, [], ◌∷◌, Option, none, some, if◌then◌else◌, ◌==◌, is_nil}
use beadle.Text.{Text, codes, contains_rune, contains_any, trim_space}

-- What `mail.ParseAddress` returns.
pub record ParsedAddress : Type 0 where
  pub name : Text
  pub address : Text

abbrev pub ParseAddress : Type 0
ParseAddress = Text → Option ParsedAddress

-- The text behind the last occurrence of a rune, and the text before it.
unfoldable pub after_last : ℕ → Text → Option Text
after_last c [] = none
after_last c (d ∷ s) =
    let rest = after_last c s in
    elim rest [ some t ↦ some t | none ↦ if d == c then some s else none ]

unfoldable pub before_last : ℕ → Text → Option Text
before_last c [] = none
before_last c (d ∷ s) =
    let rest = before_last c s in
    elim rest [ some t ↦ some (d ∷ t) | none ↦ if d == c then some [] else none ]

-- The text before the first occurrence of a rune.
unfoldable pub before_first : ℕ → Text → Option Text
before_first c [] = none
before_first c (d ∷ s) =
    let rest = before_first c s in
    if d == c then some [] else elim rest [ some t ↦ some (d ∷ t) | none ↦ none ]

-- The candidate between the last '<' and the next '>'.
unfoldable pub bracketed : Text → Option Text
unfolding after_last before_first
bracketed from = elim (after_last b'<' from) [
  | none ↦ none
  | some rest ↦ elim (before_first b'>' rest) [ none ↦ none | some t ↦ some (trim_space t) ]
]

unfoldable pub bare : Text → Text
bare from =
    if contains_rune b'@' from && not (contains_any from (codes " <>\"\t")) then from else []

-- The two fallbacks of `ExtractEmailAddress`.
unfoldable pub fallback : Text → Text
unfolding bracketed bare
fallback from = elim (bracketed from) [
  | none ↦ bare from
  | some candidate ↦ if contains_rune b'@' candidate then candidate else bare from
]

module _ (parse_address : ParseAddress) where
  pub extract_trimmed : Text → Text
  extract_trimmed from =
      if is_nil from
      then []
      else elim (parse_address from) [ some a ↦ trim_space a.address | none ↦ fallback from ]

  -- `ExtractEmailAddress`.
  unfoldable pub extract_email_address : Text → Text
  unfolding extract_trimmed
  extract_email_address from = extract_trimmed (trim_space from)

  unfoldable pub display_fallback : Text → Text
  display_fallback from = elim (before_last b'<' from) [
    | none ↦ from
    | some [] ↦ from
    | some (c ∷ t) ↦ if is_nil (trim_space (c ∷ t)) then from else trim_space (c ∷ t)
  ]

  pub display_trimmed : Text → Text
  unfolding display_fallback
  display_trimmed from = if is_nil from then [] else elim (parse_address from) [
    | some a ↦ if is_nil a.name then a.address else a.name
    | none ↦ display_fallback from
  ]

  -- `ExtractDisplayName`.
  unfoldable pub extract_display_name : Text → Text
  unfolding display_trimmed
  extract_display_name from = display_trimmed (trim_space from)
