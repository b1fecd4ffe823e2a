-- ===== src/Mcp/Messages.antt =====
-- internal/mcp/format.go, `formatMessages` and what it calls: the table of a mailbox's messages.
pub mod Layout
use beadle.Prelude.{
  ℕ, zero, suc, ◌+◌, ◌-◌, Bool, true, false, ◌&&◌, ◌||◌, List, [], ◌∷◌, ◌++◌, map, Option, none,
  some, if◌then◌else◌, is_nil, length, ltb, leb, ◌==◌,
}
use beadle.Text.{Text, codes, equal, trim_space}
use beadle.Text.Decimal.{decimal}
use beadle.Email.Address.{ParseAddress, extract_email_address, extract_display_name}
use beadle.Email.Trust.{TrustLevel, trusted, verified, untrusted, unverified}
use beadle.Mcp.Table.{
  Column, Row, spaces, truncate_runes, larger, prefixed_lines, format_table_with_prefixes,
}

-- A `MessageSummary`. Its date is what `Format("Jan 02")` makes of it, or `none` for the zero time.
pub record Summary : Type 0 where
  pub id : Text
  pub from : Text
  pub date : Option Text
  pub subject : Text
  pub trust_level : TrustLevel
  pub unread : Bool

abbrev pub from_col_width : ℕ
from_col_width = 37

abbrev pub date_col_width : ℕ
date_col_width = 6

abbrev pub id_min_slot : ℕ
id_min_slot = 3

-- `trustIcon`.
abbrev pub trust_icon : TrustLevel → Text
trust_icon trusted = 0x2713 ∷ []
trust_icon verified = codes "+"
trust_icon untrusted = 0x2717 ∷ []
trust_icon unverified = codes "?"

abbrev pub marker : Bool → Text
marker unread = if unread then 0x25cf ∷ [] else codes " "

-- `formatDateCell`.
abbrev pub format_date_cell : Option Text → Text
format_date_cell none = spaces date_col_width
format_date_cell (some t) = t

-- `sanitizeSubject`.
abbrev pub sanitize_subject : Text → Text
sanitize_subject s = map (λ r. if r == 10 || r == 13 || r == 9 then b' ' else r) s

-- `leftPadRunes`.
unfoldable pub left_pad_runes : Text → ℕ → Text
left_pad_runes s w = if leb w (length s) then s else spaces (w - length s) ++ s

-- `formatFromCell`.
unfoldable pub format_from_cell : Text → Text → ℕ → Text
unfolding truncate_runes
format_from_cell name addr max_width =
    if is_nil addr && is_nil name
    then []
    else if is_nil addr
    then truncate_runes name max_width
    else if is_nil name
    then addr
    else if leb max_width (length addr + 3)
    then addr
    else truncate_runes name (max_width - (length addr + 3)) ++ (codes " <" ++ (addr ++ codes ">"))

-- The slot of the ids.
unfoldable pub slot : ℕ → List Summary → ℕ
slot n [] = n
slot n (m ∷ ms) = slot (larger n (length m.id)) ms

abbrev pub columns : List Column
columns =
    record { header = codes "R"; min_width = 1; is_variable = false }
    ∷ record { header = codes "FROM"; min_width = from_col_width; is_variable = false }
    ∷ record { header = codes "DATE"; min_width = date_col_width; is_variable = false }
    ∷ record { header = codes "T"; min_width = 1; is_variable = false }
    ∷ record { header = codes "SUBJECT"; min_width = 10; is_variable = true }
    ∷ []

abbrev pub prefixes_of : List Summary → List Text
prefixes_of ms = map (λ m. left_pad_runes m.id (slot id_min_slot ms)) ms

-- The line above the table.
abbrev pub headline : ℕ → ℕ → Text
headline shown total =
    codes "showing " ++ (decimal shown ++ (codes " of " ++ (decimal total ++ codes " messages\n")))

module _ (parse_address : ParseAddress) where
  -- `splitSender`.
  abbrev pub sender_address : Text → Text
  sender_address from = extract_email_address parse_address from

  unfoldable pub sender_name : Text → Text
  unfolding equal
  sender_name from =
      let name = trim_space (extract_display_name parse_address from) in
      if equal name (sender_address from) then [] else name

  unfoldable pub row_of : Summary → Row
  row_of m =
      marker m.unread
      ∷ format_from_cell (sender_name m.from) (sender_address m.from) from_col_width
      ∷ format_date_cell m.date
      ∷ trust_icon m.trust_level
      ∷ sanitize_subject m.subject
      ∷ []

  abbrev pub rows_of : List Summary → List Row
  rows_of ms = map row_of ms

  -- `formatMessages`; `none` is the panic of the table.
  unfoldable pub format_messages : List Summary → ℕ → Option Text
  format_messages ms total =
      if is_nil ms
      then some (codes "No messages.")
      else elim (format_table_with_prefixes columns (rows_of ms) (prefixes_of ms)
          (slot id_min_slot ms)) [
            | none ↦ none
            | some table ↦ some (headline (length ms) total ++ table)
          ]
