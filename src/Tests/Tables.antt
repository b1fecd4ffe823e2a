-- ===== src/Tests/Tables.antt =====
-- A listing of messages, and the theorems about tables at it.
use beadle.Prelude.{◌+◌, ◌≡◌, ◌++◌, refl, true, arith, List, [], ◌∷◌, some, length}
use beadle.Text.{Text, codes, join}
use beadle.Email.Trust.{trusted}
use beadle.Mcp.Table.{Column, Row, prefixed_lines, table_lines}
use beadle.Mcp.Table.Widths.Lines.{AreWide}
use beadle.Mcp.Messages.{Summary, headline, format_messages}
use beadle.Mcp.Messages.Layout.{FitsRow, format_messages-AreWide}
use beadle.Tests.Data.{no_parser}

-- A table with one row, cut in its variable column.
short_table :
    table_lines
      (record { header = codes "FOLDER"; min_width = 10; is_variable = true } ∷ [])
      ((codes "INBOX" ∷ []) ∷ [])
    ≡ (0x25b6 ∷ codes "  FOLDER    ") ∷ codes "   INBOX     " ∷ []
unfolding table_lines beadle.Mcp.Table.table_widths
short_table = refl

abbrev note : Summary
note = record {
  id = codes "7";
  from = codes "Jim <jim@x.org>";
  date = some (codes "Apr 08");
  subject = codes "two\nlines";
  trust_level = trusted;
  unread = true;
}

note-FitsRow : FitsRow no_parser note
unfolding beadle.Email.Address.extract_email_address beadle.Email.Address.fallback
    beadle.Text.trim_space
note-FitsRow = record { address_fits = omega arith; date_fits = omega arith; id_fits = omega arith }

format_messages-AreWide_example :
    (lines : List Text) × (format_messages no_parser (note ∷ []) 5
      ≡ some (headline (length (note ∷ [])) 5 ++ join (codes "\n") lines))
    × (length lines ≡ length (note ∷ []) + 1)
    × AreWide 80 lines
format_messages-AreWide_example = format_messages-AreWide no_parser note [] 5 (note-FitsRow, tt)
