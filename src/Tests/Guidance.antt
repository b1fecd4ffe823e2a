-- ===== src/Tests/Guidance.antt =====
-- Runs of the import line's edits, and their theorems at a concrete file.
use beadle.Prelude.{◌≡◌, refl, true, false, ◌++◌, none, some}
use beadle.Text.{Text, codes}
use beadle.ClaudeMd.{File, System, validate, added, register, prune}
use beadle.ClaudeMd.Lines.{split_keep_ends, join_lines, appended}
use beadle.ClaudeMd.Fences.{fenced_from, present}
use beadle.ClaudeMd.RoundTrip.{Works, terminated, prune-register}

abbrev healthy : System
healthy = record {
  locks = true;
  reads = true;
  writes = true;
  stats = true;
  is_regular = true;
  removes = true;
}

healthy-Works : Works healthy
healthy-Works = record { locked = refl; readable = refl; writable = refl }

abbrev guide : Text
guide = codes "@.punt-labs/beadle/CLAUDE.md"

-- A block with the same line inside, and a last line without its terminator.
abbrev notes : Text
notes = codes "# x\r\n```\r\n@.punt-labs/beadle/CLAUDE.md\r\n```\r\nend"

added_notes :
    register healthy guide (some notes)
    ≡ (some (notes ++ codes "\r\n@.punt-labs/beadle/CLAUDE.md\r\n"), true, none)
unfolding register validate added split_keep_ends appended join_lines fenced_from present
added_notes = refl

added_new :
    register healthy guide none ≡ (some (codes "@.punt-labs/beadle/CLAUDE.md\n"), true, none)
unfolding register validate added split_keep_ends appended join_lines present
added_new = refl

prune-register_example :
    let g : File = some (notes ++ codes "\r\n@.punt-labs/beadle/CLAUDE.md\r\n") in
    (register healthy guide g ≡ (g, false, none))
    × (prune healthy false guide g ≡ (some (terminated notes), true, false, none))
prune-register_example = prune-register healthy healthy guide (some notes) healthy-Works added_notes
