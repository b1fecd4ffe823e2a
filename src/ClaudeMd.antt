-- ===== src/ClaudeMd.antt =====
-- internal/claudemd/imports.go: one import line in the user's CLAUDE.md, added and removed.
pub mod Lines
pub mod Fences
pub mod Split
pub mod Bodies
pub mod Matches
pub mod RoundTrip
use beadle.Prelude.{
  Bool, true, false, not, ◌&&◌, ◌||◌, [], ◌∷◌, ◌++◌, Option, none, some, if◌then◌else◌, is_nil,
  length, ◌==◌,
}
use beadle.Text.{Text, codes, equal, contains_any, trim_space, has_prefix}
use beadle.ClaudeMd.Lines.{split_keep_ends, join_lines, appended}
use beadle.ClaudeMd.Fences.{present, remove}

-- The file at the path: its text, or `none` where there is none.
abbrev pub File : Type 0
File = Option Text

-- How the calls of the operating system end: resolving the path and taking the lock, reading,
-- replacing the file, the look at the path itself, whether that is a regular file, and removing.
pub record System : Type 0 where
  pub locks : Bool
  pub reads : Bool
  pub writes : Bool
  pub stats : Bool
  pub is_regular : Bool
  pub removes : Bool

pub data ImportError : Type 0 where
  empty_line multi_line padded_line no_at_sign : ImportError
  lock_failed read_failed write_failed stat_failed remove_failed : ImportError

-- `validate`; `none` is the nil error.
unfoldable pub validate : Text → Option ImportError
unfolding contains_any trim_space has_prefix equal
validate line =
    if is_nil line || is_nil (trim_space line)
    then some empty_line
    else if contains_any line (codes "\r\n")
    then some multi_line
    else if not (equal line (trim_space line))
    then some padded_line
    else if not (has_prefix line (codes "@"))
    then some no_at_sign
    else none

-- What `read` returns.
abbrev pub text_of : File → Text
text_of none = []
text_of (some s) = s

-- The text that `Register` writes; `none` where the import is there.
unfoldable pub added : Text → Text → Option Text
unfolding split_keep_ends join_lines appended present
added import_line s =
    let lines = split_keep_ends s in
    if present lines import_line
    then none
    else some (join_lines (lines ++ appended lines import_line ∷ []))

-- `Register`: the file, whether it was written, and the error.
unfoldable pub register : System → Text → File → File × Bool × Option ImportError
unfolding validate
register sys import_line f = elim (validate import_line) [
  | some e ↦ (f, false, some e)
  | none ↦
      if not sys.locks
      then (f, false, some lock_failed)
      else if not sys.reads
      then (f, false, some read_failed)
      else elim (added import_line (text_of f)) [
        | none ↦ (f, false, none)
        | some next ↦ if sys.writes then (some next, true, none) else (f, false, some write_failed)
      ]
]

-- The text that `prune` writes; `none` where there is nothing to remove.
unfoldable pub pruned : Text → Text → Option Text
unfolding split_keep_ends join_lines remove
pruned import_line s =
    let lines = split_keep_ends s in
    let kept = remove lines import_line in
    if length kept == length lines then none else some (join_lines kept)

-- The end of `prune`, with the text written: the file, whether it was removed, and the error.
unfoldable pub discard : System → Bool → Text → File × Bool × Option ImportError
discard sys discard_empty s =
    if not discard_empty || not (is_nil s)
    then (some s, false, none)
    else if not sys.stats
    then (some s, false, some stat_failed)
    else if not sys.is_regular
    then (some s, false, none)
    else if sys.removes
    then (none, true, none)
    else (some s, false, some remove_failed)

-- `prune`: the file, whether a line was pruned, whether the file was removed, and the error. It is
-- `Prune` with `false` and `PruneAndDiscardEmpty` with `true`.
unfoldable pub prune : System → Bool → Text → File → File × Bool × Bool × Option ImportError
unfolding validate
prune sys discard_empty import_line f = elim (validate import_line) [
  | some e ↦ (f, false, false, some e)
  | none ↦
      if not sys.locks
      then (f, false, false, some lock_failed)
      else if not sys.reads
      then (f, false, false, some read_failed)
      else elim (pruned import_line (text_of f)) [
        | none ↦ (f, false, false, none)
        | some next ↦
            if sys.writes
            then (let (g, gone, e) = discard sys discard_empty next in (g, true, gone, e))
            else (f, false, false, some write_failed)
      ]
]
