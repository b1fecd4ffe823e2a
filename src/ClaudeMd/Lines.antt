-- ===== src/ClaudeMd/Lines.antt =====
-- The lines of a file with their terminators (internal/claudemd/imports.go).
use beadle.Prelude.{
  ℕ, Bool, false, not, ◌&&◌, ◌||◌, List, [], ◌∷◌, ◌++◌, if◌then◌else◌, is_nil, ◌==◌,
}
use beadle.Text.{Text, codes, has_suffix}

abbrev pub is_break : ℕ → Bool
is_break c = c == b'\n' || c == b'\r'

abbrev pub starts_feed : Text → Bool
starts_feed [] = false
starts_feed (c ∷ s) = c == b'\n'

-- A line ends at the rune `c` that `s` follows: at a feed, or at a return with no feed behind it.
abbrev pub ends_line : ℕ → Text → Bool
ends_line c s = c == b'\n' || (c == b'\r' && not (starts_feed s))

-- A rune put before the first of the lines.
abbrev pub glue : ℕ → List Text → List Text
glue c [] = (c ∷ []) ∷ []
glue c (l ∷ ls) = (c ∷ l) ∷ ls

-- `splitKeepEnds`.
unfoldable pub split_keep_ends : Text → List Text
split_keep_ends [] = []
split_keep_ends (c ∷ s) =
    let rest = split_keep_ends s in if ends_line c s then (c ∷ []) ∷ rest else glue c rest

-- `strings.Join(lines, "")`.
unfoldable pub join_lines : List Text → Text
join_lines [] = []
join_lines (l ∷ ls) = l ++ join_lines ls

-- `terminator`.
unfoldable pub terminator : Text → Text
unfolding has_suffix
terminator line =
    if has_suffix line (codes "\r\n")
    then codes "\r\n"
    else if has_suffix line (codes "\n")
    then codes "\n"
    else if has_suffix line (codes "\r")
    then codes "\r"
    else []

-- `trimTerminator`, a `strings.TrimRight`.
unfoldable pub trim_terminator : Text → Text
trim_terminator [] = []
trim_terminator (c ∷ l) =
    let rest = trim_terminator l in if is_nil rest && is_break c then [] else c ∷ rest

-- `hostEOL`.
unfoldable pub host_eol : List Text → Text
unfolding terminator
host_eol [] = codes "\n"
host_eol (l ∷ ls) = let later = host_eol ls in if is_nil (terminator l) then later else terminator l

-- The terminator of the last line is missing.
unfoldable pub is_open : List Text → Bool
unfolding terminator
is_open [] = false
is_open (l ∷ []) = is_nil (terminator l)
is_open (l ∷ k ∷ ls) = is_open (k ∷ ls)

-- `appended`.
unfoldable pub appended : List Text → Text → Text
unfolding is_open host_eol
appended lines import_line =
    (if is_open lines then host_eol lines else []) ++ (import_line ++ host_eol lines)
