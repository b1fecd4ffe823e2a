-- ===== src/ClaudeMd/Fences.antt =====
-- Which lines of a file stand outside its code blocks (internal/claudemd/imports.go).
use beadle.Prelude.{
  ℕ, suc, Bool, false, not, ◌&&◌, ◌||◌, List, [], ◌∷◌, Option, none, some, if◌then◌else◌, any, ltb,
  leb, ◌==◌,
}
use beadle.Text.{Text, equal}
use beadle.ClaudeMd.Lines.{trim_terminator}

abbrev pub starts_tab : Text → Bool
starts_tab [] = false
starts_tab (c ∷ s) = c == b'\t'

-- The spaces that `strings.TrimLeft(s, " ")` takes away, and what it leaves.
unfoldable pub lead : Text → ℕ
lead [] = 0
lead (c ∷ s) = let more = lead s in if c == b' ' then suc more else 0

unfoldable pub trim_left_spaces : Text → Text
trim_left_spaces [] = []
trim_left_spaces (c ∷ s) = let rest = trim_left_spaces s in if c == b' ' then rest else c ∷ s

-- The length of the run of one rune that the text begins with.
unfoldable pub run_length : ℕ → Text → ℕ
run_length marker [] = 0
run_length marker (c ∷ s) = let more = run_length marker s in if c == marker then suc more else 0

abbrev pub fence_of : Text → Option (ℕ × ℕ)
fence_of [] = none
fence_of (c ∷ s) =
    let run = run_length c (c ∷ s) in
    if c == b'`' || c == b'~' then if ltb run 3 then none else some (c, run) else none

-- `parseFence`: the marker and its run.
unfoldable pub parse_fence : Text → Option (ℕ × ℕ)
unfolding lead trim_left_spaces run_length
parse_fence body =
    if starts_tab body
    then none
    else if leb 4 (lead body)
    then none
    else fence_of (trim_left_spaces body)

-- `isIndented`.
unfoldable pub is_indented : Text → Bool
unfolding lead
is_indented body = starts_tab body || leb 4 (lead body)

-- The variables `open`, `openMarker` and `openLen`; `none` where `open < 0`.
pub record Opener : Type 0 where
  pub at : ℕ
  pub marker : ℕ
  pub run : ℕ

abbrev pub closes : Opener → Option (ℕ × ℕ) → Bool
closes o none = false
closes o (some (marker, run)) = marker == o.marker && leb o.run run

abbrev pub opens : ℕ → Option (ℕ × ℕ) → Option Opener
opens i none = none
opens i (some (m, r)) = some (record { at = i; marker = m; run = r })

-- The loop of `fencedRanges` from the line `i` on.
unfoldable pub fenced_from : ℕ → Option Opener → List Text → List (ℕ × ℕ)
unfolding parse_fence
fenced_from i state [] = []
fenced_from i none (b ∷ bodies) = fenced_from (suc i) (opens i (parse_fence b)) bodies
fenced_from i (some o) (b ∷ bodies) =
    let closed = (o.at, i) ∷ fenced_from (suc i) none bodies in
    let still = fenced_from (suc i) (some o) bodies in
    if closes o (parse_fence b) then closed else still

abbrev pub bodies_of : List Text → List Text
bodies_of [] = []
bodies_of (l ∷ ls) = trim_terminator l ∷ bodies_of ls

-- The map `inside`: the content of a block and its closing line.
abbrev pub is_inside : List (ℕ × ℕ) → ℕ → Bool
is_inside ranges i = any (λ (r : ℕ × ℕ). ltb r.0 i && leb i r.1) ranges

-- `scanTopLevel` calls its function on the line `i` with this body, and that finds the import.
unfoldable pub is_match : List (ℕ × ℕ) → Text → ℕ → Text → Bool
unfolding is_indented equal
is_match ranges import_line i body =
    not (is_inside ranges i || is_indented body) && equal body import_line

unfoldable pub present_from : List (ℕ × ℕ) → Text → ℕ → List Text → Bool
unfolding is_match
present_from ranges import_line i [] = false
present_from ranges import_line i (b ∷ bodies) =
    is_match ranges import_line i b || present_from ranges import_line (suc i) bodies

-- `present`.
unfoldable pub present : List Text → Text → Bool
unfolding present_from fenced_from trim_terminator
present lines import_line =
    let bodies = bodies_of lines in present_from (fenced_from 0 none bodies) import_line 0 bodies

unfoldable pub remove_from : List (ℕ × ℕ) → Text → ℕ → List Text → List Text
unfolding is_match trim_terminator
remove_from ranges import_line i [] = []
remove_from ranges import_line i (l ∷ ls) =
    let rest = remove_from ranges import_line (suc i) ls in
    if is_match ranges import_line i (trim_terminator l) then rest else l ∷ rest

-- `remove`.
unfoldable pub remove : List Text → Text → List Text
unfolding remove_from fenced_from trim_terminator
remove lines import_line = remove_from (fenced_from 0 none (bodies_of lines)) import_line 0 lines
