-- ===== src/Mcp/Table.antt =====
-- internal/mcp/table.go: tables of a fixed width for the output of the tools. A width is counted in
-- runes. Where the code's subtraction would go below zero, the result is replaced by a column's
-- smallest width anyway.
pub mod Widths
use beadle.Prelude.{
  ℕ, zero, suc, ◌+◌, ◌-◌, ◌*◌, Bool, true, false, ◌||◌, List, [], ◌∷◌, ◌++◌, map, Option, none,
  some, if◌then◌else◌, any, is_nil, length, take, ltb, leb, ◌==◌,
}
use beadle.Text.{Text, codes, join}

abbrev pub table_width : ℕ
table_width = 80

abbrev pub col_sep : Text
col_sep = codes "  "

abbrev pub header_prefix : Text
header_prefix = 0x25b6 ∷ codes "  "

abbrev pub row_prefix : Text
row_prefix = codes "   "

abbrev pub prefix_len : ℕ
prefix_len = 3

pub record Column : Type 0 where
  pub header : Text
  pub min_width : ℕ
  pub is_variable : Bool

-- A row's cells; a missing cell is empty.
abbrev pub Row : Type 0
Row = List Text

abbrev pub spaces : ℕ → Text
spaces zero = []
spaces (suc n) = b' ' ∷ spaces n

-- `pad`.
unfoldable pub pad : Text → ℕ → Text
pad s w = if leb w (length s) then s else s ++ spaces (w - length s)

-- `truncateRunes`.
unfoldable pub truncate_runes : Text → ℕ → Text
truncate_runes s max_runes =
    if max_runes == 0
    then []
    else if leb (length s) max_runes
    then s
    else take (max_runes - 1) s ++ 0x2026 ∷ []

abbrev pub larger : ℕ → ℕ → ℕ
larger a b = if ltb a b then b else a

-- The widths that the headers ask for, and those that a row asks for on top.
abbrev pub header_width : Column → ℕ
header_width c = larger c.min_width (length c.header)

unfoldable pub widen : List ℕ → Row → List ℕ
widen [] row = []
widen (w ∷ ws) [] = w ∷ ws
widen (w ∷ ws) (cell ∷ row) = larger w (length cell) ∷ widen ws row

unfoldable pub widen_all : List ℕ → List Row → List ℕ
unfolding widen
widen_all ws [] = ws
widen_all ws (row ∷ rows) = widen_all (widen ws row) rows

abbrev pub content_widths : List Column → List Row → List ℕ
content_widths cols rows = widen_all (map header_width cols) rows

-- `i == varIdx` for each column: true at the first variable one.
unfoldable pub marks : List Column → List Bool
marks [] = []
marks (c ∷ cols) =
    let rest = marks cols in
    elim c.is_variable [ true ↦ true ∷ map (λ d. false) cols | false ↦ false ∷ rest ]

abbrev pub has_variable : List Column → Bool
has_variable cols = any (λ c. c.is_variable) cols

-- `fixedTotal`.
unfoldable pub fixed_total : List Bool → List ℕ → ℕ
fixed_total [] ws = 0
fixed_total (m ∷ ms) [] = 0
fixed_total (m ∷ ms) (w ∷ ws) = (if m then 0 else w) + fixed_total ms ws

-- The smallest width of the variable column.
unfoldable pub variable_min : List Column → ℕ
variable_min [] = 0
variable_min (c ∷ cols) =
    let rest = variable_min cols in if c.is_variable then c.min_width else rest

-- What is left for the variable column beside a prefix and separators of this width.
unfoldable pub budget : ℕ → List Column → List ℕ → ℕ
unfolding fixed_total variable_min marks
budget taken cols ws =
    larger (table_width - taken - fixed_total (marks cols) ws) (variable_min cols)

-- The variable column's width is set by a function of its own width.
unfoldable pub set_variable : (ℕ → ℕ) → List Bool → List ℕ → List ℕ
set_variable f [] ws = ws
set_variable f (m ∷ ms) [] = []
set_variable f (m ∷ ms) (w ∷ ws) = (if m then f w else w) ∷ set_variable f ms ws

-- The cells of a row: that of the variable column is cut, each is padded to its width.
abbrev pub fit : Bool → ℕ → Text → Text
fit m w cell = pad (if m then truncate_runes cell w else cell) w

unfoldable pub fit_row : List Bool → List ℕ → Row → List Text
unfolding pad truncate_runes
fit_row [] ws row = []
fit_row (m ∷ ms) [] row = []
fit_row (m ∷ ms) (w ∷ ws) [] = fit m w [] ∷ fit_row ms ws []
fit_row (m ∷ ms) (w ∷ ws) (cell ∷ row) = fit m w cell ∷ fit_row ms ws row

-- The cells of the header, which are not cut.
unfoldable pub fit_header : List Column → List ℕ → List Text
unfolding pad
fit_header [] ws = []
fit_header (c ∷ cols) [] = []
fit_header (c ∷ cols) (w ∷ ws) = pad c.header w ∷ fit_header cols ws

-- `formatTable`: its widths, its lines and its text.
unfoldable pub table_widths : List Column → List Row → List ℕ
unfolding widen_all set_variable budget
table_widths cols rows =
    let ws = content_widths cols rows in
    let b = budget (prefix_len + 2 * (length cols - 1)) cols ws in
    set_variable (λ w. if ltb b w then b else w) (marks cols) ws

unfoldable pub table_lines : List Column → List Row → List Text
unfolding fit_header fit_row join
table_lines cols rows =
    let ws = table_widths cols rows in
    (header_prefix ++ join col_sep (fit_header cols ws))
    ∷ map (λ row. row_prefix ++ join col_sep (fit_row (marks cols) ws row)) rows

unfoldable pub format_table : List Column → List Row → Text
unfolding table_lines
format_table cols rows = if is_nil rows then [] else join (codes "\n") (table_lines cols rows)

-- `formatTableWithPrefixes`. A prefix that is missing is the panic.
unfoldable pub prefixed_widths : List Column → List Row → ℕ → List ℕ
unfolding widen_all set_variable budget
prefixed_widths cols rows prefix_width =
    let ws = content_widths cols rows in
    let b = budget (prefix_width + 2 * length cols) cols ws in set_variable (λ w. b) (marks cols) ws

unfoldable pub prefixed_header : List Column → List ℕ → ℕ → Text
unfolding fit_header join
prefixed_header cols ws prefix_width =
    (0x25b6 ∷ spaces (prefix_width - 1)) ++ (col_sep ++ join col_sep (fit_header cols ws))

unfoldable pub prefixed_row : List Column → List ℕ → Row → Text → Text
unfolding fit_row join
prefixed_row cols ws row prefix = prefix ++ (col_sep ++ join col_sep (fit_row (marks cols) ws row))

unfoldable pub prefixed_rows : List Column → List ℕ → List Row → List Text → Option (List Text)
unfolding prefixed_row
prefixed_rows cols ws [] [] = some []
prefixed_rows cols ws [] (p ∷ ps) = none
prefixed_rows cols ws (row ∷ rows) [] = none
prefixed_rows cols ws (row ∷ rows) (p ∷ ps) = elim (prefixed_rows cols ws rows ps) [
  | none ↦ none
  | some lines ↦ some (prefixed_row cols ws row p ∷ lines)
]

unfoldable pub prefixed_lines : List Column → List Row → List Text → ℕ → Option (List Text)
prefixed_lines cols rows prefixes prefix_width =
    let ws = prefixed_widths cols rows prefix_width in
    elim (prefixed_rows cols ws rows prefixes) [
      | none ↦ none
      | some lines ↦ some (prefixed_header cols ws prefix_width ∷ lines)
    ]

unfoldable pub format_table_with_prefixes : List Column → List Row → List Text → ℕ → Option Text
format_table_with_prefixes cols rows prefixes prefix_width =
    if is_nil rows then some [] else elim (prefixed_lines cols rows prefixes prefix_width) [
      | none ↦ none
      | some lines ↦ some (join (codes "\n") lines)
    ]
