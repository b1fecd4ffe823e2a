-- ===== src/Mcp/Table/Widths.antt =====
-- How wide the lines of a table are (internal/mcp/table.go).
pub mod Lines
use beadle.Prelude.{
  ℕ, zero, suc, ◌+◌, ◌-◌, ◌*◌, ◌≤◌, ◌≡◌, refl, ap, Bool, true, false, ◌||◌, List, [], ◌∷◌, ◌++◌,
  map, if◌then◌else◌, any, length, take, length-append, length-take-le, ltb, leb, All, All-map,
  arith,
}
use beadle.Text.{Text, join}
use beadle.Mcp.Table.{
  Column, Row, spaces, pad, truncate_runes, larger, header_width, widen, widen_all, marks,
  has_variable, fixed_total, set_variable, fit, fit_row, fit_header, col_sep,
}

abbrev pub total : List ℕ → ℕ
total [] = 0
total (w ∷ ws) = w + total ws

pub length-spaces : (n : ℕ) → length (spaces n) ≡ n
length-spaces zero = refl
length-spaces (suc n) = ap suc (length-spaces n)

length-pad : (s : Text) (w : ℕ) → length s ≤ w → length (pad s w) ≡ w
unfolding pad
length-pad s w h =
    ground (arith, length-append s (spaces (w - length s)), length-spaces (w - length s))

pub length-truncate_runes : (s : Text) (w : ℕ) → length (truncate_runes s w) ≤ w
unfolding truncate_runes
length-truncate_runes s w =
    ground (arith, length-append (take (w - 1) s) (0x2026 ∷ []), length-take-le (w - 1) s)

-- Each cell of the row has at most the width of its column.
abbrev pub Covers : List ℕ → Row → Type 0
Covers [] row = Unit
Covers (w ∷ ws) [] = Unit
Covers (w ∷ ws) (cell ∷ row) = (length cell ≤ w) × Covers ws row

-- The same, without the variable column.
abbrev pub CoversFixed : List Bool → List ℕ → Row → Type 0
CoversFixed [] ws row = Unit
CoversFixed (m ∷ ms) [] row = Unit
CoversFixed (m ∷ ms) (w ∷ ws) [] = Unit
CoversFixed (m ∷ ms) (w ∷ ws) (cell ∷ row) =
    ((if m then 0 else length cell) ≤ w) × CoversFixed ms ws row

-- The cells have exactly these widths.
abbrev pub HasWidths : List Text → List ℕ → Type 0
HasWidths [] [] = Unit
HasWidths [] (w ∷ ws) = ⊥
HasWidths (c ∷ cs) [] = ⊥
HasWidths (c ∷ cs) (w ∷ ws) = (length c ≡ w) × HasWidths cs ws

length-fit :
    (m : Bool) (w : ℕ) (cell : Text)
    → (if m then 0 else length cell) ≤ w
    → length (fit m w cell) ≡ w
length-fit true w cell h = length-pad (truncate_runes cell w) w (length-truncate_runes cell w)
length-fit false w cell h = length-pad cell w h

none_missing : (ms : List Bool) (ws : List ℕ) → CoversFixed ms ws []
none_missing [] ws = tt
none_missing (m ∷ ms) [] = tt
none_missing (m ∷ ms) (w ∷ ws) = tt

pub fit_row-HasWidths :
    (ms : List Bool) (ws : List ℕ) (row : Row)
    → length ms ≡ length ws
    → CoversFixed ms ws row
    → HasWidths (fit_row ms ws row) ws
unfolding fit_row
fit_row-HasWidths [] [] row e h = tt
fit_row-HasWidths [] (w ∷ ws) row e h = absurd (omega arith)
fit_row-HasWidths (m ∷ ms) [] row e h = absurd (omega arith)
fit_row-HasWidths (m ∷ ms) (w ∷ ws) [] e h = (
  length-fit m w [] (ground arith),
  fit_row-HasWidths ms ws [] (omega arith) (none_missing ms ws),
)
fit_row-HasWidths (m ∷ ms) (w ∷ ws) (cell ∷ row) e h =
    (length-fit m w cell h.0, fit_row-HasWidths ms ws row (omega arith) h.1)

pub fit_header-HasWidths :
    (cols : List Column) (ws : List ℕ)
    → length cols ≡ length ws
    → Covers ws (map (λ c. c.header) cols)
    → HasWidths (fit_header cols ws) ws
unfolding fit_header
fit_header-HasWidths [] [] e h = tt
fit_header-HasWidths [] (w ∷ ws) e h = absurd (omega arith)
fit_header-HasWidths (c ∷ cols) [] e h = absurd (omega arith)
fit_header-HasWidths (c ∷ cols) (w ∷ ws) e h =
    (length-pad c.header w h.0, fit_header-HasWidths cols ws (omega arith) h.1)

-- A line of cells is as long as their widths and the separators between them.
pub length-join :
    (cells : List Text) (w : ℕ) (ws : List ℕ)
    → HasWidths cells (w ∷ ws)
    → length (join col_sep cells) ≡ total (w ∷ ws) + 2 * length ws
unfolding join
length-join [] w ws h = absurd h
length-join (c ∷ []) w [] h = omega arith
length-join (c ∷ []) w (v ∷ ws) h = absurd h.1
length-join (c ∷ d ∷ cells) w [] h = absurd h.1
length-join (c ∷ d ∷ cells) w (v ∷ ws) h = omega (
  arith,
  length-append c (col_sep ++ join col_sep (d ∷ cells)),
  length-append col_sep (join col_sep (d ∷ cells)),
  length-join (d ∷ cells) v ws h.1,
)

-- The widths cover the headers and every row.
widen-Covers : (ws : List ℕ) (row : Row) → Covers (widen ws row) row
unfolding widen
widen-Covers [] row = tt
widen-Covers (w ∷ ws) [] = tt
widen-Covers (w ∷ ws) (cell ∷ row) = (ground arith, widen-Covers ws row)

Covers-widen : (ws : List ℕ) (row r : Row) → Covers ws r → Covers (widen ws row) r
unfolding widen
Covers-widen [] row r h = tt
Covers-widen (w ∷ ws) [] r h = h
Covers-widen (w ∷ ws) (cell ∷ row) [] h = tt
Covers-widen (w ∷ ws) (cell ∷ row) (c ∷ r) h = (ground arith, Covers-widen ws row r h.1)

pub Covers-widen_all :
    (ws : List ℕ) (rows : List Row) (r : Row) → Covers ws r → Covers (widen_all ws rows) r
unfolding widen_all
Covers-widen_all ws [] r h = h
Covers-widen_all ws (row ∷ rows) r h =
    Covers-widen_all (widen ws row) rows r (Covers-widen ws row r h)

pub widen_all-Covers : (ws : List ℕ) (rows : List Row) → All (Covers (widen_all ws rows)) rows
unfolding widen_all
widen_all-Covers ws [] = tt
widen_all-Covers ws (row ∷ rows) = (
  Covers-widen_all (widen ws row) rows row (widen-Covers ws row),
  widen_all-Covers (widen ws row) rows,
)

pub header_width-Covers :
    (cols : List Column) → Covers (map header_width cols) (map (λ c. c.header) cols)
header_width-Covers [] = tt
header_width-Covers (c ∷ cols) = (ground arith, header_width-Covers cols)
