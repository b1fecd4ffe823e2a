-- ===== src/Mcp/Table/Widths/Lines.antt =====
-- Every line of a table with prefixes has exactly the width of a table (internal/mcp/table.go).
use beadle.Prelude.{
  ℕ, suc, ◌+◌, ◌-◌, ◌*◌, ◌≤◌, ◌≡◌, ◌∙◌, ap, sym, inl, inr, refl, Bool, true, false, List, [], ◌∷◌,
  ◌++◌, map, some, if◌then◌else◌, length, length-append, All, Bool-cases, arith,
}
use beadle.Text.{Text, join}
use beadle.Mcp.Table.{
  Column, Row, spaces, larger, header_width, widen, widen_all, content_widths, marks, has_variable,
  fixed_total, variable_min, budget, set_variable, fit_row, fit_header, col_sep, table_width,
  prefixed_widths, prefixed_header, prefixed_row, prefixed_rows, prefixed_lines,
}
use beadle.Mcp.Table.Widths.{
  total, length-spaces, Covers, CoversFixed, HasWidths, fit_row-HasWidths, fit_header-HasWidths,
  length-join, Covers-widen_all, widen_all-Covers, header_width-Covers,
}

-- The header of the variable column.
unfoldable pub variable_header : List Column → Text
variable_header [] = []
variable_header (c ∷ cols) =
    let rest = variable_header cols in if c.is_variable then c.header else rest

pub length-map {ℓ κ} :
    {A : Type ℓ} {B : Type κ} (f : A → B) (xs : List A) → length (map f xs) ≡ length xs
length-map f [] = refl
length-map f (x ∷ xs) = ap suc (length-map f xs)

length-widen : (ws : List ℕ) (row : Row) → length (widen ws row) ≡ length ws
unfolding widen
length-widen [] row = refl
length-widen (w ∷ ws) [] = refl
length-widen (w ∷ ws) (cell ∷ row) = ap suc (length-widen ws row)

length-widen_all : (ws : List ℕ) (rows : List Row) → length (widen_all ws rows) ≡ length ws
unfolding widen_all
length-widen_all ws [] = refl
length-widen_all ws (row ∷ rows) = length-widen_all (widen ws row) rows ∙ length-widen ws row

length-marks : (cols : List Column) → length (marks cols) ≡ length cols
unfolding marks
length-marks [] = refl
length-marks (c ∷ cols) = elim (Bool-cases c.is_variable) [
  | inl yes' ↦ rw yes' (ap suc (length-map (λ d. false) cols))
  | inr no' ↦ rw no' (ap suc (length-marks cols))
]

module _ (f : ℕ → ℕ) where
  length-set_variable : (ms : List Bool) (ws : List ℕ) → length (set_variable f ms ws) ≡ length ws
  unfolding set_variable
  length-set_variable [] ws = refl
  length-set_variable (m ∷ ms) [] = refl
  length-set_variable (m ∷ ms) (w ∷ ws) = ap suc (length-set_variable ms ws)

  set_variable-CoversFixed :
      (ms : List Bool) (ws : List ℕ) (row : Row)
      → Covers ws row
      → CoversFixed ms (set_variable f ms ws) row
  unfolding set_variable
  set_variable-CoversFixed [] ws row h = tt
  set_variable-CoversFixed (m ∷ ms) [] row h = tt
  set_variable-CoversFixed (m ∷ ms) (w ∷ ws) [] h = tt
  set_variable-CoversFixed (true ∷ ms) (w ∷ ws) (cell ∷ row) h =
      (omega arith, set_variable-CoversFixed ms ws row h.1)
  set_variable-CoversFixed (false ∷ ms) (w ∷ ws) (cell ∷ row) h =
      (h.0, set_variable-CoversFixed ms ws row h.1)

  set_variable-none :
      (cols : List Column) (ws : List ℕ) → set_variable f (map (λ d. false) cols) ws ≡ ws
  unfolding set_variable
  set_variable-none [] ws = refl
  set_variable-none (c ∷ cols) [] = refl
  set_variable-none (c ∷ cols) (w ∷ ws) = ap (◌∷◌ w) (set_variable-none cols ws)

fixed_total-none :
    (cols : List Column) (ws : List ℕ)
    → length cols ≡ length ws
    → fixed_total (map (λ d. false) cols) ws ≡ total ws
unfolding fixed_total
fixed_total-none [] [] e = refl
fixed_total-none [] (w ∷ ws) e = absurd (omega arith)
fixed_total-none (c ∷ cols) [] e = absurd (omega arith)
fixed_total-none (c ∷ cols) (w ∷ ws) e = omega (arith, fixed_total-none cols ws (omega arith))

module _ (b : ℕ) where
  -- With the variable column at `b`, the widths add up to `b` and the others.
  total-set_variable :
      (cols : List Column) (ws : List ℕ)
      → length cols ≡ length ws
      → has_variable cols ≡ true
      → total (set_variable (λ w. b) (marks cols) ws) ≡ fixed_total (marks cols) ws + b
  unfolding set_variable fixed_total marks
  total-set_variable [] ws e v = cc
  total-set_variable (c ∷ cols) [] e v = absurd (omega arith)
  total-set_variable (c ∷ cols) (w ∷ ws) e v = elim (Bool-cases c.is_variable) [
    | inl yes' ↦
        rw (yes', set_variable-none (λ w. b) cols ws)
          (omega (arith, fixed_total-none cols ws (omega arith)))
    | inr no' ↦ rw no' (omega (arith, total-set_variable cols ws (omega arith) (ground arith)))
  ]

  set_variable-Covers :
      (cols : List Column) (ws : List ℕ)
      → Covers ws (map (λ c. c.header) cols)
      → length (variable_header cols) ≤ b
      → Covers (set_variable (λ w. b) (marks cols) ws) (map (λ c. c.header) cols)
  unfolding set_variable marks variable_header
  set_variable-Covers [] ws h k = h
  set_variable-Covers (c ∷ cols) [] h k = elim (Bool-cases c.is_variable) [
    | inl yes' ↦ rw yes' tt
    | inr no' ↦ rw no' tt
  ]
  set_variable-Covers (c ∷ cols) (w ∷ ws) h k = elim (Bool-cases c.is_variable) [
    | inl yes' ↦ rw (yes', set_variable-none (λ w. b) cols ws) (ground arith, h.1)
    | inr no' ↦ rw no' (h.0, set_variable-Covers cols ws h.1 (ground arith))
  ]

-- The separators between the cells of a line, in a form for lines of any number of cells.
length-join_cells :
    (cells : List Text) (ws : List ℕ)
    → 1 ≤ length ws
    → HasWidths cells ws
    → length (join col_sep cells) + 2 ≡ total ws + 2 * length ws
length-join_cells cells [] n h = absurd (omega arith)
length-join_cells cells (w ∷ ws) n h = omega (arith, length-join cells w ws h)

-- The variable column's smallest width and its header fit beside the prefix, the separators and the
-- other columns.
unfoldable pub FitsBudget : List Column → List Row → ℕ → Type 0
FitsBudget cols rows prefix_width =
    prefix_width
      + 2 * length cols
      + fixed_total (marks cols) (content_widths cols rows)
      + larger (variable_min cols) (length (variable_header cols))
    ≤ table_width

abbrev pub AreWide : ℕ → List Text → Type 0
AreWide n lines = All (λ l. length l ≡ n) lines

module _ (cols : List Column) (rows : List Row) (prefix_width : ℕ)
    (variable : has_variable cols ≡ true) (fits : FitsBudget cols rows prefix_width) where
  abbrev content : List ℕ
  content = content_widths cols rows

  abbrev room : ℕ
  room = budget (prefix_width + 2 * length cols) cols content

  abbrev final : List ℕ
  final = set_variable (λ w. room) (marks cols) content

  length-content : length content ≡ length cols
  length-content = length-widen_all (map header_width cols) rows ∙ length-map header_width cols

  some_column : 1 ≤ length cols
  some_column = at_least cols variable
    where
      at_least : (cs : List Column) → has_variable cs ≡ true → 1 ≤ length cs
      at_least [] h = cc
      at_least (c ∷ cs) h = omega arith

  -- The widths, the separators and the prefix fill the line.
  total-final : prefix_width + 2 * length cols + total final ≡ table_width
  unfolding budget FitsBudget
  total-final = ground (arith, total-set_variable room cols content (sym length-content) variable)

  header-fits : length (variable_header cols) ≤ room
  unfolding budget FitsBudget
  header-fits = ground arith

  length-line :
      (prefix : Text) (cells : List Text)
      → length prefix ≡ prefix_width
      → HasWidths cells final
      → length (prefix ++ (col_sep ++ join col_sep cells)) ≡ table_width
  length-line prefix cells p h = omega (
    arith,
    length-append prefix (col_sep ++ join col_sep cells),
    length-append col_sep (join col_sep cells),
    length-join_cells cells final
        (omega (
          arith,
          length-set_variable (λ w. room) (marks cols) content,
          length-content,
          some_column,
        ))
        h,
    length-set_variable (λ w. room) (marks cols) content,
    length-content,
    total-final,
  )

  length-prefixed_header :
      1 ≤ prefix_width → length (prefixed_header cols final prefix_width) ≡ table_width
  unfolding prefixed_header
  length-prefixed_header h =
      length-line (0x25b6 ∷ spaces (prefix_width - 1)) (fit_header cols final)
        (omega (arith, length-spaces (prefix_width - 1)))
        (fit_header-HasWidths cols final
          (sym (length-set_variable (λ w. room) (marks cols) content ∙ length-content))
          (set_variable-Covers room cols content
            (Covers-widen_all (map header_width cols) rows (map (λ c. c.header) cols)
              (header_width-Covers cols))
            header-fits))

  length-prefixed_row :
      (row : Row) (prefix : Text)
      → Covers content row
      → length prefix ≡ prefix_width
      → length (prefixed_row cols final row prefix) ≡ table_width
  unfolding prefixed_row
  length-prefixed_row row prefix h p = length-line prefix (fit_row (marks cols) final row) p (
      fit_row-HasWidths (marks cols) final row
        (omega (
          arith,
          length-marks cols,
          length-set_variable (λ w. room) (marks cols) content,
          length-content,
        ))
        (set_variable-CoversFixed (λ w. room) (marks cols) content row h))

  prefixed_rows-AreWide :
      (rs : List Row) (ps : List Text)
      → All (Covers content) rs
      → AreWide prefix_width ps
      → length ps ≡ length rs
      → (lines : List Text) × (prefixed_rows cols final rs ps ≡ some lines)
        × (length lines ≡ length rs)
        × AreWide table_width lines
  unfolding prefixed_rows
  prefixed_rows-AreWide [] [] h k e = ([], refl, refl, tt)
  prefixed_rows-AreWide [] (p ∷ ps) h k e = absurd (omega arith)
  prefixed_rows-AreWide (r ∷ rs) [] h k e = absurd (omega arith)
  prefixed_rows-AreWide (r ∷ rs) (p ∷ ps) h k e =
      let (lines, made, n, wide) = prefixed_rows-AreWide rs ps h.1 k.1 (omega arith) in
      (
        prefixed_row cols final r p ∷ lines,
        rw made,
        ap suc n,
        (length-prefixed_row r p h.0 k.0, wide),
      )

  -- With one prefix of the given width for each row, and where the variable column fits the budget,
  -- a table has a header and a line for each row, and each of them has exactly 80 runes, whatever
  -- the cells hold.
  pub prefixed_lines-AreWide :
      (prefixes : List Text)
      → 1 ≤ prefix_width
      → AreWide prefix_width prefixes
      → length prefixes ≡ length rows
      → (lines : List Text) × (prefixed_lines cols rows prefixes prefix_width ≡ some lines)
        × (length lines ≡ length rows + 1)
        × AreWide table_width lines
  unfolding prefixed_lines prefixed_widths
  prefixed_lines-AreWide prefixes positive wide paired =
      let (lines, made, n, all) = prefixed_rows-AreWide rows prefixes covered wide paired in
      (
        prefixed_header cols final prefix_width ∷ lines,
        rw (made, prefixed_lines),
        omega arith,
        (length-prefixed_header positive, all),
      )
    where
      covered : All (Covers content) rows
      covered = widen_all-Covers (map header_width cols) rows
