-- ===== src/Mcp/Messages/Layout.antt =====
-- The table of messages keeps to the width of a table (internal/mcp/format.go).
use mathlib.Core.Path.{subst}
use beadle.Prelude.{
  ℕ, ◌+◌, ◌-◌, ◌*◌, ◌≤◌, ◌≡◌, ◌∙◌, ap, sym, refl, Bool, true, false, List, [], ◌∷◌, ◌++◌, map, some,
  length, length-append, All, All-map, arith,
}
use beadle.Text.{Text, codes, join}
use beadle.Email.Address.{ParseAddress}
use beadle.Email.Trust.{TrustLevel, trusted}
use beadle.Mcp.Table.{
  spaces, truncate_runes, larger, widen, widen_all, fixed_total, marks, variable_min,
  format_table_with_prefixes,
}
use beadle.Mcp.Table.Widths.{length-spaces, length-truncate_runes}
use beadle.Mcp.Table.Widths.Lines.{
  AreWide, FitsBudget, variable_header, length-map, prefixed_lines-AreWide,
}
use beadle.Mcp.Messages.{
  Summary, columns, marker, sanitize_subject, id_min_slot, trust_icon, format_date_cell,
  left_pad_runes, format_from_cell, slot, sender_address, sender_name, row_of, rows_of, prefixes_of,
  headline, format_messages,
}

-- The cell of the sender fits its column, and holds the address uncut.
length-format_from_cell :
    (name addr : Text) (w : ℕ) → length addr ≤ w → length (format_from_cell name addr w) ≤ w
unfolding format_from_cell
length-format_from_cell name addr w h = ground (
  arith,
  length-truncate_runes name w,
  length-truncate_runes name (w - (length addr + 3)),
  length-append (truncate_runes name (w - (length addr + 3))) (codes " <" ++ (addr ++ codes ">")),
  length-append addr (codes ">"),
)

length-trust_icon : (t : TrustLevel) → length (trust_icon t) ≡ 1
length-trust_icon trusted = refl
length-trust_icon _ = refl

-- The slot is as wide as the widest id, and at least as wide as it starts.
slot-ge : (n : ℕ) (ms : List Summary) → n ≤ slot n ms
unfolding slot
slot-ge n [] = omega arith
slot-ge n (m ∷ ms) = ground (arith, slot-ge (larger n (length m.id)) ms)

slot-bounds : (n : ℕ) (ms : List Summary) → All (λ m. length m.id ≤ slot n ms) ms
unfolding slot
slot-bounds n [] = tt
slot-bounds n (m ∷ ms) =
    (ground (arith, slot-ge (larger n (length m.id)) ms), slot-bounds (larger n (length m.id)) ms)

slot-le : (k n : ℕ) (ms : List Summary) → n ≤ k → All (λ m. length m.id ≤ k) ms → slot n ms ≤ k
unfolding slot
slot-le k n [] h hs = h
slot-le k n (m ∷ ms) h hs = slot-le k (larger n (length m.id)) ms (ground arith) hs.1

length-left_pad_runes : (s : Text) (w : ℕ) → length s ≤ w → length (left_pad_runes s w) ≡ w
unfolding left_pad_runes
length-left_pad_runes s w h =
    ground (arith, length-append (spaces (w - length s)) s, length-spaces (w - length s))

All-mapped {ℓ κ κ'} :
    {A : Type ℓ} {B : Type κ} (P : B → Type κ') (f : A → B) (xs : List A)
    → All (λ x. P (f x)) xs
    → All P (map f xs)
All-mapped P f [] h = tt
All-mapped P f (x ∷ xs) h = (h.0, All-mapped P f xs h.1)

-- A message whose sender's address, date and id are no longer than their columns allow.
pub record FitsRow (parse_address : ParseAddress) (m : Summary) : Type 0 where
  pub address_fits : length (sender_address parse_address m.from) ≤ 37
  pub date_fits : length (format_date_cell m.date) ≤ 6
  pub id_fits : length m.id ≤ 15

-- The widths stay those of the columns, but for that of the subject.
abbrev IsColumns : List ℕ → Type 0
IsColumns ws = (s : ℕ) × (ws ≡ 1 ∷ 37 ∷ 6 ∷ 1 ∷ s ∷ [])

larger-left : (a b : ℕ) → b ≤ a → larger a b ≡ a
larger-left a b h = ground arith

length-marker : (unread : Bool) → length (marker unread) ≤ 1
length-marker true = omega arith
length-marker false = omega arith

module _ (parse_address : ParseAddress) where
  widen-row_of :
      (s : ℕ) (m : Summary)
      → FitsRow parse_address m
      → IsColumns (widen (1 ∷ 37 ∷ 6 ∷ 1 ∷ s ∷ []) (row_of parse_address m))
  unfolding widen row_of
  widen-row_of s m h = (
    larger s (length (sanitize_subject m.subject)),
    rw (
      larger-left 1 (length (marker m.unread)) (length-marker m.unread),
      larger-left 37 _
          (length-format_from_cell (sender_name parse_address m.from) _ 37 h.address_fits),
      larger-left 6 _ h.date_fits,
      larger-left 1 (length (trust_icon m.trust_level))
          (omega (arith, length-trust_icon m.trust_level)),
    ),
  )

  widen_all-rows_of :
      (ms : List Summary) (s : ℕ)
      → All (FitsRow parse_address) ms
      → IsColumns (widen_all (1 ∷ 37 ∷ 6 ∷ 1 ∷ s ∷ []) (rows_of parse_address ms))
  unfolding widen_all
  widen_all-rows_of [] s h = (s, refl)
  widen_all-rows_of (m ∷ ms) s h =
      let (t, e) = widen-row_of s m h.0 in
      subst (λ ws. IsColumns (widen_all ws (rows_of parse_address ms))) (sym e)
        (widen_all-rows_of ms t h.1)

  columns-FitsBudget :
      (ms : List Summary) (w : ℕ)
      → w ≤ 15
      → All (FitsRow parse_address) ms
      → FitsBudget columns (rows_of parse_address ms) w
  unfolding FitsBudget fixed_total marks variable_min variable_header
  columns-FitsBudget ms w n h =
      let (t, e) = widen_all-rows_of ms 10 h in
      subst (λ ws. w + 2 * 5 + fixed_total (marks columns) ws + larger 10 7 ≤ 80) (sym e)
        (omega arith)

  -- For messages whose ids have at most 15 runes, whose dates have at most 6 and whose senders'
  -- addresses have at most 37, the table has a header and a row for each message, joined by newlines,
  -- below a line with the counts; and the header and each row have exactly 80 runes, whatever the
  -- names and the subjects are. A newline in a sender's name stays in its row and counts as a rune, so
  -- that such a row is shown on two shorter lines.
  pub format_messages-AreWide :
      (m : Summary) (ms : List Summary) (total : ℕ)
      → All (FitsRow parse_address) (m ∷ ms)
      → (lines : List Text) × (format_messages parse_address (m ∷ ms) total
          ≡ some (headline (length (m ∷ ms)) total ++ join (codes "\n") lines))
        × (length lines ≡ length (m ∷ ms) + 1)
        × AreWide 80 lines
  unfolding format_messages format_table_with_prefixes
  format_messages-AreWide m ms total h =
      let (lines, made, n, wide) =
        prefixed_lines-AreWide columns (rows_of parse_address all) width refl
          (columns-FitsBudget all width narrow h) (prefixes_of all)
          (omega (arith, slot-ge id_min_slot all))
          (All-mapped _ _ all
            (All-map _ _ (λ k. length-left_pad_runes k.id width) all (slot-bounds id_min_slot all)))
          (length-map _ all ∙ sym (length-map (row_of parse_address) all)) in
      (lines, rw made, n ∙ ap (λ k. k + 1) (length-map (row_of parse_address) all), wide)
    where
      all : List Summary
      all = m ∷ ms

      width : ℕ
      width = slot id_min_slot all

      narrow : width ≤ 15
      narrow = slot-le 15 id_min_slot all (omega arith) (All-map _ _ (λ k f. f.id_fits) all h)
