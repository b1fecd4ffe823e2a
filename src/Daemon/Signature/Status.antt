-- ===== src/Daemon/Signature/Status.antt =====
-- Which status output of gpg passes for a good signature (internal/daemon/signature.go).
use beadle.Prelude.{
  ◌≡◌, ◌↔◌, inl, inr, refl, Bool, true, false, not, ◌||◌, List, [], ◌∷◌, none, some, any, is_nil,
  arith, Option-cases,
}
use beadle.Text.{Text, codes, equal, drop_prefix, split, fields}
use beadle.Text.Laws.{equal_apart}
use beadle.Daemon.Signature.{
  StatusLines, nothing_noted, note_words, note_line, note_lines, verdict, classify_status_lines,
}

-- The line reports the keyword: it stands first behind the prefix of gpg's status lines.
abbrev first_is : Text → List Text → Bool
first_is k [] = false
first_is k (w ∷ ws) = equal w k

pub reports : Text → Text → Bool
reports k line = elim (drop_prefix line (codes "[GNUPG:] ")) [
  | none ↦ false
  | some rest ↦ first_is k (fields rest)
]

is_noted : Text → Bool
is_noted t = not (is_nil t)

line-is_noted :
    (line rest : Text) → drop_prefix line (codes "[GNUPG:] ") ≡ some rest → is_noted line ≡ true
unfolding drop_prefix is_noted
line-is_noted [] rest h = cc
line-is_noted (c ∷ line) rest h = refl

module _ (s : StatusLines) (line : Text) (noted : is_noted line ≡ true) where
  note_words-good :
      (ws : List Text)
      → is_noted (note_words s line ws).good ≡ (is_noted s.good || first_is (codes "GOODSIG") ws)
  unfolding note_words is_noted
  note_words-good [] = ground arith
  note_words-good (w ∷ ws) = ground arith

  note_words-no_pubkey :
      (ws : List Text)
      → is_noted (note_words s line ws).no_pubkey
        ≡ (is_noted s.no_pubkey || first_is (codes "NO_PUBKEY") ws)
  unfolding note_words is_noted
  note_words-no_pubkey [] = ground arith
  note_words-no_pubkey (w ∷ ws) = ground (
    arith,
    equal_apart w (codes "GOODSIG") (codes "NO_PUBKEY") (unfold equal in refl),
    equal_apart w (codes "EXPKEYSIG") (codes "NO_PUBKEY") (unfold equal in refl),
  )

module _ (s : StatusLines) (line : Text) where
  note_line-good :
      is_noted (note_line s line).good ≡ (is_noted s.good || reports (codes "GOODSIG") line)
  unfolding note_line reports
  note_line-good = elim (Option-cases (drop_prefix line (codes "[GNUPG:] "))) [
    | inl other ↦ rw (other, note_line, reports) (ground arith)
    | inr (rest, mine) ↦
        rw (mine, note_line, reports)
          (note_words-good s line (line-is_noted line rest mine) (fields rest))
  ]

  note_line-no_pubkey :
      is_noted (note_line s line).no_pubkey
      ≡ (is_noted s.no_pubkey || reports (codes "NO_PUBKEY") line)
  unfolding note_line reports
  note_line-no_pubkey = elim (Option-cases (drop_prefix line (codes "[GNUPG:] "))) [
    | inl other ↦ rw (other, note_line, reports) (ground arith)
    | inr (rest, mine) ↦
        rw (mine, note_line, reports)
          (note_words-no_pubkey s line (line-is_noted line rest mine) (fields rest))
  ]

note_lines-noted :
    (lines : List Text) (s : StatusLines)
    → (is_noted (note_lines s lines).good
        ≡ (is_noted s.good || any (reports (codes "GOODSIG")) lines))
      × (is_noted (note_lines s lines).no_pubkey
          ≡ (is_noted s.no_pubkey || any (reports (codes "NO_PUBKEY")) lines))
unfolding note_lines
note_lines-noted [] s = ground arith
note_lines-noted (line ∷ lines) s = ground (
  arith,
  note_lines-noted lines (note_line s line),
  note_line-good s line,
  note_line-no_pubkey s line,
)

verdict-eq-none :
    (s : StatusLines)
    → (verdict s ≡ none) ↔ ((is_noted s.good ≡ true) × (is_noted s.no_pubkey ≡ false))
unfolding verdict is_noted
verdict-eq-none s = ground arith

-- gpg's output passes exactly if a line of it reports a good signature and none a missing key,
-- whatever the other lines report.
pub classify_status_lines_iff :
    (output : Text)
    → (classify_status_lines output ≡ none) ↔ (
        (any (reports (codes "GOODSIG")) (split b'\n' output) ≡ true)
        × (any (reports (codes "NO_PUBKEY")) (split b'\n' output) ≡ false))
unfolding classify_status_lines is_noted
classify_status_lines_iff output = ground (
  arith,
  note_lines-noted (split b'\n' output) nothing_noted,
  verdict-eq-none (note_lines nothing_noted (split b'\n' output)),
)
