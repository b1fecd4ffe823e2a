-- ===== src/Email/Reply/Quoted.antt =====
-- That a quote keeps what it quotes (internal/email/reply.go, `QuoteBody`).
use beadle.Prelude.{
  ℕ, ◌≡◌, ◌∙◌, ap, refl, Bool, true, false, List, [], ◌∷◌, ◌++◌, map, is_nil, All, arith, ◌==◌,
}
use beadle.Text.{Text, contains_rune, split, cons_first}
use beadle.Text.Lines.{split_one, split-append}
use beadle.Email.Reply.{quote_line, quote_lines, quoted_text, quote}

-- A quoted line without its mark.
abbrev pub unquote_line : Text → Text
unquote_line [] = []
unquote_line (c ∷ []) = []
unquote_line (c ∷ d ∷ s) = s

abbrev pub IsQuoted : Text → Type 0
IsQuoted [] = true ≡ false
IsQuoted (c ∷ s) = c ≡ b'>'

-- A text without a newline.
abbrev IsLine : Text → Type 0
IsLine s = contains_rune b'\n' s ≡ false

quote_line-IsLine : (s : Text) → IsLine s → IsLine (quote_line s)
quote_line-IsLine [] h = refl
quote_line-IsLine (c ∷ s) h = h

cons_first-IsLine :
    (c : ℕ) (ls : List Text) → (c == b'\n') ≡ false → All IsLine ls → All IsLine (cons_first c ls)
unfolding cons_first
cons_first-IsLine c [] e h = (ground arith, tt)
cons_first-IsLine c (l ∷ ls) e h = (ground (arith, e, h), h.1)

split_step-IsLine :
    (c : ℕ) (ls : List Text) (b : Bool)
    → (c == b'\n') ≡ b
    → All IsLine ls
    → All IsLine (elim b [ true ↦ [] ∷ ls | false ↦ cons_first c ls ])
split_step-IsLine c ls true e h = (refl, h)
split_step-IsLine c ls false e h = cons_first-IsLine c ls e h

split-IsLine : (s : Text) → All IsLine (split b'\n' s)
unfolding split
split-IsLine [] = (refl, tt)
split-IsLine (c ∷ s) = split_step-IsLine c (split b'\n' s) (c == b'\n') refl (split-IsLine s)

-- The lines of a quote are the quoted lines, and an empty rest behind the last newline.
split-quote_lines :
    (ls : List Text) → All IsLine ls → split b'\n' (quote_lines ls) ≡ map quote_line ls ++ [] ∷ []
unfolding quote_lines split
split-quote_lines [] h = refl
split-quote_lines (l ∷ ls) h =
    split-append b'\n' (quote_line l) (quote_lines ls)
    ∙ (rw (split_one b'\n' (quote_line l) (quote_line-IsLine l h.0), split-quote_lines ls h.1) refl)

unquote-quote : (ls : List Text) → map unquote_line (map quote_line ls) ≡ ls
unquote-quote [] = refl
unquote-quote ([] ∷ ls) = ap (◌∷◌ []) (unquote-quote ls)
unquote-quote ((c ∷ l) ∷ ls) = ap (◌∷◌ (c ∷ l)) (unquote-quote ls)

quote_line-IsQuoted : (l : Text) → IsQuoted (quote_line l)
quote_line-IsQuoted [] = refl
quote_line-IsQuoted (c ∷ l) = refl

map-quote_line-IsQuoted : (ls : List Text) → All IsQuoted (map quote_line ls)
map-quote_line-IsQuoted [] = tt
map-quote_line-IsQuoted (l ∷ ls) = (quote_line-IsQuoted l, map-quote_line-IsQuoted ls)

-- A quote of these lines.
pub record IsQuote (text : Text) (lines : List Text) : Type 0 where
  pub marked : List Text
  pub printed : split b'\n' text ≡ marked ++ [] ∷ []
  pub all_marked : All IsQuoted marked
  pub unmarked : map unquote_line marked ≡ lines

-- Where there is something to quote, whatever it holds: every line of the quote begins with ">", and
-- without that mark, and the space behind it, the lines are those of the original, in order; the
-- original taken with "\n" for "\r\n" and without the newlines at its end.
pub quote-IsQuote :
    (original : Text)
    → is_nil (quoted_text original) ≡ false
    → IsQuote (quote original) (split b'\n' (quoted_text original))
unfolding quote
quote-IsQuote original h =
    let lines = split b'\n' (quoted_text original) in
    rw h (record {
      marked = map quote_line lines;
      printed = split-quote_lines lines (split-IsLine (quoted_text original));
      all_marked = map-quote_line-IsQuoted lines;
      unmarked = unquote-quote lines;
    })
