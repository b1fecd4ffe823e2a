-- ===== src/Email/Headers/Lines.antt =====
-- The header lines that a message gets (internal/email/compose.go, internal/email/repotag.go).
use mathlib.Core.List.{append_assoc, append-nil}
use beadle.Prelude.{
  ℕ, ◌≡◌, ◌∙◌, refl, false, List, [], ◌∷◌, ◌++◌, Result, ok, err, ◌>>=◌, arith, All,
}
use beadle.Text.{Text, codes, contains_rune, contains_any, split, cons_first}
use beadle.Email.RepoTag.{RepoTag}
use beadle.Email.Headers.{
  Threading, HeaderError, Headers, header_line, entry_if, line_if, breaks_line, refs,
  write_threading, threading_headers, write_tag, tag_headers,
}

-- A map of headers as lines.
abbrev pub print_headers : Headers → Text
print_headers [] = []
print_headers ((key, value) ∷ hs) = header_line key value ++ print_headers hs

-- A header without its line feed.
abbrev pub bare_line : Text → Text → Text
bare_line key value = key ++ (codes ": " ++ (value ++ b'\r' ∷ []))

-- Each header without its line feed.
abbrev pub lines_of : Headers → List Text
lines_of [] = [] ∷ []
lines_of ((key, value) ∷ hs) = bare_line key value ∷ lines_of hs

-- No line break in the header.
abbrev pub IsUnbroken : Text × Text → Type 0
IsUnbroken h = (breaks_line h.0 ≡ false) × (breaks_line h.1 ≡ false)

split-append :
    (sep : ℕ) (a b : Text)
    → contains_rune sep a ≡ false
    → split sep (a ++ sep ∷ b) ≡ a ∷ split sep b
unfolding split cons_first
split-append sep [] b h = ground arith
split-append sep (c ∷ a) b h = ground (arith, split-append sep a b)

no_feed : (s : Text) → breaks_line s ≡ false → contains_rune b'\n' s ≡ false
unfolding contains_any
no_feed [] h = refl
no_feed (c ∷ s) h = ground (arith, no_feed s)

no_feed-append :
    (s t : Text)
    → contains_rune b'\n' s ≡ false
    → contains_rune b'\n' t ≡ false
    → contains_rune b'\n' (s ++ t) ≡ false
no_feed-append [] t h k = k
no_feed-append (c ∷ s) t h k = ground (arith, no_feed-append s t)

header_line-append :
    (key value rest : Text) → header_line key value ++ rest ≡ bare_line key value ++ b'\n' ∷ rest
header_line-append key value rest = simp append_assoc

bare_line-no_feed :
    (key value : Text)
    → breaks_line key ≡ false
    → breaks_line value ≡ false
    → contains_rune b'\n' (bare_line key value) ≡ false
bare_line-no_feed key value h k =
    no_feed-append key (codes ": " ++ (value ++ b'\r' ∷ [])) (no_feed key h)
      (no_feed-append value (b'\r' ∷ []) (no_feed value k) refl)

split-print_headers :
    (hs : Headers) → All IsUnbroken hs → split b'\n' (print_headers hs) ≡ lines_of hs
unfolding split
split-print_headers [] h = refl
split-print_headers ((key, value) ∷ hs) h = rw (header_line-append key value (print_headers hs)) (
    split-append b'\n' (bare_line key value) (print_headers hs)
      (bare_line-no_feed key value h.0.0 h.0.1)
    ∙ rw (split-print_headers hs h.1) refl)

print-entry_if :
    (key value : Text) (hs : Headers)
    → print_headers (entry_if key value ++ hs) ≡ line_if key value ++ print_headers hs
print-entry_if key [] hs = refl
print-entry_if key (c ∷ value) hs = refl

print-entry_if-nil : (key value : Text) → print_headers (entry_if key value) ≡ line_if key value
print-entry_if-nil key [] = refl
print-entry_if-nil key (c ∷ value) = append-nil (header_line key (c ∷ value))

threading_headers-All :
    (t : Threading) {hs : Headers} → threading_headers t ≡ ok hs → All IsUnbroken hs
unfolding threading_headers contains_any
threading_headers-All t h = ground arith

-- `writeHeaders` of a thread's headers fails where `headers` fails, and else writes the entries of
-- that map as lines.
pub write_threading-eq :
    (t : Threading) → write_threading t ≡ (threading_headers t >>= λ hs. ok (print_headers hs))
unfolding write_threading threading_headers
write_threading-eq t = ground (
  arith,
  print-entry_if (codes "In-Reply-To") t.in_reply_to (entry_if (codes "References") (refs t)),
  print-entry_if-nil (codes "References") (refs t),
)

tag_headers-All : (t : RepoTag) {hs : Headers} → tag_headers t ≡ ok hs → All IsUnbroken hs
unfolding tag_headers contains_any
tag_headers-All t h = ground arith

pub write_tag-eq : (t : RepoTag) → write_tag t ≡ (tag_headers t >>= λ hs. ok (print_headers hs))
unfolding write_tag tag_headers
write_tag-eq t = ground (arith, print-entry_if-nil (codes "X-Beadle-Agent") t.agent)

-- The text is some headers as lines, and its line feeds are the ends of those.
pub record IsPrinted (out : Text) (given : Result HeaderError Headers) : Type 0 where
  pub entries : Headers
  pub same : given ≡ ok entries
  pub printed : out ≡ print_headers entries
  pub lines : split b'\n' out ≡ lines_of entries

IsPrinted-intro :
    (given : Result HeaderError Headers) (out : Text)
    → ((hs : Headers) → given ≡ ok hs → All IsUnbroken hs)
    → (given >>= λ hs. ok (print_headers hs)) ≡ ok out
    → IsPrinted out given
IsPrinted-intro (err x) out unbroken h = absurd (ground arith)
IsPrinted-intro (ok hs) out unbroken h =
    let same : out ≡ print_headers hs = ground arith in
    record {
      entries = hs;
      same = refl;
      printed = same;
      lines = rw same (split-print_headers hs (unbroken hs refl));
    }

-- What `Threading.writeHeaders` writes is one line for each entry of `Threading.headers`, whatever
-- the message identifiers hold: no value begins a line of its own.
pub write_threading-IsPrinted :
    (t : Threading) (out : Text) → write_threading t ≡ ok out → IsPrinted out (threading_headers t)
write_threading-IsPrinted t out h =
    IsPrinted-intro (threading_headers t) out (λ hs e. threading_headers-All t e)
      (rw (write_threading-eq t) at h)

-- What `RepoTag.writeHeaders` writes is one line for each entry of `RepoTag.headers`, whatever the
-- slug and the agent are: no value begins a line of its own.
pub write_tag-IsPrinted :
    (t : RepoTag) (out : Text) → write_tag t ≡ ok out → IsPrinted out (tag_headers t)
write_tag-IsPrinted t out h =
    IsPrinted-intro (tag_headers t) out (λ hs e. tag_headers-All t e) (rw (write_tag-eq t) at h)
