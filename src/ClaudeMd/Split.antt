-- ===== src/ClaudeMd/Split.antt =====
-- Splitting a file into its lines (internal/claudemd/imports.go) and joining them again.
use mathlib.Core.List.{append_assoc, reverse-append}
use beadle.Prelude.{
  ℕ, ◌≡◌, ◌⊎◌, ◌∙◌, refl, ap, Bool, true, false, not, ◌||◌, List, [], ◌∷◌, ◌++◌, reverse, arith,
  Bool-cases, inl, inr, is_nil, ◌==◌,
}
use beadle.Text.{Text, codes, has_prefix, has_suffix}
use beadle.ClaudeMd.Lines.{
  is_break, starts_feed, ends_line, glue, split_keep_ends, join_lines, terminator, host_eol,
  is_open,
}

join_lines-glue : (c : ℕ) (ls : List Text) → join_lines (glue c ls) ≡ c ∷ join_lines ls
unfolding join_lines
join_lines-glue c [] = refl
join_lines-glue c (l ∷ ls) = refl

-- Joining the lines gives the text back.
pub join_lines-split_keep_ends : (s : Text) → join_lines (split_keep_ends s) ≡ s
unfolding split_keep_ends join_lines
join_lines-split_keep_ends [] = refl
join_lines-split_keep_ends (c ∷ s) =
    ground (arith, join_lines-split_keep_ends s, join_lines-glue c (split_keep_ends s))

pub join_lines-append : (ls ks : List Text) → join_lines (ls ++ ks) ≡ join_lines ls ++ join_lines ks
unfolding join_lines
join_lines-append [] ks = refl
join_lines-append (l ∷ ls) ks = simp (join_lines-append ls ks, append_assoc)

-- Nothing, or a text whose last rune ends a line.
abbrev pub is_closed : Text → Bool
is_closed [] = true
is_closed (c ∷ []) = is_break c
is_closed (c ∷ d ∷ s) = is_closed (d ∷ s)

glue-append : (c : ℕ) (ls ks : List Text) → is_nil ls ≡ false → glue c (ls ++ ks) ≡ glue c ls ++ ks
glue-append c [] ks h = cc
glue-append c (l ∷ ls) ks h = refl

is_nil-split_keep_ends : (c : ℕ) (s : Text) → is_nil (split_keep_ends (c ∷ s)) ≡ false
unfolding split_keep_ends
is_nil-split_keep_ends c [] = ground arith
is_nil-split_keep_ends c (d ∷ s) = ground (arith, is_nil-split_keep_ends d s)

-- The lines of a closed text stay whole where another text follows.
pub split_keep_ends-append :
    (s t : Text)
    → is_closed s ≡ true
    → starts_feed t ≡ false
    → split_keep_ends (s ++ t) ≡ split_keep_ends s ++ split_keep_ends t
unfolding split_keep_ends
split_keep_ends-append [] t h k = refl
split_keep_ends-append (c ∷ []) t h k = ground arith
split_keep_ends-append (c ∷ d ∷ s) t h k = ground (
  arith,
  split_keep_ends-append (d ∷ s) t h k,
  is_nil-split_keep_ends d s,
  glue-append c (split_keep_ends (d ∷ s)) (split_keep_ends t),
)

-- The text ends in the rune.
abbrev ends_in : ℕ → Text → Bool
ends_in x [] = false
ends_in x (c ∷ []) = c == x
ends_in x (c ∷ d ∷ l) = ends_in x (d ∷ l)

has_prefix-snoc :
    (x c : ℕ) (r : Text)
    → is_nil r ≡ false
    → has_prefix (r ++ c ∷ []) (x ∷ []) ≡ has_prefix r (x ∷ [])
unfolding has_prefix
has_prefix-snoc x c [] h = cc
has_prefix-snoc x c (d ∷ r) h = ground arith

is_nil-snoc : (r : Text) (c : ℕ) → is_nil (r ++ c ∷ []) ≡ false
is_nil-snoc [] c = refl
is_nil-snoc (d ∷ r) c = refl

is_nil-reverse : (c : ℕ) (l : Text) → is_nil (reverse (c ∷ l)) ≡ false
is_nil-reverse c l = rw (reverse-append (c ∷ []) l) (is_nil-snoc (reverse l) c)

has_suffix-one : (x : ℕ) (l : Text) → has_suffix l (x ∷ []) ≡ ends_in x l
unfolding has_suffix has_prefix
has_suffix-one x [] = refl
has_suffix-one x (c ∷ []) = ground arith
has_suffix-one x (c ∷ d ∷ l) =
    ap (λ r. has_prefix r (x ∷ [])) (reverse-append (c ∷ []) (d ∷ l))
    ∙ has_prefix-snoc x c (reverse (d ∷ l)) (is_nil-reverse d l)
    ∙ has_suffix-one x (d ∷ l)

has_prefix-two :
    (r : Text) → has_prefix r (b'\n' ∷ b'\r' ∷ []) ≡ true → has_prefix r (b'\n' ∷ []) ≡ true
unfolding has_prefix
has_prefix-two [] h = cc
has_prefix-two (c ∷ []) h = ground arith
has_prefix-two (c ∷ d ∷ r) h = ground arith

is_nil-terminator : (l : Text) → is_nil (terminator l) ≡ not (ends_in b'\n' l || ends_in b'\r' l)
unfolding terminator has_suffix
is_nil-terminator l =
    ground (arith, has_prefix-two (reverse l), has_suffix-one b'\n' l, has_suffix-one b'\r' l)

is_open-one : (c : ℕ) → is_open ((c ∷ []) ∷ []) ≡ not (is_break c)
unfolding is_open
is_open-one c = ground (arith, is_nil-terminator (c ∷ []))

-- The first line has a rune.
abbrev has_head : List Text → Bool
has_head [] = false
has_head ([] ∷ ls) = false
has_head ((c ∷ l) ∷ ls) = true

has_head-glue : (c : ℕ) (ls : List Text) → has_head (glue c ls) ≡ true
has_head-glue c [] = refl
has_head-glue c (l ∷ ls) = refl

has_head-split_keep_ends : (c : ℕ) (s : Text) → has_head (split_keep_ends (c ∷ s)) ≡ true
unfolding split_keep_ends
has_head-split_keep_ends c s = ground (arith, has_head-glue c (split_keep_ends s))

is_open-cons : (l : Text) (ls : List Text) → has_head ls ≡ true → is_open (l ∷ ls) ≡ is_open ls
unfolding is_open
is_open-cons l [] h = cc
is_open-cons l (k ∷ ls) h = refl

is_open-glue : (c : ℕ) (ls : List Text) → has_head ls ≡ true → is_open (glue c ls) ≡ is_open ls
unfolding is_open
is_open-glue c [] h = cc
is_open-glue c ([] ∷ ls) h = cc
is_open-glue c ((d ∷ l) ∷ []) h =
    ground (arith, is_nil-terminator (c ∷ d ∷ l), is_nil-terminator (d ∷ l))
is_open-glue c ((d ∷ l) ∷ k ∷ ls) h = refl

-- The last line lacks its terminator exactly if the text does not end in one.
pub is_open-split_keep_ends : (s : Text) → is_open (split_keep_ends s) ≡ not (is_closed s)
unfolding split_keep_ends
is_open-split_keep_ends [] = unfold is_open in refl
is_open-split_keep_ends (c ∷ []) = ground (arith, is_open-one c)
is_open-split_keep_ends (c ∷ d ∷ s) =
    let filled = has_head-split_keep_ends d s in
    elim (Bool-cases (ends_line c (d ∷ s))) [
      | inl ends ↦
          rw ends (is_open-cons (c ∷ []) (split_keep_ends (d ∷ s)) filled)
          ∙ is_open-split_keep_ends (d ∷ s)
      | inr runs ↦
          rw runs (is_open-glue c (split_keep_ends (d ∷ s)) filled)
          ∙ is_open-split_keep_ends (d ∷ s)
    ]

-- One of the three terminators.
abbrev pub IsEol : Text → Type 0
IsEol e = (e ≡ codes "\n") ⊎ (e ≡ codes "\r") ⊎ (e ≡ codes "\r\n")

pub host_eol-IsEol : (ls : List Text) → IsEol (host_eol ls)
unfolding host_eol terminator
host_eol-IsEol [] = inl refl
host_eol-IsEol (l ∷ ls) = ground (arith, host_eol-IsEol ls)

is_closed-cons : (c : ℕ) (s : Text) → is_nil s ≡ false → is_closed (c ∷ s) ≡ is_closed s
is_closed-cons c [] h = cc
is_closed-cons c (d ∷ s) h = refl

is_closed-append : (s : Text) (d : ℕ) (t : Text) → is_closed (s ++ d ∷ t) ≡ is_closed (d ∷ t)
is_closed-append [] d t = refl
is_closed-append (c ∷ []) d t = refl
is_closed-append (c ∷ b ∷ s) d t = is_closed-append (b ∷ s) d t

-- A text becomes closed with a terminator behind it.
pub is_closed-eol : (s e : Text) → IsEol e → is_closed (s ++ e) ≡ true
is_closed-eol s e (inl h) = rw h (is_closed-append s b'\n' [])
is_closed-eol s e (inr (inl h)) = rw h (is_closed-append s b'\r' [])
is_closed-eol s e (inr (inr h)) = rw h (is_closed-append s b'\r' (b'\n' ∷ []))
