-- ===== src/Text.antt =====
-- Go's strings and the functions of `strings` and `unicode` that the program calls. A text is the
-- list of the runes of a string of valid UTF-8; `byte_len` gives the `len` that Go would.
pub mod Laws
pub mod Decimal
pub mod Lines
pub mod Path
pub mod Trim
use Prim.Native.Char.{code}
use beadle.Prelude.{
  ℕ, ◌+◌, ◌-◌, ◌*◌, Bool, true, false, not, ◌&&◌, ◌||◌, List, [], ◌∷◌, ◌++◌, reverse, map, String,
  ltb, leb, ◌==◌, if◌then◌else◌, any, Option, none, some,
}

abbrev pub Text : Type 0
Text = List ℕ

-- A string literal.
abbrev pub codes : String → Text
codes String.[] = []
codes (String.◌∷◌ c s) = code c ∷ codes s

-- `==` on strings.
unfoldable pub equal : Text → Text → Bool
equal [] [] = true
equal [] (d ∷ t) = false
equal (c ∷ s) [] = false
equal (c ∷ s) (d ∷ t) = c == d && equal s t

-- `len`: the bytes of the UTF-8 encoding.
abbrev rune_len : ℕ → ℕ
rune_len c = if ltb c 0x80 then 1 else if ltb c 0x800 then 2 else if ltb c 0x10000 then 3 else 4

unfoldable pub byte_len : Text → ℕ
byte_len [] = 0
byte_len (c ∷ s) = rune_len c + byte_len s

-- `strings.ContainsRune`.
abbrev pub contains_rune : ℕ → Text → Bool
contains_rune c = any (λ d. d == c)

-- `strings.ContainsAny(s, chars)`.
unfoldable pub contains_any : Text → Text → Bool
contains_any s chars = any (λ c. contains_rune c chars) s

-- `strings.HasPrefix(s, prefix)`.
unfoldable pub has_prefix : Text → Text → Bool
has_prefix s [] = true
has_prefix [] (p ∷ ps) = false
has_prefix (c ∷ s) (p ∷ ps) = c == p && has_prefix s ps

-- `strings.TrimPrefix(s, prefix)`.
unfoldable pub drop_prefix : Text → Text → Option Text
drop_prefix s [] = some s
drop_prefix [] (p ∷ ps) = none
drop_prefix (c ∷ s) (p ∷ ps) = let rest = drop_prefix s ps in if c == p then rest else none

unfoldable pub trim_prefix : Text → Text → Text
unfolding drop_prefix
trim_prefix s prefix = elim (drop_prefix s prefix) [ none ↦ s | some rest ↦ rest ]

-- `strings.TrimSuffix(s, suffix)`.
unfoldable pub trim_suffix : Text → Text → Text
unfolding trim_prefix
trim_suffix s suffix = reverse (trim_prefix (reverse s) (reverse suffix))

-- `strings.HasSuffix(s, suffix)`.
unfoldable pub has_suffix : Text → Text → Bool
unfolding has_prefix
has_suffix s suffix = has_prefix (reverse s) (reverse suffix)

-- `strings.Contains(s, substr)`.
unfoldable pub contains : Text → Text → Bool
unfolding has_prefix
contains [] sub = has_prefix [] sub
contains (c ∷ s) sub = has_prefix (c ∷ s) sub || contains s sub

-- `unicode.IsSpace`, the whole of it.
unfoldable pub is_space : ℕ → Bool
is_space c =
    (leb 9 c && leb c 13)
    || c == 0x20
    || c == 0x85
    || c == 0xa0
    || c == 0x1680
    || (leb 0x2000 c && leb c 0x200a)
    || c == 0x2028
    || c == 0x2029
    || c == 0x202f
    || c == 0x205f
    || c == 0x3000

unfoldable pub trim_left : Text → Text
trim_left [] = []
trim_left (c ∷ s) = let rest = trim_left s in elim (is_space c) [ true ↦ rest | false ↦ c ∷ s ]

-- `strings.TrimSpace`.
unfoldable pub trim_space : Text → Text
unfolding trim_left is_space
trim_space s = reverse (trim_left (reverse (trim_left s)))

-- What the program takes from the Unicode tables of Go's `unicode` package, above ASCII: the rune's
-- lower and upper case, and one rune that stands for all that `unicode.SimpleFold` leads to.
pub record CaseTables : Type 0 where
  pub lower_above : ℕ → ℕ
  pub upper_above : ℕ → ℕ
  pub fold_above : ℕ → ℕ

abbrev pub ascii_lower : ℕ → ℕ
ascii_lower c = if leb b'A' c && leb c b'Z' then c + 32 else c

module _ ⦃u : CaseTables⦄ where
  -- `unicode.ToLower`.
  unfoldable pub lower_rune : ℕ → ℕ
  lower_rune c = if ltb c 0x80 then ascii_lower c else u.lower_above c

  -- `strings.ToLower`.
  unfoldable pub to_lower : Text → Text
  unfolding lower_rune
  to_lower s = map lower_rune s

  -- `strings.ToUpper`.
  unfoldable pub upper_rune : ℕ → ℕ
  upper_rune c =
      if ltb c 0x80 then if leb b'a' c && leb c b'z' then c - 32 else c else u.upper_above c

  unfoldable pub to_upper : Text → Text
  unfolding upper_rune
  to_upper s = map upper_rune s

  unfoldable pub fold_rune : ℕ → ℕ
  fold_rune c = if ltb c 0x80 then ascii_lower c else u.fold_above c

  -- `strings.EqualFold`.
  unfoldable pub equal_fold : Text → Text → Bool
  unfolding fold_rune equal
  equal_fold s t = equal (map fold_rune s) (map fold_rune t)

-- `strings.Split(s, sep)` at a one-rune separator: one piece more than separators.
unfoldable pub cons_first : ℕ → List Text → List Text
cons_first c [] = (c ∷ []) ∷ []
cons_first c (p ∷ ps) = (c ∷ p) ∷ ps

unfoldable pub split : ℕ → Text → List Text
unfolding cons_first
split sep [] = [] ∷ []
split sep (c ∷ s) =
    let rest = split sep s in elim (c == sep) [ true ↦ [] ∷ rest | false ↦ cons_first c rest ]

-- `strings.Join(parts, sep)`.
unfoldable pub join : Text → List Text → Text
join sep [] = []
join sep (p ∷ []) = p
join sep (p ∷ q ∷ ps) = p ++ (sep ++ join sep (q ∷ ps))

-- The number that decimal digits spell, as `strconv` reads them.
unfoldable pub parse_digits : ℕ → Text → Option ℕ
parse_digits acc [] = some acc
parse_digits acc (c ∷ s) =
    let rest = parse_digits (acc * 10 + (c - b'0')) s in
    if leb b'0' c && leb c b'9' then rest else none

-- `strings.Fields`.
abbrev starts_word : Text → Bool
starts_word [] = false
starts_word (c ∷ s) = not (is_space c)

unfoldable pub fields : Text → List Text
unfolding is_space cons_first
fields [] = []
fields (c ∷ s) =
    let rest = fields s in
    if is_space c then rest else if starts_word s then cons_first c rest else (c ∷ []) ∷ rest

-- A list of texts holds the text.
unfoldable pub member : Text → List Text → Bool
unfolding equal
member t ts = any (equal t) ts

-- A map with string keys, as an association list: the first entry of a key counts.
module _ {ℓ} {V : Type ℓ} where
  unfoldable pub lookup : Text → List (Text × V) → Option V
  lookup k [] = none
  lookup k ((j, v) ∷ m) = if equal j k then some v else lookup k m
