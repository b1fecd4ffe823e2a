-- ===== src/Daemon/Mission/Scalar.antt =====
-- What a YAML reader makes of the quoted values of a mission contract (internal/daemon/mission.go).
use mathlib.Core.Path.{ap₂}
use mathlib.Core.List.{append_assoc}
use beadle.Prelude.{
  ℕ, Bool, true, false, not, ◌&&◌, leb, All, ◌≡◌, ◌∙◌, ◌≢◌, refl, ◌||◌, [], ◌∷◌, ◌++◌, Option, none,
  some, if◌then◌else◌, inl, inr, Bool-cases, ==_iff, ◌==◌, arith,
}
use beadle.Text.{Text, codes}
use beadle.Daemon.Mission.{replace_all, without_zero, escape, escape_yaml_pipe}

-- A rune that may stand for itself in a double-quoted scalar, on one line: printable for YAML, and no
-- line break, which are also U+0085, U+2028 and U+2029.
unfoldable pub is_printable : ℕ → Bool
is_printable c =
    leb 32 c && leb c 126
    || leb 160 c && leb c 0xd7ff && not (c == 0x2028) && not (c == 0x2029)
    || leb 0xe000 c && leb c 0xfffd && not (c == 0xfeff)
    || leb 0x10000 c && leb c 0x10ffff

-- The rune that the letter behind a backslash stands for, of the escapes that are used here.
unfoldable pub unescape : ℕ → Option ℕ
unescape c =
    if c == b'\\'
    then some b'\\'
    else if c == b'"'
    then some b'"'
    else if c == b'n'
    then some 10
    else if c == b'r'
    then some 13
    else if c == b't'
    then some 9
    else none

abbrev pub prepend : Option ℕ → Option (Text × Text) → Option (Text × Text)
prepend none r = none
prepend (some c) none = none
prepend (some c) (some (s, rest)) = some (c ∷ s, rest)

-- A YAML reader of a double-quoted scalar, behind its opening quote: the scalar, and the text behind
-- its closing quote. That quote ends it, an escape stands for its rune, and a printable rune for
-- itself.
pub record IsReader (read : Text → Option (Text × Text)) : Type 0 where
  pub closing : (rest : Text) → read (b'"' ∷ rest) ≡ some ([], rest)
  pub escaped :
      (letter c : ℕ) (t : Text)
      → unescape letter ≡ some c
      → read (b'\\' ∷ letter ∷ t) ≡ prepend (some c) (read t)
  pub plain :
      (c : ℕ) (t : Text)
      → is_printable c ≡ true
      → c ≢ b'\\'
      → c ≢ b'"'
      → read (c ∷ t) ≡ prepend (some c) (read t)

-- A rune that the quoting can bring through YAML: NUL, which is taken out, the three control
-- characters that have an escape, and the printable ones.
abbrev pub is_readable : ℕ → Bool
is_readable c = c == 0 || c == 9 || c == 10 || c == 13 || is_printable c

-- Every rune of a text is.
abbrev pub AreReadable : Text → Type 0
AreReadable s = All (λ c. is_readable c ≡ true) s

-- Reading a scalar from its opening quote on.
abbrev pub read_quoted : (Text → Option (Text × Text)) → Text → Option (Text × Text)
read_quoted read [] = none
read_quoted read (c ∷ s) = if c == b'"' then read s else none

-- One pass for the five replacements.
escape_rune : ℕ → Text
escape_rune c =
    if c == b'\\'
    then codes "\\\\"
    else if c == b'"'
    then codes "\\\""
    else if c == 10
    then codes "\\n"
    else if c == 13
    then codes "\\r"
    else if c == 9
    then codes "\\t"
    else c ∷ []

escape_runes : Text → Text
escape_runes [] = []
escape_runes (c ∷ s) = escape_rune c ++ escape_runes s

replace_all-append :
    (c : ℕ) (with s t : Text)
    → replace_all c with (s ++ t) ≡ replace_all c with s ++ replace_all c with t
unfolding replace_all
replace_all-append c with [] t = refl
replace_all-append c with (d ∷ s) t = ground (
  arith,
  replace_all-append c with s t,
  append_assoc with (replace_all c with s) (replace_all c with t),
)

escape-append : (s t : Text) → escape (s ++ t) ≡ escape s ++ escape t
unfolding escape
escape-append s t = simp replace_all-append

escape-rune : (c : ℕ) → escape (c ∷ []) ≡ escape_rune c
unfolding escape escape_rune
escape-rune c = ground arith

escape-eq : (s : Text) → escape s ≡ escape_runes s
unfolding escape_runes
escape-eq [] = unfold escape in refl
escape-eq (c ∷ s) = escape-append (c ∷ []) s ∙ ap₂ ◌++◌ (escape-rune c) (escape-eq s)

-- The reader takes one escaped rune at a time.
read-escape_rune :
    (read : Text → Option (Text × Text)) (r : IsReader read) (c : ℕ) (t : Text)
    → is_readable c ≡ true
    → (c == 0) ≡ false
    → read (escape_rune c ++ t) ≡ prepend (some c) (read t)
unfolding escape_rune
read-escape_rune read r c t ok_c nonzero = elim (Bool-cases (c == b'\\')) [
  | inl e ↦ rw ((==_iff c _).0 e) (r.escaped b'\\' b'\\' t (unfold unescape in refl))
  | inr e₁ ↦ elim (Bool-cases (c == b'"')) [
    | inl e ↦ rw ((==_iff c _).0 e) (r.escaped b'"' b'"' t (unfold unescape in refl))
    | inr e₂ ↦ elim (Bool-cases (c == 10)) [
      | inl e ↦ rw ((==_iff c _).0 e) (r.escaped b'n' 10 t (unfold unescape in refl))
      | inr e₃ ↦ elim (Bool-cases (c == 13)) [
        | inl e ↦ rw ((==_iff c _).0 e) (r.escaped b'r' 13 t (unfold unescape in refl))
        | inr e₄ ↦ elim (Bool-cases (c == 9)) [
          | inl e ↦ rw ((==_iff c _).0 e) (r.escaped b't' 9 t (unfold unescape in refl))
          | inr e₅ ↦
              rw (e₁, e₂, e₃, e₄, e₅) (r.plain c t (ground arith) (ground arith) (ground arith))
        ]
      ]
    ]
  ]
]

-- Text that is read back as it is: readable, and without NULs.
IsPlain : Text → Type 0
IsPlain s = All (λ c. (is_readable c ≡ true) × ((c == 0) ≡ false)) s

read-escape_runes :
    (read : Text → Option (Text × Text)) (r : IsReader read) (s rest : Text)
    → IsPlain s
    → read (escape_runes s ++ b'"' ∷ rest) ≡ some (s, rest)
unfolding escape_runes IsPlain
read-escape_runes read r [] rest h = r.closing rest
read-escape_runes read r (c ∷ s) rest h = rw (
  append_assoc (escape_rune c) (escape_runes s) (b'"' ∷ rest),
  read-escape_rune read r c (escape_runes s ++ b'"' ∷ rest) h.0.0 h.0.1,
  read-escape_runes read r s rest h.1,
)

kept-IsPlain :
    (b : Bool) (c : ℕ) (rest : Text)
    → (c == 0) ≡ b
    → is_readable c ≡ true
    → IsPlain rest
    → IsPlain (elim (not b) [ true ↦ c ∷ rest | false ↦ rest ])
unfolding IsPlain
kept-IsPlain true c rest e r h = h
kept-IsPlain false c rest e r h = ((r, e), h)

without_zero-IsPlain : (s : Text) → AreReadable s → IsPlain (without_zero s)
unfolding IsPlain
without_zero-IsPlain [] h = tt
without_zero-IsPlain (c ∷ s) h =
    unfold IsPlain in kept-IsPlain (c == 0) c (without_zero s) refl h.0 (without_zero-IsPlain s h.1)

-- The same of a prompt, which is not cut.
pub read_quoted-escape_yaml_pipe :
    (read : Text → Option (Text × Text)) (r : IsReader read) (s rest : Text)
    → AreReadable s
    → read_quoted read (escape_yaml_pipe s ++ rest) ≡ some (without_zero s, rest)
unfolding escape_yaml_pipe
read_quoted-escape_yaml_pipe read r s rest h = rw (
  escape-eq (without_zero s),
  append_assoc _ (b'"' ∷ []) rest,
  read-escape_runes read r _ rest (without_zero-IsPlain s h),
)
