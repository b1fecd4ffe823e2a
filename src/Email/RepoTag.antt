-- ===== src/Email/RepoTag.antt =====
-- internal/email/repotag.go and the subject line of internal/email/reply.go: the tag of a repository
-- in a message's subject, and its headers.
pub mod Subject
pub mod Reply
pub mod ReplyTwice
use beadle.Prelude.{
  ℕ, ◌-◌, Bool, true, false, not, ◌&&◌, ◌||◌, List, [], ◌∷◌, ◌++◌, Option, none, some,
  if◌then◌else◌, any, is_nil, ltb, leb, ◌==◌,
}
use beadle.Text.{Text, CaseTables, codes, contains_rune, is_space, equal_fold}

pub record RepoTag : Type 0 where
  pub slug : Text
  pub agent : Text

-- `unicode.IsControl`, the whole of it.
abbrev pub is_control : ℕ → Bool
is_control c = ltb c 0x20 || (leb 0x7f c && leb c 0x9f)

-- `strings.Cut(s, sep)` at one rune; `none` where it is missing.
unfoldable pub cut_at : ℕ → Text → Option (Text × Text)
cut_at sep [] = none
cut_at sep (c ∷ s) =
    let later = cut_at sep s in
    if c == sep
    then some ([], s)
    else elim later [ none ↦ none | some (before, after) ↦ some (c ∷ before, after) ]

-- `splitSlug`; `none` is `ok == false`.
unfoldable pub split_slug : Text → Option (Text × Text)
unfolding cut_at is_space
split_slug s = elim (cut_at b'/' s) [
  | none ↦ none
  | some (owner, repo) ↦
      if is_nil owner || is_nil repo
      then none
      else if contains_rune b'/' repo
      then none
      else if any (λ c. is_space c || is_control c) s
      then none
      else some (owner, repo)
]

-- Where a match of `replyPrefix`, `(?i)^((re|fwd|fw)\s*:\s*)+`, stands: at the start, inside of one
-- of the words, behind a word, or behind a colon and spaces.
pub data State : Type 0 where
  start r re f fw fwd gap between : State

-- `\s` of a regular expression.
abbrev pub is_blank : ℕ → Bool
is_blank c = c == 9 || c == 10 || c == 12 || c == 13 || c == 32

abbrev is_letter : ℕ → ℕ → Bool
is_letter lower c = c == lower || c == lower - 32

-- The letter that begins a word.
abbrev first_letter : ℕ → Option State
first_letter c = if is_letter b'r' c then some r else if is_letter b'f' c then some f else none

-- What may follow a word.
abbrev after_word : ℕ → Option State
after_word c = if c == b':' then some between else if is_blank c then some gap else none

unfoldable pub next : State → ℕ → Option State
next start c = first_letter c
next r c = if is_letter b'e' c then some re else none
next re c = after_word c
next f c = if is_letter b'w' c then some fw else none
next fw c = if is_letter b'd' c then some fwd else after_word c
next fwd c = after_word c
next gap c = after_word c
next between c = if is_blank c then some between else first_letter c

abbrev pub is_between : State → Bool
is_between between = true
is_between _ = false

-- The longest match from a state that ends behind a colon and its spaces, and what is left.
unfoldable pub scan : State → Text → Option (Text × Text)
unfolding next
scan state [] = none
scan state (c ∷ s) = elim (next state c) [
  | none ↦ none
  | some t ↦ elim (scan t s) [
    | none ↦ if is_between t then some (c ∷ [], s) else none
    | some (prefix, rest) ↦ some (c ∷ prefix, rest)
  ]
]

-- `replyPrefix.FindString(s)` and the rest of the text.
unfoldable pub reply_prefix : Text → Text × Text
unfolding scan
reply_prefix s = elim (scan start s) [ none ↦ ([], s) | some found ↦ found ]

module _ ⦃u : CaseTables⦄ where
  -- `RepoTag.bracketTagged`, the part behind the first bracket.
  pub owns_bracket : Text → Text → Bool
  unfolding cut_at split_slug
  owns_bracket owner s = elim (cut_at b']' s) [
    | none ↦ false
    | some (inner, after) ↦ elim (split_slug inner) [
      | none ↦ false
      | some (o, repo) ↦ equal_fold o owner
    ]
  ]

  -- `RepoTag.bracketTagged`.
  unfoldable pub bracket_tagged : RepoTag → Text → Bool
  unfolding owns_bracket
  bracket_tagged t [] = false
  bracket_tagged t (c ∷ s) = elim (split_slug t.slug) [
    | none ↦ false
    | some (owner, repo) ↦ c == b'[' && owns_bracket owner s
  ]

  abbrev pub tagged : RepoTag → Text → Text
  tagged t rest = b'[' ∷ t.slug ++ (b']' ∷ b' ' ∷ rest)

  -- `RepoTag.subject`.
  unfoldable pub subject : RepoTag → Text → Text
  unfolding reply_prefix bracket_tagged
  subject t s =
      let (prefix, rest) = reply_prefix s in
      if is_nil t.slug then s else if bracket_tagged t rest then s else prefix ++ tagged t rest

-- A match of `reMarker`, `(?i)^\s*re\s*:`.
unfoldable pub skip_blank : Text → Text
skip_blank [] = []
skip_blank (c ∷ s) = let later = skip_blank s in if is_blank c then later else c ∷ s

pub is_colon_first : Text → Bool
is_colon_first [] = false
is_colon_first (c ∷ s) = c == b':'

pub is_re_first : Text → Bool
unfolding is_colon_first skip_blank
is_re_first (c ∷ d ∷ s) = is_letter b'r' c && (is_letter b'e' d && is_colon_first (skip_blank s))
is_re_first _ = false

unfoldable pub is_reply : Text → Bool
unfolding is_re_first skip_blank
is_reply s = is_re_first (skip_blank s)

module _ ⦃u : CaseTables⦄ where
  -- `ReplySubject`.
  unfoldable pub reply_subject : Text → RepoTag → Text
  unfolding is_reply subject
  reply_subject original t =
      subject t (if is_reply original then original else codes "Re: " ++ original)
