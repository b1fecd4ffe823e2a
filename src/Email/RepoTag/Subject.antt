-- ===== src/Email/RepoTag/Subject.antt =====
-- The repository's tag in a subject (internal/email/repotag.go) is put in once.
use beadle.Prelude.{
  ℕ, ◌∙◌, if◌then◌else◌, ◌≡◌, ◌≢◌, refl, true, false, [], ◌∷◌, ◌++◌, none, some, arith,
  Option-cases, Bool-cases, inl, inr, is_nil,
}
use beadle.Text.{Text, CaseTables, contains_rune}
use beadle.Text.Laws.{equal_fold_refl}
use beadle.Email.RepoTag.{
  RepoTag, cut_at, split_slug, State, start, next, is_between, scan, reply_prefix, bracket_tagged,
  owns_bracket, tagged, subject,
}

next-bracket : (state : State) → next state b'[' ≡ none
unfolding next
next-bracket start = refl
next-bracket _ = refl

scan-bracket : (state : State) (u : Text) → scan state (b'[' ∷ u) ≡ none
unfolding scan
scan-bracket state u = rw (next-bracket state, scan) refl

pub scan_stuck :
    (state : State) (c : ℕ) (s : Text) → next state c ≡ none → scan state (c ∷ s) ≡ none
unfolding scan
scan_stuck state c s stuck = rw (stuck, scan) refl

module _ (state t : State) (c : ℕ) (step : next state c ≡ some t) where
  pub scan_more :
      (s : Text) {p q : Text} → scan t s ≡ some (p, q) → scan state (c ∷ s) ≡ some (c ∷ p, q)
  unfolding scan
  scan_more s more = rw (step, scan, more) refl

  pub scan_last :
      (s : Text)
      → scan t s ≡ none
      → scan state (c ∷ s) ≡ (if is_between t then some (c ∷ [], s) else none)
  unfolding scan
  scan_last s last = rw (step, scan, last) refl

  last_prefix :
      (s : Text) {prefix rest : Text}
      → scan t s ≡ none
      → scan state (c ∷ s) ≡ some (prefix, rest)
      → (is_between t ≡ true) × (prefix ≡ c ∷ [])
  last_prefix s last h = ground (arith, scan_last s last)

  more_prefix :
      (s : Text) {prefix rest p q : Text}
      → scan t s ≡ some (p, q)
      → scan state (c ∷ s) ≡ some (prefix, rest)
      → prefix ≡ c ∷ p
  more_prefix s more h = ground (arith, scan_more s more)

-- A match is found again when a bracket follows it.
scan-again :
    (state : State) (s u : Text) {prefix rest : Text}
    → scan state s ≡ some (prefix, rest)
    → scan state (prefix ++ b'[' ∷ u) ≡ some (prefix, b'[' ∷ u)
unfolding scan
scan-again state [] u h = cc
scan-again state (c ∷ s) u {prefix} {rest} h = elim (Option-cases (next state c)) [
  | inl stuck ↦ ground (arith, scan_stuck state c s stuck)
  | inr (t, step) ↦ elim (Option-cases (scan t s)) [
    | inl last ↦
        let (done, whole) = last_prefix state t c step s last h in
        rw whole (scan_last state t c step (b'[' ∷ u) (scan-bracket t u) ∙ rw done refl)
    | inr ((p, q), more) ↦
        rw (more_prefix state t c step s more h)
          (scan_more state t c step (p ++ b'[' ∷ u) (scan-again t s u more))
  ]
]

cut_at-append :
    (sep : ℕ) (a b : Text) → contains_rune sep a ≡ false → cut_at sep (a ++ sep ∷ b) ≡ some (a, b)
unfolding cut_at
cut_at-append sep [] b h = ground arith
cut_at-append sep (c ∷ a) b h = ground (arith, cut_at-append sep a b)

pub reply_prefix-none : (s : Text) → scan start s ≡ none → reply_prefix s ≡ ([], s)
unfolding reply_prefix
reply_prefix-none s nothing = rw (nothing, reply_prefix) refl

pub reply_prefix-some :
    (s : Text) {found : Text × Text} → scan start s ≡ some found → reply_prefix s ≡ found
unfolding reply_prefix
reply_prefix-some s h = rw (h, reply_prefix) refl

pub reply_prefix-again :
    (s u : Text) → reply_prefix ((reply_prefix s).0 ++ b'[' ∷ u) ≡ ((reply_prefix s).0, b'[' ∷ u)
reply_prefix-again s u = elim (Option-cases (scan start s)) [
  | inl nothing ↦
      rw (reply_prefix-none s nothing) (reply_prefix-none (b'[' ∷ u) (scan-bracket start u))
  | inr ((p, q), found) ↦
      rw (reply_prefix-some s found)
        (reply_prefix-some (p ++ b'[' ∷ u) (scan-again start s u found))
]

-- A slug as `parseRepoSlug` makes them, in which no bracket closes.
abbrev pub IsSlug : Text → Type 0
IsSlug slug = (split_slug slug ≢ none) × (contains_rune b']' slug ≡ false)

module _ ⦃u : CaseTables⦄ (t : RepoTag) (slug : IsSlug t.slug) where
  IsSlug-split : (o : Text) × (r : Text) × (split_slug t.slug ≡ some (o, r))
  IsSlug-split = elim (Option-cases (split_slug t.slug)) [
    | inl bad ↦ absurd (slug.0 bad)
    | inr ((o, r), good) ↦ (o, r, good)
  ]

  filled : is_nil t.slug ≡ false
  unfolding split_slug cut_at
  filled = ground arith

  pub bracket_tagged-tagged : (rest : Text) → bracket_tagged t (tagged t rest) ≡ true
  unfolding bracket_tagged owns_bracket
  bracket_tagged-tagged rest =
      let (o, r, good) = IsSlug-split in
      rw (bracket_tagged, good, owns_bracket, cut_at-append b']' t.slug (b' ' ∷ rest) slug.1, good)
        (equal_fold_refl o)

  pub subject_kept : (s : Text) → bracket_tagged t (reply_prefix s).1 ≡ true → subject t s ≡ s
  unfolding subject
  subject_kept s there = ground (arith, filled)

  pub subject_put :
      (s : Text)
      → bracket_tagged t (reply_prefix s).1 ≡ false
      → subject t s ≡ (reply_prefix s).0 ++ tagged t (reply_prefix s).1
  unfolding subject
  subject_put s missing = ground (arith, filled)

  -- A tagged subject is left as it is.
  pub subject-tagged :
      (s rest : Text)
      → subject t ((reply_prefix s).0 ++ tagged t rest) ≡ (reply_prefix s).0 ++ tagged t rest
  subject-tagged s rest =
      subject_kept ((reply_prefix s).0 ++ tagged t rest)
        (rw (reply_prefix-again s (t.slug ++ (b']' ∷ b' ' ∷ rest))) (bracket_tagged-tagged rest))

  -- With a well-formed slug that holds no closing bracket, the subject that `RepoTag.subject` returns
  -- is one that it leaves alone.
  pub subject_idem : (s : Text) → subject t (subject t s) ≡ subject t s
  subject_idem s = elim (Bool-cases (bracket_tagged t (reply_prefix s).1)) [
    | inl there ↦ rw (subject_kept s there) (subject_kept s there)
    | inr missing ↦ rw (subject_put s missing) (subject-tagged s (reply_prefix s).1)
  ]
