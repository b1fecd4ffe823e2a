-- ===== src/Email/RepoTag/ReplyTwice.antt =====
-- The subject of a reply to a reply (`ReplySubject`, internal/email/reply.go).
use beadle.Prelude.{
  ℕ, ◌≡◌, ◌∙◌, refl, true, false, [], ◌∷◌, ◌++◌, some, arith, Option-cases, Bool-cases, inl, inr,
  if◌then◌else◌,
}
use beadle.Text.{Text, CaseTables, codes}
use beadle.Email.RepoTag.{
  RepoTag, State, start, r, re, gap, between, is_blank, next, scan, reply_prefix, bracket_tagged,
  tagged, subject, skip_blank, is_colon_first, is_re_first, is_reply, reply_subject,
}
use beadle.Email.RepoTag.Subject.{
  IsSlug, reply_prefix-some, scan_more, scan_last, subject_kept, subject_put, subject_idem,
}

-- The text begins with a colon, behind blanks.
abbrev HasColon : Text → Type 0
HasColon s = is_colon_first (skip_blank s) ≡ true

HasColon-blank : (c : ℕ) (s : Text) → is_blank c ≡ true → HasColon (c ∷ s) → HasColon s
unfolding skip_blank
HasColon-blank c s blank h = ground arith

blank-HasColon : (c : ℕ) (s : Text) → is_blank c ≡ true → HasColon s → HasColon (c ∷ s)
unfolding skip_blank
blank-HasColon c s blank h = ground arith

HasColon-here : (c : ℕ) (s : Text) → is_blank c ≡ false → HasColon (c ∷ s) → c ≡ b':'
unfolding skip_blank is_colon_first
HasColon-here c s other h = ground arith

colon-HasColon : (s : Text) → HasColon (b':' ∷ s)
unfolding skip_blank is_colon_first
colon-HasColon s = refl

HasColon-nil : ¬ HasColon []
unfolding skip_blank is_colon_first
HasColon-nil h = ground arith

-- A match through the colon that a text begins with.
record Match (state : State) (s : Text) : Type 0 where
  prefix : Text
  rest : Text
  found : scan state s ≡ some (prefix, rest)
  marks : (w : Text) → HasColon (prefix ++ w)

colon_found : (state : State) (s : Text) → next state b':' ≡ some between → Match state (b':' ∷ s)
colon_found state s step = elim (Option-cases (scan between s)) [
  | inl last ↦ record {
    prefix = b':' ∷ [];
    rest = s;
    found = scan_last state between b':' step s last;
    marks = λ w. colon-HasColon w;
  }
  | inr ((p, q), more) ↦ record {
    prefix = b':' ∷ p;
    rest = q;
    found = scan_more state between b':' step s more;
    marks = λ w. colon-HasColon (p ++ w);
  }
]

HasColon-Match :
    (state : State) (s : Text) → ((c : ℕ) → next state c ≡ next gap c) → HasColon s → Match state s
unfolding next
HasColon-Match state [] same h = absurd (HasColon-nil h)
HasColon-Match state (c ∷ s) same h = elim (Bool-cases (is_blank c)) [
  | inl blank ↦
      let m = HasColon-Match gap s (λ d. refl) (HasColon-blank c s blank h) in
      record {
        prefix = c ∷ m.prefix;
        rest = m.rest;
        found = scan_more state gap c (same c ∙ ground arith) s m.found;
        marks = λ w. blank-HasColon c (m.prefix ++ w) blank (m.marks w);
      }
  | inr other ↦ rw (HasColon-here c s other h) (colon_found state s (same b':'))
]

first_steps :
    (c d : ℕ) (x : Text)
    → is_re_first (c ∷ d ∷ x) ≡ true
    → (next start c ≡ some r) × (next r d ≡ some re) × HasColon x
unfolding is_re_first next
first_steps c d x h = ground arith

is_re_first-append :
    (c d : ℕ) (x y : Text)
    → is_re_first (c ∷ d ∷ x) ≡ true
    → HasColon y
    → is_re_first (c ∷ d ∷ y) ≡ true
unfolding is_re_first
is_re_first-append c d x y h k = ground arith

-- The match of `replyPrefix` on a text that begins with "Re:" begins with "Re:" itself.
reply_prefix-is_re_first :
    (s w : Text) → is_re_first s ≡ true → is_re_first ((reply_prefix s).0 ++ w) ≡ true
unfolding is_re_first next
reply_prefix-is_re_first [] w h = absurd (ground arith)
reply_prefix-is_re_first (c ∷ []) w h = absurd (ground arith)
reply_prefix-is_re_first (c ∷ d ∷ x) w h =
    let (one, two, colon) = first_steps c d x h in
    let m = HasColon-Match re x (λ e. refl) colon in
    rw
      (reply_prefix-some (c ∷ d ∷ x)
        (scan_more start r c one (d ∷ x) (scan_more r re d two x m.found)))
      (is_re_first-append c d x (m.prefix ++ w) h (m.marks w))

re_not_blank : (c d : ℕ) (x : Text) → is_re_first (c ∷ d ∷ x) ≡ true → is_blank c ≡ false
unfolding is_re_first
re_not_blank c d x h = ground arith

skip_blank-plain : (c : ℕ) (s : Text) → is_blank c ≡ false → skip_blank (c ∷ s) ≡ c ∷ s
unfolding skip_blank
skip_blank-plain c s h = ground arith

is_reply-plain : (s : Text) → skip_blank s ≡ s → is_reply s ≡ is_re_first s
unfolding is_reply
is_reply-plain s h = rw (is_reply, h) refl

marked_re : (s : Text) → is_re_first (codes "Re: " ++ s) ≡ true
unfolding is_re_first is_colon_first skip_blank
marked_re s = refl

is_re_first-is_reply : (s : Text) → is_re_first s ≡ true → is_reply s ≡ true
unfolding is_re_first
is_re_first-is_reply [] h = absurd (ground arith)
is_re_first-is_reply (c ∷ []) h = absurd (ground arith)
is_re_first-is_reply (c ∷ d ∷ x) h =
    is_reply-plain (c ∷ d ∷ x) (skip_blank-plain c (d ∷ x) (re_not_blank c d x h)) ∙ h

module _ ⦃u : CaseTables⦄ (t : RepoTag) (slug : IsSlug t.slug) where
  subject-is_re_first : (s : Text) → is_re_first s ≡ true → is_re_first (subject t s) ≡ true
  subject-is_re_first s h = elim (Bool-cases (bracket_tagged t (reply_prefix s).1)) [
    | inl there ↦ rw (subject_kept t slug s there) h
    | inr missing ↦
        rw (subject_put t slug s missing)
          (reply_prefix-is_re_first s (tagged t (reply_prefix s).1) h)
  ]

  abbrev marked : Text → Text
  marked s = if is_reply s then s else codes "Re: " ++ s

  marked-is_re_first : (s : Text) → skip_blank s ≡ s → is_re_first (marked s) ≡ true
  marked-is_re_first s plain = elim (Bool-cases (is_reply s)) [
    | inl reply ↦ rw reply (rw (is_reply-plain s plain) at reply)
    | inr fresh ↦ rw fresh (marked_re s)
  ]

  -- With a well-formed slug that holds no closing bracket, and a subject that begins with no blank,
  -- the subject that `ReplySubject` returns is one that it leaves alone.
  pub reply_subject_idem :
      (s : Text) → skip_blank s ≡ s → reply_subject (reply_subject s t) t ≡ reply_subject s t
  unfolding reply_subject
  reply_subject_idem s plain =
      rw
        (
          is_re_first-is_reply (subject t (marked s))
              (subject-is_re_first (marked s) (marked-is_re_first s plain)),
          reply_subject,
        )
        (subject_idem t slug (marked s))
