-- ===== src/Email/RepoTag/Reply.antt =====
-- The subject of a reply (`ReplySubject`, internal/email/reply.go), built twice.
use beadle.Prelude.{ℕ, ◌≡◌, ◌∙◌, refl, true, false, [], ◌∷◌, ◌++◌, arith}
use beadle.Text.{Text, CaseTables, codes}
use beadle.Email.RepoTag.{
  RepoTag, start, is_blank, next, scan, reply_prefix, bracket_tagged, tagged, subject, skip_blank,
  is_re_first, is_reply, reply_subject,
}
use beadle.Email.RepoTag.Subject.{
  IsSlug, reply_prefix-none, scan_stuck, bracket_tagged-tagged, subject_kept, subject_put,
}

re_prefix : (s : Text) → reply_prefix (codes "Re: " ++ b'[' ∷ s) ≡ (codes "Re: ", b'[' ∷ s)
unfolding reply_prefix scan next
re_prefix s = refl

blank_prefix : (c : ℕ) (s : Text) → is_blank c ≡ true → reply_prefix (c ∷ s) ≡ ([], c ∷ s)
unfolding next
blank_prefix c s blank = reply_prefix-none (c ∷ s) (scan_stuck start c s (ground arith))

blank_untagged :
    ⦃u : CaseTables⦄ (t : RepoTag) (c : ℕ) (s : Text)
    → is_blank c ≡ true
    → bracket_tagged t (c ∷ s) ≡ false
unfolding bracket_tagged
blank_untagged t c s blank = ground arith

tagged_no_reply : ⦃u : CaseTables⦄ (t : RepoTag) (s : Text) → is_reply (tagged t s) ≡ false
unfolding is_reply skip_blank is_re_first
tagged_no_reply t s = ground arith

module _ ⦃u : CaseTables⦄ (t : RepoTag) (slug : IsSlug t.slug) where
  blank_put : (c : ℕ) (s : Text) → is_blank c ≡ true → subject t (c ∷ s) ≡ tagged t (c ∷ s)
  blank_put c s blank =
      subject_put t slug (c ∷ s) (rw (blank_prefix c s blank) (blank_untagged t c s blank))
      ∙ rw (blank_prefix c s blank) refl

  re_kept : (s : Text) → subject t (codes "Re: " ++ tagged t s) ≡ codes "Re: " ++ tagged t s
  re_kept s =
      subject_kept t slug (codes "Re: " ++ tagged t s)
        (rw (re_prefix (t.slug ++ (b']' ∷ b' ' ∷ s))) (bracket_tagged-tagged t slug s))

  -- A subject with a reply marker behind a blank gets a second marker when the reply to it is
  -- replied to: the tag is put before the blank, where the marker is no longer found.
  pub reply_subject-blank :
      (c : ℕ) (s : Text)
      → is_blank c ≡ true
      → is_reply (c ∷ s) ≡ true
      → (reply_subject (c ∷ s) t ≡ tagged t (c ∷ s))
        × (reply_subject (tagged t (c ∷ s)) t ≡ codes "Re: " ++ tagged t (c ∷ s))
  unfolding reply_subject
  reply_subject-blank c s blank reply = (
    rw (reply, reply_subject) (blank_put c s blank),
    rw (tagged_no_reply t (c ∷ s), reply_subject) (re_kept (c ∷ s)),
  )
