-- ===== src/Pgp/Expiry/Accepted.antt =====
-- Which listings `parseColonExpiry` (internal/pgp/expiry.go) accepts.
use beadle.Prelude.{
  ℕ, suc, ◌+◌, ◌≡◌, ◌↔◌, inl, inr, ◌∙◌, refl, ap, Bool, true, false, not, ◌&&◌, ◌||◌, List, [], ◌∷◌,
  none, ok, if◌then◌else◌, any, All, length, ltb, arith, Result-cases,
}
use beadle.Text.{Text, codes, equal, contains}
use beadle.Text.Laws.{equal_iff}
use beadle.Pgp.Expiry.{
  field, lacks_expiry, check_not_expired, Seen, unseen, visit, visit_pub, visit_sub, visit_all,
  conclude, records, parse_colon_expiry,
}

-- A line for a primary key, and one for a subkey that can sign.
abbrev pub is_primary : List Text → Bool
is_primary r = equal (field 0 r) (codes "pub") && not (ltb (length r) 7)

abbrev pub is_signing : List Text → Bool
is_signing r =
    equal (field 0 r) (codes "sub") && not (ltb (length r) 12) && contains (field 11 r) (codes "s")

-- The key of the line has an expiry, and it lies ahead.
abbrev pub expires : List Text → Bool
expires r = not (lacks_expiry (field 6 r))

abbrev pub is_current : ℕ → List Text → Bool
is_current now r = expires r && check_not_expired (field 6 r) now

abbrev pub count : (List Text → Bool) → List (List Text) → ℕ
count p [] = 0
count p (r ∷ rs) = if p r then suc (count p rs) else count p rs

-- A primary key must be current, and a signing subkey must have an expiry.
abbrev pub is_allowed : ℕ → List Text → Bool
is_allowed now r = (not (is_primary r) || is_current now r) && (not (is_signing r) || expires r)

-- One primary key, every line allowed, and a current signing subkey if there is a signing subkey.
pub record IsSignable (now : ℕ) (rs : List (List Text)) : Type 0 where
  pub single : count is_primary rs ≡ 1
  pub allowed : All (λ r. is_allowed now r ≡ true) rs
  pub usable : (not (any is_signing rs) || any (λ r. is_signing r && is_current now r) rs) ≡ true

-- The variables of the loop after these lines.
abbrev after : ℕ → Seen → List (List Text) → Seen
after now s rs = record {
  pub_count = s.pub_count + count is_primary rs;
  signing = s.signing || any is_signing rs;
  valid = s.valid || any (λ r. is_signing r && is_current now r) rs;
}

sub_not_pub : (f : Text) → equal f (codes "pub") ≡ true → equal f (codes "sub") ≡ false
unfolding equal
sub_not_pub f h = rw ((equal_iff f (codes "pub")).0 h) refl

visit_allowed :
    (now : ℕ) (s : Seen) (r : List Text)
    → is_allowed now r ≡ true
    → visit now s r ≡ ok (after now s (r ∷ []))
unfolding visit visit_pub visit_sub
visit_allowed now s r h = ground (arith, sub_not_pub (field 0 r))

visit_only_allowed :
    (now : ℕ) (s t : Seen) (r : List Text) → visit now s r ≡ ok t → is_allowed now r ≡ true
unfolding visit visit_pub visit_sub
visit_only_allowed now s t r h = ground (arith, sub_not_pub (field 0 r))

after_step :
    (now : ℕ) (s : Seen) (r : List Text) (rs : List (List Text))
    → after now (after now s (r ∷ [])) rs ≡ after now s (r ∷ rs)
after_step now s r rs = ground arith

-- The loop over allowed lines counts and notes what it has seen.
visit_all-eq :
    (now : ℕ) (rs : List (List Text)) (s : Seen)
    → All (λ r. is_allowed now r ≡ true) rs
    → visit_all now s rs ≡ ok (after now s rs)
unfolding visit_all
visit_all-eq now [] s h = ground arith
visit_all-eq now (r ∷ rs) s h =
    rw (visit_allowed now s r h.0)
      (visit_all-eq now rs (after now s (r ∷ [])) h.1 ∙ ap ok (after_step now s r rs))

visit_all-allowed :
    (now : ℕ) (s t : Seen) (rs : List (List Text))
    → visit_all now s rs ≡ ok t
    → All (λ r. is_allowed now r ≡ true) rs
unfolding visit_all
visit_all-allowed now s t [] h = tt
visit_all-allowed now s t (r ∷ rs) h = elim (Result-cases (visit now s r)) [
  | inl (e, p) ↦ cc (rw p at h)
  | inr (s', p) ↦ (visit_only_allowed now s s' r p, visit_all-allowed now s' t rs (rw p at h))
]

concluded :
    (now : ℕ) (rs : List (List Text))
    → All (λ r. is_allowed now r ≡ true) rs
    → conclude (after now unseen rs) ≡ none
    → IsSignable now rs
concluded now rs allowed h = record {
  single = ground arith;
  allowed = allowed;
  usable = ground arith;
}

accepted :
    (now : ℕ) (rs : List (List Text)) → IsSignable now rs → conclude (after now unseen rs) ≡ none
accepted now rs v = ground (arith, v.single, v.usable)

-- `parseColonExpiry` gives no error exactly for a listing with one primary key that has an expiry
-- ahead of the time, where every subkey that can sign has an expiry, and one of them an expiry
-- ahead if there are any.
pub parse_colon_expiry_iff :
    (now : ℕ) (output : Text)
    → (parse_colon_expiry now output ≡ none) ↔ IsSignable now (records output)
unfolding parse_colon_expiry
parse_colon_expiry_iff now output = (
  λ h. elim (Result-cases (visit_all now unseen rs)) [
    | inl (e, p) ↦ cc (rw (p, parse_colon_expiry) at h)
    | inr (t, p) ↦
        let allowed = visit_all-allowed now unseen t rs p in
        concluded now rs allowed (rw (visit_all-eq now rs unseen allowed, parse_colon_expiry) at h)
  ],
  λ v. rw (visit_all-eq now rs unseen v.allowed, parse_colon_expiry) (accepted now rs v),
)
  where
    rs : List (List Text)
    rs = records output
