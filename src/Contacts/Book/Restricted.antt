-- ===== src/Contacts/Book/Restricted.antt =====
-- What `Validate` (internal/contacts/contacts.go) leaves a pattern contact.
use beadle.Prelude.{
  ℕ, ◌≡◌, refl, true, false, List, [], ◌∷◌, none, some, Result, ok, err, arith, Option-cases, inl,
  inr,
}
use beadle.Text.{Text, CaseTables, codes, contains_any, ascii_lower, to_lower, lookup}
use beadle.Contacts.Permission.{
  Permission, ParseError, parse_permission, print, check_permission, or_none,
}
use beadle.Contacts.Permission.Parse.{parse_permission-Spells}
use beadle.Contacts.Book.{Contact, is_pattern, PathMatch, validate, grants_more}

validate-grants_more :
    (path_match : PathMatch) (c : Contact)
    → validate path_match c ≡ none
    → is_pattern c ≡ true
    → grants_more c.permissions ≡ false
unfolding validate
validate-grants_more path_match c h p = ground arith

lookup-grants_more :
    (perms : List (Text × Text)) (k : Text) {v : Text}
    → grants_more perms ≡ false
    → lookup k perms ≡ some v
    → contains_any v (codes "wWxX") ≡ false
unfolding grants_more lookup
lookup-grants_more [] k {v} h e = cc
lookup-grants_more ((j, w) ∷ perms) k {v} h e = ground (arith, lookup-grants_more perms k {v = v})

-- At most reading.
abbrev pub IsReadOnly : Permission → Type 0
IsReadOnly p = (p.write ≡ false) × (p.execute ≡ false)

Spells-IsReadOnly :
    (a b c : ℕ) (p : Permission)
    → contains_any (a ∷ b ∷ c ∷ []) (codes "wWxX") ≡ false
    → ascii_lower a ∷ ascii_lower b ∷ ascii_lower c ∷ [] ≡ print p
    → IsReadOnly p
unfolding contains_any print
Spells-IsReadOnly a b c p h e = ground arith

module _ ⦃u : CaseTables⦄ where
  parse_permission-IsReadOnly :
      (v : Text) {p : Permission}
      → contains_any v (codes "wWxX") ≡ false
      → parse_permission v ≡ ok p
      → IsReadOnly p
  parse_permission-IsReadOnly v {p} h e =
      let s = parse_permission-Spells v e in
      Spells-IsReadOnly s.a s.b s.c p (rw s.letters at h) s.lowered

  or_none-IsReadOnly :
      (v : Text) → contains_any v (codes "wWxX") ≡ false → IsReadOnly (or_none (parse_permission v))
  or_none-IsReadOnly v h = go (parse_permission v) refl
    where
      go : (r : Result ParseError Permission) → parse_permission v ≡ r → IsReadOnly (or_none r)
      go (ok p) e = parse_permission-IsReadOnly v h e
      go (err x) e = (refl, refl)

  -- A pattern contact that passes `Validate` has neither the write nor the execute permission,
  -- whatever the identity, the case tables and the pattern matcher are.
  pub validate-IsReadOnly :
      (path_match : PathMatch) (c : Contact) (identity_email : Text)
      → validate path_match c ≡ none
      → is_pattern c ≡ true
      → IsReadOnly (check_permission c.permissions identity_email)
  unfolding check_permission
  validate-IsReadOnly path_match c identity_email valid pat =
      elim (Option-cases (lookup (to_lower identity_email) c.permissions)) [
        | inl e ↦ rw (e, check_permission) (refl, refl)
        | inr (v, e) ↦
            rw (e, check_permission)
              (or_none-IsReadOnly v (
                lookup-grants_more c.permissions (to_lower identity_email)
                  (validate-grants_more path_match c valid pat) e))
      ]
