-- ===== src/Contacts/Permission.antt =====
-- internal/contacts/permissions.go: the rwx permission of an (identity, contact) pair.
pub mod Parse
use beadle.Prelude.{
  ℕ, Bool, true, false, List, [], ◌∷◌, Option, none, some, Result, ok, err, ◌>>=◌, ◌==◌,
  if◌then◌else◌,
}
use beadle.Text.{Text, CaseTables, byte_len, to_lower, lookup}

pub record Permission : Type 0 where
  pub read : Bool
  pub write : Bool
  pub execute : Bool

-- The errors of `ParsePermission`; `out_of_range` is the panic of an index past the end.
pub data ParseError : Type 0 where
  bad_length bad_read bad_write bad_execute out_of_range : ParseError

-- One `switch s[i]` of `ParsePermission`: the letter or '-', and the text behind it. A rune above
-- ASCII is its first byte here, which is neither.
pub read_letter : ℕ → ParseError → Text → Result ParseError (Bool × Text)
read_letter letter e [] = err out_of_range
read_letter letter e (c ∷ s) =
    if c == letter then ok (true, s) else if c == b'-' then ok (false, s) else err e

pub read_letters : Text → Result ParseError Permission
unfolding read_letter
read_letters s = do
  (r, s₁) ← read_letter b'r' bad_read s
  (w, s₂) ← read_letter b'w' bad_write s₁
  (x, s₃) ← read_letter b'x' bad_execute s₂
  ok (record { read = r; write = w; execute = x })

module _ ⦃u : CaseTables⦄ where
  -- `ParsePermission`.
  unfoldable pub parse_permission : Text → Result ParseError Permission
  unfolding read_letters
  parse_permission s = if byte_len s == 3 then read_letters (to_lower s) else err bad_length

abbrev dash_or : Bool → ℕ → ℕ
dash_or b letter = if b then letter else b'-'

-- `Permission.String`.
unfoldable pub print : Permission → Text
print p = dash_or p.read b'r' ∷ dash_or p.write b'w' ∷ dash_or p.execute b'x' ∷ []

-- `Permission{}`.
abbrev pub no_permission : Permission
no_permission = record { read = false; write = false; execute = false }

-- The entry of `CheckPermission`, if there is one and it parses.
abbrev pub or_none : Result ParseError Permission → Permission
or_none (ok p) = p
or_none (err e) = no_permission

module _ ⦃u : CaseTables⦄ where
  -- `CheckPermission`, on the contact's `Permissions`; a nil map has no entry.
  unfoldable pub check_permission : List (Text × Text) → Text → Permission
  check_permission perms identity_email = elim (lookup (to_lower identity_email) perms) [
    | none ↦ no_permission
    | some perm ↦ or_none (parse_permission perm)
  ]
