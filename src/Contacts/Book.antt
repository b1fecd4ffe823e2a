-- ===== src/Contacts/Book.antt =====
-- internal/contacts/contacts.go: a contact, its validation, and names resolved to addresses.
pub mod Restricted
pub mod Conflict
use beadle.Prelude.{
  ℕ, Bool, true, false, not, ◌||◌, List, [], ◌∷◌, ◌++◌, Option, none, some, Result, ok, err, ◌>>=◌,
  if◌then◌else◌, keep, any, is_nil,
}
use beadle.Text.{
  Text, CaseTables, codes, equal, contains_rune, contains_any, trim_space, to_lower, split, join,
  lookup,
}

pub record Contact : Type 0 where
  pub name : Text
  pub email : Text
  pub aliases : List Text
  pub gpg_key_id : Text
  pub notes : Text
  pub permissions : List (Text × Text)

-- `Contact.IsPattern`.
unfoldable pub is_pattern : Contact → Bool
unfolding contains_any
is_pattern c = contains_any c.email (codes "*?[")

pub data ContactError : Type 0 where
  name_required email_required no_at bad_pattern pattern_grants : ContactError

-- The loop of `Validate` over a pattern's permissions.
unfoldable pub grants_more : List (Text × Text) → Bool
grants_more [] = false
grants_more ((k, perm) ∷ perms) = contains_any perm (codes "wWxX") || grants_more perms

-- `path.Match(pattern, name)`: `none` is `ErrBadPattern`.
abbrev pub PathMatch : Type 0
PathMatch = Text → Text → Option Bool

module _ (path_match : PathMatch) where
  pub validate_pattern : Contact → Option ContactError
  validate_pattern c = elim (path_match c.email (codes "probe")) [
    | none ↦ some bad_pattern
    | some _ ↦ if grants_more c.permissions then some pattern_grants else none
  ]

  -- `Validate`; `none` is the nil error.
  unfoldable pub validate : Contact → Option ContactError
  unfolding validate_pattern
  validate c =
      if is_nil (trim_space c.name)
      then some name_required
      else if is_nil (trim_space c.email)
      then some email_required
      else if not (contains_rune b'@' c.email)
      then some no_at
      else if is_pattern c
      then validate_pattern c
      else none

pub data ResolveError : Type 0 where
  empty_address : ResolveError
  no_contact : Text → ResolveError
  ambiguous : Text → List Contact → ResolveError

pub data ConflictError : Type 0 where
  name_conflict : Text → Text → ConflictError
  alias_conflict : Text → Text → ConflictError

module _ ⦃u : CaseTables⦄ where
  -- `matchesContact`; `query` is in lower case already.
  unfoldable pub matches_contact : Text → Contact → Bool
  matches_contact query c =
      equal (to_lower c.name) query
      || equal (to_lower c.email) query
      || any (λ a. equal (to_lower a) query) c.aliases

  -- `Find`.
  unfoldable pub find : List Contact → Text → List Contact
  find contacts query =
      let q = to_lower (trim_space query) in
      if is_nil q then [] else keep (matches_contact q) contacts

  pub pick : Text → List Contact → Result ResolveError Text
  pick token [] = err (no_contact token)
  pick token (c ∷ []) = ok c.email
  pick token (c ∷ d ∷ more) = err (ambiguous token (c ∷ d ∷ more))

  pub resolve_trimmed : List Contact → Text → Result ResolveError Text
  unfolding pick
  resolve_trimmed contacts token =
      if is_nil token
      then err empty_address
      else if contains_rune b'@' token
      then ok token
      else pick token (find contacts token)

  -- `ResolveAddress`; the list of matches that it returns beside an error is in the error.
  unfoldable pub resolve_address : List Contact → Text → Result ResolveError Text
  unfolding resolve_trimmed
  resolve_address contacts token = resolve_trimmed contacts (trim_space token)

  -- The loop of `ResolveAddresses`, over the tokens.
  unfoldable pub resolve_tokens : List Contact → List Text → Result ResolveError (List Text)
  resolve_tokens contacts [] = ok []
  resolve_tokens contacts (tok ∷ toks) =
      let rest = resolve_tokens contacts toks in
      if is_nil (trim_space tok)
      then rest
      else do addr ← resolve_address contacts (trim_space tok); addrs ← rest; ok (addr ∷ addrs)

  -- `ResolveAddresses`.
  unfoldable pub resolve_addresses : List Contact → Text → Result ResolveError Text
  unfolding resolve_tokens
  resolve_addresses contacts raw =
      if is_nil raw
      then ok []
      else do addrs ← resolve_tokens contacts (split b',' raw); ok (join (codes ",") addrs)

  -- The map of `CheckNameConflict`, the newest entry first.
  unfoldable pub alias_owners : Text → List Text → List (Text × Text) → List (Text × Text)
  alias_owners owner [] names = names
  alias_owners owner (a ∷ aliases) names = alias_owners owner aliases ((to_lower a, owner) ∷ names)

  unfoldable pub name_owners : List Contact → List (Text × Text) → List (Text × Text)
  unfolding alias_owners
  name_owners [] names = names
  name_owners (e ∷ existing) names =
      name_owners existing (alias_owners e.name e.aliases ((to_lower e.name, e.name) ∷ names))

  unfoldable pub alias_taken : List (Text × Text) → List Text → Option ConflictError
  alias_taken names [] = none
  alias_taken names (a ∷ aliases) = elim (lookup (to_lower a) names) [
    | none ↦ alias_taken names aliases
    | some owner ↦ some (alias_conflict a owner)
  ]

  -- `CheckNameConflict`; `none` is the nil error.
  unfoldable pub check_name_conflict : List Contact → Contact → Option ConflictError
  unfolding name_owners alias_taken
  check_name_conflict existing c =
      let names = name_owners existing [] in
      elim (lookup (to_lower c.name) names) [
        | none ↦ alias_taken names c.aliases
        | some owner ↦ some (name_conflict c.name owner)
      ]
