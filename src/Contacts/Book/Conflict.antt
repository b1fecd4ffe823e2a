-- ===== src/Contacts/Book/Conflict.antt =====
-- What `CheckNameConflict` (internal/contacts/contacts.go) accepts.
use beadle.Prelude.{◌≡◌, ◌≢◌, ◌↔◌, List, [], ◌∷◌, none, arith, map, All}
use beadle.Text.{Text, CaseTables, to_lower, lookup}
use beadle.Text.Laws.{equal_iff}
use beadle.Contacts.Book.{Contact, alias_owners, name_owners, alias_taken, check_name_conflict}

module _ ⦃u : CaseTables⦄ where
  -- The names that a contact goes by.
  abbrev pub labels : Contact → List Text
  labels c = to_lower c.name ∷ map to_lower c.aliases

  abbrev pub IsAbsent : List Text → Text → Type 0
  IsAbsent ts t = All (λ x. x ≢ t) ts

  -- Two contacts share no name.
  abbrev pub IsApart : Contact → Contact → Type 0
  IsApart c e = All (IsAbsent (labels e)) (labels c)

  -- A name that none of the contacts has.
  abbrev pub IsFree : List Contact → Text → Type 0
  IsFree cs t = All (λ e. IsAbsent (labels e) t) cs

  lookup-cons :
      (k j v : Text) (m : List (Text × Text))
      → (lookup k ((j, v) ∷ m) ≡ none) ↔ ((j ≢ k) × (lookup k m ≡ none))
  unfolding lookup
  lookup-cons k j v m = ground (arith, equal_iff j k)

  lookup-alias_owners :
      (k owner : Text) (aliases : List Text) (m : List (Text × Text))
      → (lookup k (alias_owners owner aliases m) ≡ none)
        ↔ (IsAbsent (map to_lower aliases) k × (lookup k m ≡ none))
  unfolding alias_owners
  lookup-alias_owners k owner [] m = ground arith
  lookup-alias_owners k owner (a ∷ aliases) m = ground (
    arith,
    lookup-alias_owners k owner aliases ((to_lower a, owner) ∷ m),
    lookup-cons k (to_lower a) owner m,
  )

  lookup-name_owners :
      (k : Text) (cs : List Contact) (m : List (Text × Text))
      → (lookup k (name_owners cs m) ≡ none) ↔ (IsFree cs k × (lookup k m ≡ none))
  unfolding name_owners
  lookup-name_owners k [] m = ground arith
  lookup-name_owners k (e ∷ cs) m = ground (
    arith,
    lookup-name_owners k cs (alias_owners e.name e.aliases ((to_lower e.name, e.name) ∷ m)),
    lookup-alias_owners k e.name e.aliases ((to_lower e.name, e.name) ∷ m),
    lookup-cons k (to_lower e.name) e.name m,
  )

  lookup-IsFree :
      (k : Text) (cs : List Contact) → (lookup k (name_owners cs []) ≡ none) ↔ IsFree cs k
  unfolding lookup
  lookup-IsFree k cs = ground (arith, lookup-name_owners k cs [])

  alias_taken_iff :
      (cs : List Contact) (aliases : List Text)
      → (alias_taken (name_owners cs []) aliases ≡ none) ↔ All (IsFree cs) (map to_lower aliases)
  unfolding alias_taken
  alias_taken_iff cs [] = ground arith
  alias_taken_iff cs (a ∷ aliases) =
      ground (arith, alias_taken_iff cs aliases, lookup-IsFree (to_lower a) cs)

  -- Both quantifiers, of the texts and of the contacts, in one order and in the other.
  swap-nil : (cs : List Contact) → All {A = Contact} (λ e. All (IsAbsent (labels e)) []) cs
  swap-nil [] = tt
  swap-nil (e ∷ cs) = (tt, swap-nil cs)

  swap-cons :
      (cs : List Contact) (t : Text) (ts : List Text)
      → (IsFree cs t × All (λ e. All (IsAbsent (labels e)) ts) cs)
        ↔ All (λ e. All (IsAbsent (labels e)) (t ∷ ts)) cs
  swap-cons [] t ts = ground arith
  swap-cons (e ∷ cs) t ts = ground (arith, swap-cons cs t ts)

  swap :
      (cs : List Contact) (ts : List Text)
      → All (IsFree cs) ts ↔ All (λ e. All (IsAbsent (labels e)) ts) cs
  swap cs [] = (λ _. swap-nil cs, λ _. tt)
  swap cs (t ∷ ts) = ground (arith, swap cs ts, swap-cons cs t ts)

  -- `CheckNameConflict` accepts a contact exactly if, in lower case, neither its name nor an alias of
  -- it is the name or an alias of an existing contact.
  pub check_name_conflict_iff :
      (existing : List Contact) (c : Contact)
      → (check_name_conflict existing c ≡ none) ↔ All (IsApart c) existing
  unfolding check_name_conflict
  check_name_conflict_iff existing c = ground (
    arith,
    lookup-IsFree (to_lower c.name) existing,
    alias_taken_iff existing c.aliases,
    swap existing (labels c),
  )
