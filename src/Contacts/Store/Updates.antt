-- ===== src/Contacts/Store/Updates.antt =====
-- What `Store.Add` and `Store.Remove` (internal/contacts/store.go) do to the store.
use beadle.Prelude.{
  ◌⊎◌, ◌≢◌, ◌≡◌, refl, [], ◌∷◌, ◌++◌, Option, none, some, arith, All, All-append, Option-cases, inl,
  inr,
}
use beadle.Text.{CaseTables}
use beadle.Contacts.Book.{
  Contact, ContactError, ConflictError, PathMatch, validate, check_name_conflict,
}
use beadle.Contacts.Store.{
  Store, StoreError, invalid, conflict, Outcome, mkdir_failed, written, not_written, write,
  normalize, add, load,
}

module _ ⦃u : CaseTables⦄ (path_match : PathMatch) where
  abbrev pub IsValidContact : Contact → Type 0
  IsValidContact c = validate path_match c ≡ none

  -- Every contact in memory passes `Validate`.
  abbrev pub IsValidStore : Store → Type 0
  IsValidStore s = All IsValidContact s.contacts

  pub contacts-write : (o : Outcome) (s : Store) → (write o s).0.contacts ≡ s.contacts
  unfolding write
  contacts-write mkdir_failed s = refl
  contacts-write _ s = refl

  -- `Add` keeps every contact of the store valid, also where it fails to write the file.
  pub add-IsValidStore :
      (o : Outcome) (c : Contact) (s : Store)
      → IsValidStore s
      → IsValidStore (add path_match o c s).0
  unfolding add
  add-IsValidStore o c s h = elim (Option-cases (validate path_match (normalize c))) [
    | inr (e, invalid_eq) ↦ rw (invalid_eq, add) h
    | inl valid ↦
        rw (valid, add)
          (elim (Option-cases (check_name_conflict s.contacts (normalize c))) [
            | inr (e, clash) ↦ rw (clash, add) h
            | inl free ↦
                rw (free, add, contacts-write o)
                  (All-append IsValidContact s.contacts (normalize c ∷ []) h (valid, tt))
          ])
  ]

  -- What `Add` leaves: the store, and the error. The contact is not valid, or has the name of
  -- another one, or is put behind the others in memory; then the file follows, or cannot be written.
  abbrev pub IsAdded : Outcome → Contact → Store → Store → Option StoreError → Type 0
  IsAdded o d s t e =
      ((x : ContactError) × (validate path_match d ≡ some x) × (t ≡ s) × (e ≡ some (invalid x)))
      ⊎ ((x : ConflictError) × (validate path_match d ≡ none)
          × (check_name_conflict s.contacts d ≡ some x)
          × (t ≡ s)
          × (e ≡ some (conflict x)))
      ⊎ ((validate path_match d ≡ none)
          × (check_name_conflict s.contacts d ≡ none)
          × (t.contacts ≡ s.contacts ++ d ∷ [])
          × (((o ≡ written) × (e ≡ none) × (load t ≡ t) × (t.file ≡ some t.contacts))
              ⊎ ((o ≢ written) × (e ≡ some (not_written o)) × (t.file ≡ s.file))))

  -- `Add` refuses exactly the contacts that, normalized, do not pass `Validate` or clash with the name
  -- of another, with the error found, and then nothing changes. Any other stands behind the old ones
  -- in memory; if the file can be written, there is no error and the file holds the same, so that
  -- loading it again changes nothing; and if it cannot, that is the error, and the file is as it was.
  pub add_outcome :
      (o : Outcome) (c : Contact) (s : Store)
      → ((add path_match o c s).1 ≡ normalize c)
        × IsAdded o (normalize c) s (add path_match o c s).0 (add path_match o c s).2
  unfolding add write load
  add_outcome o c s = (ground arith, grind arith)
