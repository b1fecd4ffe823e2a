-- ===== src/Contacts/Store/Names.antt =====
-- The names in the store (internal/contacts/store.go) stay unambiguous.
use mathlib.Core.List.{append_assoc, append-nil}
use beadle.Prelude.{List, [], ◌∷◌, ◌++◌, All, Option-cases, inl, inr}
use beadle.Text.{CaseTables}
use beadle.Contacts.Book.{Contact, PathMatch, validate, check_name_conflict}
use beadle.Contacts.Book.Conflict.{IsApart, check_name_conflict_iff}
use beadle.Contacts.Store.{Store, Outcome, normalize, add}
use beadle.Contacts.Store.Updates.{contacts-write}

module _ ⦃u : CaseTables⦄ where
  -- Each contact shares no name with those before it, the ones of `seen` included.
  abbrev pub IsDistinct : List Contact → List Contact → Type 0
  IsDistinct seen [] = Unit
  IsDistinct seen (c ∷ cs) = All (IsApart c) seen × IsDistinct (seen ++ c ∷ []) cs

  IsDistinct-append :
      (seen cs : List Contact) (c : Contact)
      → IsDistinct seen cs
      → All (IsApart c) (seen ++ cs)
      → IsDistinct seen (cs ++ c ∷ [])
  IsDistinct-append seen [] c h apart = ((rw append-nil at apart), tt)
  IsDistinct-append seen (d ∷ cs) c h apart =
      (h.0, IsDistinct-append (seen ++ d ∷ []) cs c h.1 (rw (append_assoc seen (d ∷ []) cs) apart))

  -- `Add` keeps the store free of names shared by two contacts, in lower case, also where it fails to
  -- write the file.
  pub add-IsDistinct :
      (path_match : PathMatch) (o : Outcome) (c : Contact) (s : Store)
      → IsDistinct [] s.contacts
      → IsDistinct [] (add path_match o c s).0.contacts
  unfolding add
  add-IsDistinct path_match o c s h = elim (Option-cases (validate path_match (normalize c))) [
    | inr (e, invalid_eq) ↦ rw (invalid_eq, add) h
    | inl valid ↦
        rw (valid, add)
          (elim (Option-cases (check_name_conflict s.contacts (normalize c))) [
            | inr (e, clash) ↦ rw (clash, add) h
            | inl free ↦
                rw (free, add, contacts-write path_match o)
                  (IsDistinct-append [] s.contacts (normalize c) h
                    ((check_name_conflict_iff s.contacts (normalize c)).0 free))
          ])
  ]
