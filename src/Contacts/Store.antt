-- ===== src/Contacts/Store.antt =====
-- internal/contacts/store.go: the contacts in memory and the file behind them. The four calls that
-- `write` makes of the operating system end as an argument says.
pub mod FindByAddress
pub mod Updates
pub mod Names
use beadle.Prelude.{
  ℕ, Bool, true, false, not, ◌||◌, List, [], ◌∷◌, ◌++◌, Option, none, some, if◌then◌else◌, is_nil,
  ltb, length,
}
use beadle.Text.{Text, CaseTables, equal, equal_fold, trim_space, to_lower}
use beadle.Contacts.Book.{
  Contact, is_pattern, ContactError, PathMatch, validate, ConflictError, check_name_conflict,
}

-- The contacts in memory, and those in the file, if there is one. No operation reads the temporary
-- file that `write` makes and renames.
pub record Store : Type 0 where
  pub contacts : List Contact
  pub file : Option (List Contact)

-- How the calls in `write` end.
pub data Outcome : Type 0 where
  mkdir_failed marshal_failed write_failed rename_failed written : Outcome

pub data StoreError : Type 0 where
  invalid : ContactError → StoreError
  conflict : ConflictError → StoreError
  not_found : Text → StoreError
  not_written : Outcome → StoreError

-- `Store.write`, through the temporary file and the rename.
unfoldable pub write : Outcome → Store → Store × Option StoreError
write mkdir_failed s = (s, some (not_written mkdir_failed))
write marshal_failed s = (s, some (not_written marshal_failed))
write write_failed s = (s, some (not_written write_failed))
write rename_failed s = (s, some (not_written rename_failed))
write written s = (record s { file = some s.contacts }, none)

-- The contact as `Add` normalizes it.
pub trim_aliases : List Text → List Text
trim_aliases [] = []
trim_aliases (a ∷ aliases) =
    let rest = trim_aliases aliases in if is_nil (trim_space a) then rest else trim_space a ∷ rest

unfoldable pub normalize : Contact → Contact
unfolding trim_aliases
normalize c = record c {
  name = trim_space c.name;
  email = trim_space c.email;
  aliases = trim_aliases c.aliases;
  gpg_key_id = trim_space c.gpg_key_id;
}

module _ ⦃u : CaseTables⦄ (path_match : PathMatch) where
  -- `Store.Add`: the store, the contact as normalized, and the error.
  unfoldable pub add : Outcome → Contact → Store → Store × Contact × Option StoreError
  unfolding normalize
  add outcome given s =
      let c = normalize given in
      elim (validate path_match c) [
        | some e ↦ (s, c, some (invalid e))
        | none ↦ elim (check_name_conflict s.contacts c) [
          | some e ↦ (s, c, some (conflict e))
          | none ↦
              let (t, e) = write outcome (record s { contacts = s.contacts ++ c ∷ [] }) in (t, c, e)
        ]
      ]

-- The contacts without the first that passes; `none` where none does.
unfoldable pub cut : (Contact → Bool) → List Contact → Option (List Contact)
cut test [] = none
cut test (c ∷ cs) =
    let later = cut test cs in
    if test c then some cs else elim later [ none ↦ none | some rest ↦ some (c ∷ rest) ]

module _ ⦃u : CaseTables⦄ where
  -- `Store.Remove`.
  unfoldable pub remove : Outcome → Text → Store → Store × Option StoreError
  remove outcome name s = elim (cut (λ c. equal_fold c.name (trim_space name)) s.contacts) [
    | none ↦ (s, some (not_found (trim_space name)))
    | some rest ↦ write outcome (record s { contacts = rest })
  ]

-- `Store.Load`, where the file can be read and parsed: a missing file is no contacts.
unfoldable pub load : Store → Store
load s = elim s.file [
  | none ↦ record s { contacts = [] }
  | some contacts ↦ record s { contacts = contacts }
]

-- The three variables of `FindByAddress`: `none` is `haveBest == false`.
abbrev pub Best : Type 0
Best = Option Contact

module _ ⦃u : CaseTables⦄ (path_match : PathMatch) where
  -- A pattern contact that matches becomes the best one if it is longer than the best so far.
  unfoldable pub improve : Contact → Best → Best
  improve c none = some c
  improve c (some b) = if ltb (length b.email) (length c.email) then some c else some b

  unfoldable pub pattern_matches : Text → Contact → Bool
  pattern_matches addr c = elim (path_match (to_lower c.email) addr) [ none ↦ false | some m ↦ m ]

  -- The loop of `FindByAddress`.
  unfoldable pub find_from : Text → Best → List Contact → Option Contact
  unfolding improve pattern_matches is_pattern
  find_from addr best [] = best
  find_from addr best (c ∷ cs) =
      let skip = find_from addr best cs in
      let taken = find_from addr (improve c best) cs in
      if is_nil c.email
      then skip
      else if not (is_pattern c)
      then if equal (to_lower c.email) addr then some c else skip
      else if pattern_matches addr c
      then taken
      else skip

  -- `FindByAddress`; `none` is `(Contact{}, false)`.
  unfoldable pub find_by_address : List Contact → Text → Option Contact
  unfolding find_from
  find_by_address contacts addr =
      let a = to_lower (trim_space addr) in if is_nil a then none else find_from a none contacts
