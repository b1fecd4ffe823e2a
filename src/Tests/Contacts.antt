-- ===== src/Tests/Contacts.antt =====
-- Runs of internal/contacts and its theorems at concrete contacts.
use beadle.Prelude.{◌≡◌, refl, true, false, [], ◌∷◌, none, some, ok, is_nil}
use beadle.Text.{
  codes, to_lower, trim_space, equal, contains_any, byte_len, has_suffix, split, join, lookup,
}
use beadle.Contacts.Permission.{parse_permission, check_permission}
use beadle.Contacts.Book.{
  is_pattern, validate, resolve_addresses, grants_more, find, matches_contact, resolve_address,
  check_name_conflict, name_owners, alias_owners, alias_taken,
}
use beadle.Contacts.Book.Restricted.{IsReadOnly, validate-IsReadOnly}
use beadle.Contacts.Store.{rename_failed, add, normalize, find_by_address}
use beadle.Contacts.Store.FindByAddress.{Found, find_by_address-Found}
use beadle.Contacts.Store.Updates.{IsAdded, add_outcome}
use beadle.Tests.Data.{ascii_tables, star_match, jim, anyone, book, book_store}

parse_upper :
    parse_permission (codes "rW-") ≡ ok (record { read = true; write = true; execute = false })
unfolding parse_permission byte_len to_lower
parse_upper = refl

resolve_two : resolve_addresses book (codes "boss, a@b,") ≡ ok (codes "Jim@x.org,a@b")
unfolding resolve_addresses resolve_address find matches_contact to_lower trim_space equal split
    join
resolve_two = refl

find_exact : find_by_address star_match book (codes " JIM@x.org") ≡ some jim
unfolding find_by_address to_lower trim_space equal contains_any has_suffix
find_exact = refl

find_pattern : find_by_address star_match book (codes "sam@x.org") ≡ some anyone
unfolding find_by_address to_lower trim_space equal contains_any has_suffix
find_pattern = refl

pub anyone_valid : validate star_match anyone ≡ none
unfolding validate trim_space contains_any grants_more has_suffix is_pattern
anyone_valid = refl

pub jim_valid : validate star_match jim ≡ none
unfolding validate trim_space contains_any grants_more has_suffix is_pattern
jim_valid = refl

anyone_pattern : is_pattern anyone ≡ true
unfolding is_pattern
anyone_pattern = refl

validate-IsReadOnly_example : IsReadOnly (check_permission anyone.permissions (codes "bot@x.org"))
validate-IsReadOnly_example =
    validate-IsReadOnly star_match anyone (codes "bot@x.org") anyone_valid anyone_pattern

filled : is_nil (to_lower (trim_space (codes "sam@x.org"))) ≡ false
unfolding to_lower trim_space
filled = refl

find_by_address-Found_example :
    Found star_match
      (to_lower (trim_space (codes "sam@x.org")))
      book
      (find_by_address star_match book (codes "sam@x.org"))
find_by_address-Found_example = find_by_address-Found star_match book (codes "sam@x.org") filled

add_outcome_example :
    let given = record jim { name = codes "Al" } in
    ((add star_match rename_failed given book_store).1 ≡ normalize given)
    × IsAdded star_match rename_failed
        (normalize given)
        book_store
        (add star_match rename_failed given book_store).0
        (add star_match rename_failed given book_store).2
add_outcome_example =
    add_outcome star_match rename_failed (record jim { name = codes "Al" }) book_store

jim_apart : check_name_conflict (anyone ∷ []) jim ≡ none
unfolding check_name_conflict name_owners alias_owners alias_taken lookup to_lower equal
jim_apart = refl
