-- ===== src/Pgp/Expiry.antt =====
-- internal/pgp/expiry.go: whether the listing of a key allows signing with it.
pub mod Accepted
use beadle.Prelude.{
  ℕ, zero, suc, ◌+◌, Bool, true, false, not, ◌&&◌, ◌||◌, List, [], ◌∷◌, map, Option, none, some,
  Result, ok, err, ◌>>=◌, if◌then◌else◌, is_nil, length, ltb, leb, ◌==◌,
}
use beadle.Prelude.Int.{ℤ, pos, negsuc}
use beadle.Text.{Text, codes, equal, contains, split, parse_digits}

-- The errors of `parseColonExpiry`, in the order of the code.
pub data ExpiryError : Type 0 where
  never_expires not_current subkey_never_expires not_found ambiguous no_current_subkey : ExpiryError

-- `fields[i]`, of a list that is long enough.
abbrev pub field : ℕ → List Text → Text
field i [] = []
field zero (f ∷ fs) = f
field (suc i) (f ∷ fs) = field i fs

-- `strconv.ParseInt(s, 10, 64)`.
abbrev negated : ℕ → ℤ
negated zero = pos 0
negated (suc n) = negsuc n

abbrev non_negative : Text → Option ℤ
non_negative [] = none
non_negative (c ∷ s) = elim (parse_digits 0 (c ∷ s)) [
  | none ↦ none
  | some n ↦ if ltb n 0x8000000000000000 then some (pos n) else none
]

abbrev negative : Text → Option ℤ
negative [] = none
negative (c ∷ s) = elim (parse_digits 0 (c ∷ s)) [
  | none ↦ none
  | some n ↦ if leb n 0x8000000000000000 then some (negated n) else none
]

unfoldable pub parse_int64 : Text → Option ℤ
unfolding parse_digits
parse_int64 [] = none
parse_int64 (c ∷ s) =
    if c == b'-' then negative s else if c == b'+' then non_negative s else non_negative (c ∷ s)

-- `checkNotExpired` gives no error, at the Unix time `now`.
abbrev is_after : ℕ → ℤ → Bool
is_after now (pos e) = ltb now e
is_after now (negsuc e) = false

unfoldable pub check_not_expired : Text → ℕ → Bool
unfolding parse_int64
check_not_expired f now = elim (parse_int64 f) [ none ↦ false | some e ↦ is_after now e ]

-- The field says that the key never expires.
abbrev pub lacks_expiry : Text → Bool
lacks_expiry f = is_nil f || equal f (codes "0")

-- The variables of the loop.
pub record Seen : Type 0 where
  pub pub_count : ℕ
  pub signing : Bool
  pub valid : Bool

-- The arms of the switch, for the fields of one line.
unfoldable pub visit_pub : ℕ → Seen → List Text → Result ExpiryError Seen
unfolding equal check_not_expired
visit_pub now s fields =
    if ltb (length fields) 7
    then ok s
    else if lacks_expiry (field 6 fields)
    then err never_expires
    else if check_not_expired (field 6 fields) now
    then ok (record s { pub_count = suc s.pub_count })
    else err not_current

unfoldable pub visit_sub : ℕ → Seen → List Text → Result ExpiryError Seen
unfolding equal check_not_expired contains
visit_sub now s fields =
    if ltb (length fields) 12 || not (contains (field 11 fields) (codes "s"))
    then ok s
    else if lacks_expiry (field 6 fields)
    then err subkey_never_expires
    else ok (record s { signing = true; valid = s.valid || check_not_expired (field 6 fields) now })

unfoldable pub visit : ℕ → Seen → List Text → Result ExpiryError Seen
unfolding visit_pub visit_sub equal
visit now s fields =
    if equal (field 0 fields) (codes "pub")
    then visit_pub now s fields
    else if equal (field 0 fields) (codes "sub")
    then visit_sub now s fields
    else ok s

-- The loop.
unfoldable pub visit_all : ℕ → Seen → List (List Text) → Result ExpiryError Seen
unfolding visit
visit_all now s [] = ok s
visit_all now s (fields ∷ rest) = visit now s fields >>= λ t. visit_all now t rest

-- The end of `parseColonExpiry`; `none` is the nil error.
abbrev pub conclude : Seen → Option ExpiryError
conclude s =
    if s.pub_count == 0
    then some not_found
    else if ltb 1 s.pub_count
    then some ambiguous
    else if s.signing && not s.valid
    then some no_current_subkey
    else none

-- The fields of the lines of the output.
abbrev pub records : Text → List (List Text)
records output = map (split b':') (split b'\n' output)

abbrev pub unseen : Seen
unseen = record { pub_count = 0; signing = false; valid = false }

-- `parseColonExpiry`, at the Unix time `now`.
unfoldable pub parse_colon_expiry : ℕ → Text → Option ExpiryError
unfolding visit_all split
parse_colon_expiry now output = elim (visit_all now unseen (records output)) [
  | err e ↦ some e
  | ok s ↦ conclude s
]
