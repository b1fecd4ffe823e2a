-- ===== src/Contacts/Permission/Parse.antt =====
-- `ParsePermission` against `Permission.String`.
use beadle.Prelude.{ℕ, ◌<◌, ◌≡◌, ◌↔◌, [], ◌∷◌, ok, ◌++◌, arith}
use beadle.Text.{Text, CaseTables, byte_len, to_lower, lower_rune, ascii_lower}
use beadle.Contacts.Permission.{Permission, parse_permission, print, read_letters}

byte_len_ascii :
    (a b c : ℕ) (s : Text)
    → byte_len (a ∷ b ∷ c ∷ s) ≡ 3
    → (s ≡ []) × (a < 128) × (b < 128) × (c < 128)
unfolding byte_len
byte_len_ascii a b c [] h = ground arith
byte_len_ascii a b c (d ∷ s) h = ground arith

module _ ⦃u : CaseTables⦄ where
  -- Reading back the printed form of a permission gives that permission.
  pub parse_permission-print : (p : Permission) → parse_permission (print p) ≡ ok p
  unfolding parse_permission print byte_len to_lower
  parse_permission-print p = ground arith

-- A text that reads as a permission begins with the letters that the permission prints.
read_letters-print :
    (s : Text) {p : Permission} → read_letters s ≡ ok p → (t : Text) × (s ≡ print p ++ t)
unfolding read_letters print
read_letters-print [] h = ([], cc)
read_letters-print (a ∷ []) h = ([], ground arith)
read_letters-print (a ∷ b ∷ []) h = ([], ground arith)
read_letters-print (a ∷ b ∷ c ∷ t) h = (t, ground arith)

-- Three ASCII letters that are, but for their case, those that the permission prints.
pub record Spells (s : Text) (p : Permission) : Type 0 where
  pub a : ℕ
  pub b : ℕ
  pub c : ℕ
  pub letters : s ≡ a ∷ b ∷ c ∷ []
  pub ascii : (a < 128) × (b < 128) × (c < 128)
  pub lowered : ascii_lower a ∷ ascii_lower b ∷ ascii_lower c ∷ [] ≡ print p

module _ ⦃u : CaseTables⦄ where
  parse_permission-eq-ok :
      (s : Text) {p : Permission}
      → parse_permission s ≡ ok p
      → (byte_len s ≡ 3) × (read_letters (to_lower s) ≡ ok p)
  unfolding parse_permission
  parse_permission-eq-ok s h = ground arith

  lower_rune_ascii : (c : ℕ) → c < 128 → lower_rune c ≡ ascii_lower c
  unfolding lower_rune
  lower_rune_ascii c h = ground arith

  Spells-of_lower :
      (s : Text) (p : Permission) (t : Text)
      → byte_len s ≡ 3
      → to_lower s ≡ print p ++ t
      → Spells s p
  unfolding to_lower print
  Spells-of_lower [] p t n h = cc
  Spells-of_lower (a ∷ []) p t n h = cc
  Spells-of_lower (a ∷ b ∷ []) p t n h = cc
  Spells-of_lower (a ∷ b ∷ c ∷ s) p t n h =
      let (e, la, lb, lc) = byte_len_ascii a b c s n in
      record {
        a = a;
        b = b;
        c = c;
        letters = cc;
        ascii = (la, lb, lc);
        lowered = cc (lower_rune_ascii a la, lower_rune_ascii b lb, lower_rune_ascii c lc);
      }

  -- A text that `ParsePermission` accepts spells what it is parsed as.
  pub parse_permission-Spells : (s : Text) {p : Permission} → parse_permission s ≡ ok p → Spells s p
  parse_permission-Spells s {p} h =
      let (n, r) = parse_permission-eq-ok s h in
      let (t, e) = read_letters-print (to_lower s) r in Spells-of_lower s p t n e

  -- A text that spells a permission is parsed as it.
  pub Spells-parse_permission : (s : Text) (p : Permission) → Spells s p → parse_permission s ≡ ok p
  unfolding parse_permission byte_len to_lower print lower_rune
  Spells-parse_permission s p h = rw h.letters (ground (arith))

  -- Spelling decides the parse: `ParsePermission` gives a permission exactly for the texts that spell
  -- it.
  pub parse_permission_iff : (s : Text) (p : Permission) → (parse_permission s ≡ ok p) ↔ Spells s p
  parse_permission_iff s p = (parse_permission-Spells s, Spells-parse_permission s p)
