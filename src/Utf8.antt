-- ===== src/Utf8.antt =====
-- Byte strings and their runes, as Go's `unicode/utf8` reads them. `decode` is `range` over a
-- string: a byte that begins no valid encoding is one bad unit.
pub mod RoundTrip
pub mod Zero
use beadle.Prelude.{
  ℕ, zero, suc, ◌+◌, ◌-◌, ◌*◌, ◌/◌, ◌%◌, Bool, true, false, ◌&&◌, List, [], ◌∷◌, ◌++◌,
  if◌then◌else◌, ltb, leb, ◌==◌,
}
use beadle.Text.{Text}

abbrev pub Bytes : Type 0
Bytes = List ℕ

pub data Decoded : Type 0 where
  rune : ℕ → Decoded
  bad : ℕ → Decoded

abbrev pub is_continuation : ℕ → Bool
is_continuation b = leb 0x80 b && leb b 0xbf

-- The bounds of the second byte behind each first byte, which rule out overlong encodings,
-- surrogates and what lies above U+10FFFF.
abbrev pub second_of_three : ℕ → ℕ → Bool
second_of_three a b =
    leb (if a == 0xe0 then 0xa0 else 0x80) b && leb b (if a == 0xed then 0x9f else 0xbf)

abbrev pub second_of_four : ℕ → ℕ → Bool
second_of_four a b =
    leb (if a == 0xf0 then 0x90 else 0x80) b && leb b (if a == 0xf4 then 0x8f else 0xbf)

abbrev pub two : ℕ → Bytes → Decoded × ℕ
two a (b ∷ _) = if is_continuation b then (rune ((a - 0xc0) * 64 + (b - 0x80)), 1) else (bad a, 0)
two a _ = (bad a, 0)

abbrev pub three : ℕ → Bytes → Decoded × ℕ
three a (b ∷ c ∷ _) =
    if second_of_three a b && is_continuation c
    then (rune ((a - 0xe0) * 4096 + (b - 0x80) * 64 + (c - 0x80)), 2)
    else (bad a, 0)
three a _ = (bad a, 0)

abbrev pub four : ℕ → Bytes → Decoded × ℕ
four a (b ∷ c ∷ d ∷ _) =
    if second_of_four a b && (is_continuation c && is_continuation d)
    then (rune ((a - 0xf0) * 262144 + (b - 0x80) * 4096 + (c - 0x80) * 64 + (d - 0x80)), 3)
    else (bad a, 0)
four a _ = (bad a, 0)

-- `utf8.DecodeRuneInString` at a byte and those behind it: the unit, and the further bytes it takes.
pub decode_rune : ℕ → Bytes → Decoded × ℕ
decode_rune a rest =
    if ltb a 0x80
    then (rune a, 0)
    else if leb 0xc2 a && leb a 0xdf
    then two a rest
    else if leb 0xe0 a && leb a 0xef
    then three a rest
    else if leb 0xf0 a && leb a 0xf4
    then four a rest
    else (bad a, 0)

-- The number is of bytes that the last unit has taken.
pub decode_from : ℕ → Bytes → List Decoded
decode_from n [] = []
decode_from zero (a ∷ rest) = let (u, n) = decode_rune a rest in u ∷ decode_from n rest
decode_from (suc n) (a ∷ rest) = decode_from n rest

unfoldable pub decode : Bytes → List Decoded
unfolding decode_from decode_rune
decode s = decode_from 0 s

-- The UTF-8 encoding of a rune and of a text.
unfoldable pub encode_rune : ℕ → Bytes
encode_rune c =
    if ltb c 0x80
    then c ∷ []
    else if ltb c 0x800
    then (0xc0 + c / 64) ∷ (0x80 + c % 64) ∷ []
    else if ltb c 0x10000
    then (0xe0 + c / 4096) ∷ (0x80 + c / 64 % 64) ∷ (0x80 + c % 64) ∷ []
    else (0xf0 + c / 262144) ∷ (0x80 + c / 4096 % 64) ∷ (0x80 + c / 64 % 64) ∷ (0x80 + c % 64) ∷ []

unfoldable pub encode : Text → Bytes
unfolding encode_rune
encode [] = []
encode (c ∷ t) = encode_rune c ++ encode t
