-- ===== src/Utf8/RoundTrip.antt =====
-- Decoding an encoded text gives the text.
use beadle.Prelude.{
  ℕ, ◌+◌, ◌<◌, ◌≤◌, ◌≡◌, refl, ◌⊎◌, ◌≢◌, ◌*◌, ◌/◌, ◌%◌, dec_lt, [], ◌∷◌, ◌++◌, arith, map, All, ap,
  ◌∙◌,
}
use beadle.Text.{Text}
use beadle.Utf8.{Bytes, rune, decode_rune, decode_from, decode, encode_rune, encode}

-- A Unicode scalar value: what `utf8.ValidRune` accepts.
abbrev pub IsRune : ℕ → Type 0
IsRune c = (c < 0xd800) ⊎ ((0xe000 ≤ c) × (c < 0x110000))

-- A first byte with the bytes that it wants behind it, by the digits that they carry.
decode_rune_two :
    (x y : ℕ) (rest : Bytes)
    → 2 ≤ x
    → x < 32
    → y < 64
    → decode_rune (0xc0 + x) ((0x80 + y) ∷ rest) ≡ (rune (x * 64 + y), 1)
unfolding decode_rune
decode_rune_two x y rest h k l = ground arith

decode_rune_three :
    (x y z : ℕ) (rest : Bytes)
    → x < 16
    → y < 64
    → z < 64
    → (1 ≤ x) ⊎ (32 ≤ y)
    → (x ≢ 13) ⊎ (y < 32)
    → decode_rune (0xe0 + x) ((0x80 + y) ∷ (0x80 + z) ∷ rest) ≡ (rune (x * 4096 + y * 64 + z), 2)
unfolding decode_rune
decode_rune_three x y z rest h k l lo hi = ground arith

decode_rune_four :
    (x y z w : ℕ) (rest : Bytes)
    → x < 5
    → y < 64
    → z < 64
    → w < 64
    → (1 ≤ x) ⊎ (16 ≤ y)
    → (x < 4) ⊎ (y < 16)
    → decode_rune (0xf0 + x) ((0x80 + y) ∷ (0x80 + z) ∷ (0x80 + w) ∷ rest)
      ≡ (rune (x * 262144 + y * 4096 + z * 64 + w), 3)
unfolding decode_rune
decode_rune_four x y z w rest h k l m lo hi = ground arith

module _ (c : ℕ) (rest : Bytes) where
  -- By the width of the encoding.
  abbrev Decodes : Type 0
  Decodes = decode_from 0 (encode_rune c ++ rest) ≡ rune c ∷ decode_from 0 rest

  decode_one : c < 0x80 → Decodes
  unfolding decode_from decode_rune encode_rune
  decode_one h = ground arith

  decode_two : 0x80 ≤ c → c < 0x800 → Decodes
  unfolding decode_from encode_rune
  decode_two h k =
      let e : c / 64 * 64 + c % 64 ≡ c = omega arith in
      ground (arith, e, decode_rune_two (c / 64) (c % 64) rest)

  decode_three : 0x800 ≤ c → c < 0x10000 → IsRune c → Decodes
  unfolding decode_from encode_rune
  decode_three h k r =
      let e : c / 4096 * 4096 + c / 64 % 64 * 64 + c % 64 ≡ c = omega arith in
      ground (arith, e, decode_rune_three (c / 4096) (c / 64 % 64) (c % 64) rest)

  decode_four : 0x10000 ≤ c → c < 0x110000 → Decodes
  unfolding decode_from encode_rune
  decode_four h k =
      let e : c / 262144 * 262144 + c / 4096 % 64 * 4096 + c / 64 % 64 * 64 + c % 64 ≡ c =
        omega arith in
      ground (arith, e, decode_rune_four (c / 262144) (c / 4096 % 64) (c / 64 % 64) (c % 64) rest)

  decode-encode_rune : IsRune c → Decodes
  decode-encode_rune r = elim (dec_lt c 0x80) [
    | yes p ↦ decode_one p
    | no p ↦ elim (dec_lt c 0x800) [
      | yes q ↦ decode_two (omega arith) q
      | no q ↦ elim (dec_lt c 0x10000) [
        | yes s ↦ decode_three (omega arith) s r
        | no s ↦ decode_four (omega arith) (omega arith)
      ]
    ]
  ]

-- Decoding the encoding of a text of scalar values gives those runes, and nothing bad.
pub decode-encode : (t : Text) → All IsRune t → decode (encode t) ≡ map rune t
unfolding decode encode
decode-encode [] h = refl
decode-encode (c ∷ t) h =
    decode-encode_rune c (encode t) h.0 ∙ ap (◌∷◌ (rune c)) (decode-encode t h.1)
