-- ===== src/Utf8/Zero.antt =====
-- A byte string has no NUL exactly if the text that it encodes has none.
use beadle.Prelude.{ℕ, zero, suc, ◌≢◌, [], ◌∷◌, ◌++◌, arith, All}
use beadle.Text.{Text}
use beadle.Utf8.{Bytes, Decoded, rune, bad, decode_rune, decode_from, decode, encode_rune, encode}

abbrev pub NoZero : Bytes → Type 0
NoZero = All (λ b. b ≢ 0)

-- The unit is not the rune 0.
abbrev pub IsNonzero : Decoded → Type 0
IsNonzero (rune c) = c ≢ 0
IsNonzero (bad b) = Unit

decode_rune-IsNonzero : (a : ℕ) (rest : Bytes) → a ≢ 0 → IsNonzero (decode_rune a rest).0
unfolding decode_rune
decode_rune-IsNonzero a [] h = ground arith
decode_rune-IsNonzero a (b ∷ []) h = ground arith
decode_rune-IsNonzero a (b ∷ c ∷ []) h = ground arith
decode_rune-IsNonzero a (b ∷ c ∷ d ∷ rest) h = ground arith

decode_from-IsNonzero : (n : ℕ) (s : Bytes) → NoZero s → All IsNonzero (decode_from n s)
unfolding decode_from
decode_from-IsNonzero n [] h = tt
decode_from-IsNonzero zero (a ∷ s) h =
    (decode_rune-IsNonzero a s h.0, decode_from-IsNonzero (decode_rune a s).1 s h.1)
decode_from-IsNonzero (suc n) (a ∷ s) h = decode_from-IsNonzero n s h.1

pub decode-IsNonzero : (s : Bytes) → NoZero s → All IsNonzero (decode s)
unfolding decode
decode-IsNonzero s h = decode_from-IsNonzero 0 s h

encode_rune-NoZero : (c : ℕ) (rest : Bytes) → c ≢ 0 → NoZero rest → NoZero (encode_rune c ++ rest)
unfolding encode_rune
encode_rune-NoZero c rest h k = ground arith

pub encode-NoZero : (t : Text) → NoZero t → NoZero (encode t)
unfolding encode
encode-NoZero [] h = tt
encode-NoZero (c ∷ t) h = encode_rune-NoZero c (encode t) h.0 (encode-NoZero t h.1)
