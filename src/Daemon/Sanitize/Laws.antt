-- ===== src/Daemon/Sanitize/Laws.antt =====
-- What `sanitizeText` and `capRunes` (internal/daemon/pipeline.go) guarantee.
use beadle.Prelude.{
  ℕ, ◌≤◌, ◌≡◌, ◌≢◌, refl, Bool, true, false, List, [], ◌∷◌, arith, length, take, length-take-le,
  take_all, All, map, ap, ◌↔◌,
}
use beadle.Text.{Text}
use beadle.Text.Laws.{equal_refl}
use beadle.Utf8.{Bytes, Decoded, rune, bad, decode, encode}
use beadle.Utf8.Zero.{NoZero, IsNonzero, decode-IsNonzero, encode-NoZero}
use beadle.Utf8.RoundTrip.{IsRune, decode-encode}
use beadle.Daemon.Sanitize.{strip_zero, repair, sanitize_text, cap_runes}

-- The capped text has at most `n` runes, begins the text it was cut from, and the flag says exactly
-- whether something was cut.
pub cap_runes_lem :
    (s : Text) (n : ℕ)
    → (length (cap_runes s n).0 ≤ n)
      × ((cap_runes s n).0 ≡ take n s)
      × (((cap_runes s n).1 ≡ false) ↔ ((cap_runes s n).0 ≡ s))
unfolding cap_runes
cap_runes_lem s n = ground (arith, take_all n s, length-take-le n s)

strip_zero-NoZero : (s : Bytes) → NoZero (strip_zero s)
unfolding strip_zero
strip_zero-NoZero [] = tt
strip_zero-NoZero (b ∷ s) = ground (arith, strip_zero-NoZero s)

strip_zero_id : (s : Bytes) → NoZero s → strip_zero s ≡ s
unfolding strip_zero
strip_zero_id [] h = refl
strip_zero_id (b ∷ s) h = ground (arith, strip_zero_id s)

repair-NoZero : (in_run : Bool) (us : List Decoded) → All IsNonzero us → NoZero (repair in_run us)
unfolding repair
repair-NoZero in_run [] h = tt
repair-NoZero in_run (rune c ∷ us) h = (h.0, repair-NoZero false us h.1)
repair-NoZero true (bad b ∷ us) h = repair-NoZero true us h.1
repair-NoZero false (bad b ∷ us) h = (omega arith, repair-NoZero true us h.1)

repair-rune : (t : Text) → repair false (map rune t) ≡ t
unfolding repair
repair-rune [] = refl
repair-rune (c ∷ t) = ap (◌∷◌ c) (repair-rune t)

-- No text that `sanitizeText` returns holds a NUL, whatever bytes it is given.
pub sanitize_text-NoZero : (s : Bytes) → All (λ c. c ≢ 0) (sanitize_text s).0
unfolding sanitize_text
sanitize_text-NoZero s =
    repair-NoZero false (decode (strip_zero s))
      (decode-IsNonzero (strip_zero s) (strip_zero-NoZero s))

-- Valid UTF-8 with no NUL comes back as the text it encodes, reported as unchanged.
pub sanitize_text-encode :
    (t : Text) → All IsRune t → All (λ c. c ≢ 0) t → sanitize_text (encode t) ≡ (t, false)
unfolding sanitize_text
sanitize_text-encode t h k =
    rw (strip_zero_id (encode t) (encode-NoZero t k), decode-encode t h, repair-rune t)
      (rw (equal_refl (encode t)))
