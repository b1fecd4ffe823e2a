-- ===== src/Daemon/Sanitize.antt =====
-- internal/daemon/pipeline.go, `sanitizeText` and `capRunes`: what happens to text from an email
-- before a worker sees it.
pub mod Laws
use beadle.Prelude.{
  ℕ, Bool, true, false, not, List, [], ◌∷◌, if◌then◌else◌, leb, ◌==◌, keep, length, take,
}
use beadle.Text.{Text, equal}
use beadle.Utf8.{Bytes, Decoded, rune, bad, decode, encode}

-- `strings.ReplaceAll(s, "\x00", "")`.
pub strip_zero : Bytes → Bytes
strip_zero s = keep (λ b. not (b == 0)) s

-- `strings.ToValidUTF8(s, "\uFFFD")`: one replacement for each run of bad bytes. The flag is that the
-- last unit was bad.
pub repair : Bool → List Decoded → Text
repair in_run [] = []
repair in_run (rune c ∷ us) = c ∷ repair false us
repair true (bad b ∷ us) = repair true us
repair false (bad b ∷ us) = 0xfffd ∷ repair true us

-- `sanitizeText`.
unfoldable pub sanitize_text : Bytes → Text × Bool
unfolding strip_zero repair
sanitize_text s =
    let valid = repair false (decode (strip_zero s)) in (valid, not (equal (encode valid) s))

-- `capRunes`.
unfoldable pub cap_runes : Text → ℕ → Text × Bool
cap_runes s n = if leb (length s) n then (s, false) else (take n s, true)
