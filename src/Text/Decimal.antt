-- ===== src/Text/Decimal.antt =====
-- `%d` of a number that is not negative.
use beadle.Prelude.{ℕ, zero, suc, ◌+◌, ◌/◌, ◌%◌, [], ◌∷◌, if◌then◌else◌, ltb}
use beadle.Text.{Text}

-- The digits of a number in front of others; a number has fewer digits than its successor counts.
unfoldable pub digits : ℕ → ℕ → Text → Text
digits zero n acc = acc
digits (suc fuel) n acc =
    let rest = digits fuel (n / 10) ((b'0' + n % 10) ∷ acc) in
    if ltb n 10 then (b'0' + n) ∷ acc else rest

unfoldable pub decimal : ℕ → Text
unfolding digits
decimal n = digits (suc n) n []
