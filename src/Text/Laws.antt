-- ===== src/Text/Laws.antt =====
-- The laws of texts that the components share.
use beadle.Prelude.{map, ◌≡◌, refl, ◌↔◌, true, false, ◌∷◌, arith}
use beadle.Text.{Text, CaseTables, fold_rune, equal, equal_fold}

pub equal_iff : (s t : Text) → (equal s t ≡ true) ↔ (s ≡ t)
unfolding equal
equal_iff (x ∷ s) (y ∷ t) = ground (arith, equal_iff s t)
equal_iff _ _ = ground arith

pub equal_refl : (s : Text) → equal s s ≡ true
equal_refl s = (equal_iff s s).1 refl

pub equal_fold_refl : ⦃u : CaseTables⦄ (s : Text) → equal_fold s s ≡ true
unfolding equal_fold
equal_fold_refl s = equal_refl (map fold_rune s)

-- A text that is one literal is not another.
pub equal_apart : (w s t : Text) → equal s t ≡ false → equal w s ≡ true → equal w t ≡ false
equal_apart w s t apart h = rw ((equal_iff w s).0 h) apart
