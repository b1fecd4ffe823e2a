-- ===== src/Prelude/Int.antt =====
-- Go's `int`, as far as the program only compares it.
use Prim.Native.Nat.{ℕ, compare, Ordering}
use mathlib.Core.Bool.{Bool, true, false}

-- `negsuc n` is -(n + 1).
pub data ℤ : Type 0 where
  pos : ℕ → ℤ
  negsuc : ℕ → ℤ

abbrev pub is_less : ℕ → ℕ → Bool
is_less a b = elim (compare a b) [ Ordering.lt ↦ true | _ ↦ false ]

-- `0 < z`.
abbrev pub is_positive : ℤ → Bool
is_positive (pos n) = is_less 0 n
is_positive (negsuc n) = false

-- `z < n`.
abbrev pub is_below : ℤ → ℕ → Bool
is_below (pos m) n = is_less m n
is_below (negsuc m) n = true
