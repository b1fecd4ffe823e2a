-- ===== src/Daemon/Runner/Capped.antt =====
-- What a capped writer keeps (internal/daemon/runner.go).
use mathlib.Core.List.{append_assoc, append-nil}
use beadle.Prelude.{
  ℕ, zero, suc, ◌-◌, ◌≤◌, ◌≡◌, ◌∙◌, ap, sym, refl, List, [], ◌∷◌, ◌++◌, length, length-append, take,
  take_all, if◌then◌else◌, ltb, lt→ltb, not_lt→ltb, dec_lt, arith,
}
use beadle.Utf8.{Bytes}
use beadle.Daemon.Runner.{CappedWriter, write_capped, write_all, dropped}

-- All that is written, in order.
abbrev pub written : List Bytes → Bytes
written [] = []
written (p ∷ ps) = p ++ written ps

take-append-short :
    (n : ℕ) (xs ys : Bytes) → length xs ≤ n → take n (xs ++ ys) ≡ xs ++ take (n - length xs) ys
take-append-short n [] ys h = ap (λ k. take k ys) (omega arith)
take-append-short zero (x ∷ xs) ys h = absurd (omega arith)
take-append-short (suc n) (x ∷ xs) ys h =
    ap (◌∷◌ x) (take-append-short n xs ys (omega arith) ∙ ap (λ k. xs ++ take k ys) (omega arith))

-- The writer holds the first `max` bytes of what was written to it, and counts all of it.
pub record Holds (w : CappedWriter) (m : ℕ) (all : Bytes) : Type 0 where
  pub max_eq : w.max ≡ m
  pub buf_eq : w.buf ≡ take m all
  pub total_eq : w.total ≡ length all

take-append-long : (n : ℕ) (xs ys : Bytes) → n ≤ length xs → take n (xs ++ ys) ≡ take n xs
take-append-long zero xs ys h = ground arith
take-append-long (suc n) [] ys h = absurd (omega arith)
take-append-long (suc n) (x ∷ xs) ys h = ap (◌∷◌ x) (take-append-long n xs ys (omega arith))

length-take_full : (n : ℕ) (xs : Bytes) → n ≤ length xs → length (take n xs) ≡ n
length-take_full zero xs h = ground arith
length-take_full (suc n) [] h = absurd (omega arith)
length-take_full (suc n) (x ∷ xs) h = ap suc (length-take_full n xs (omega arith))

-- One write to a writer that holds `take m all`.
kept : (m : ℕ) (all p : Bytes) → Bytes
kept m all p =
    let remaining = m - length (take m all) in
    if ltb 0 remaining then take m all ++ take remaining p else take m all

kept-eq : (m : ℕ) (all p : Bytes) → kept m all p ≡ take m (all ++ p)
unfolding kept
kept-eq m all p = elim (dec_lt (length all) m) [
  | yes short ↦ rw (
    take_all m all (omega arith),
    lt→ltb 0 (m - length all) (omega arith),
    take-append-short m all p (omega arith),
  )
  | no long ↦ rw (
    length-take_full m all (omega arith),
    not_lt→ltb 0 (m - m) (omega arith),
    take-append-long m all p (omega arith),
  )
]

write_capped-Holds :
    (w : CappedWriter) (m : ℕ) (all p : Bytes)
    → Holds w m all
    → Holds (write_capped w p) m (all ++ p)
unfolding write_capped
write_capped-Holds w m all p h = record {
  max_eq = h.max_eq;
  buf_eq = rw (h.max_eq, h.buf_eq) (unfold kept in kept-eq m all p);
  total_eq = omega (arith, h.total_eq, length-append all p);
}

new-Holds : (m : ℕ) → Holds (record { buf = []; max = m; total = 0 }) m []
new-Holds m = record { max_eq = refl; buf_eq = sym (take_all m [] (omega arith)); total_eq = refl }

write_all-Holds :
    (ps : List Bytes) (w : CappedWriter) (m : ℕ) (all : Bytes)
    → Holds w m all
    → Holds (write_all w ps) m (all ++ written ps)
unfolding write_all
write_all-Holds [] w m all h = rw (append-nil all) h
write_all-Holds (p ∷ ps) w m all h =
    rw (← append_assoc all p (written ps))
      (write_all-Holds ps (write_capped w p) m (all ++ p) (write_capped-Holds w m all p h))

-- However the output comes in pieces, a new writer with the cap `m` holds its first `m` bytes, and
-- reports as dropped exactly the bytes behind them.
pub write_all-take :
    (m : ℕ) (ps : List Bytes)
    → let w = write_all (record { buf = []; max = m; total = 0 }) ps in
      (w.buf ≡ take m (written ps)) × (dropped w ≡ length (written ps) - m)
unfolding dropped
write_all-take m ps =
    let h = write_all-Holds ps (record { buf = []; max = m; total = 0 }) m [] (new-Holds m) in
    (h.buf_eq, ground (arith, h.max_eq, h.total_eq))
