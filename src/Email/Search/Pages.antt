-- ===== src/Email/Search/Pages.antt =====
-- The pages of a search (internal/email/imap.go).
use beadle.Prelude.{
  ℕ, zero, suc, ◌+◌, ◌-◌, ◌*◌, ◌≤◌, ◌≡◌, ◌∙◌, ap, sym, refl, List, [], ◌∷◌, ◌++◌, length, arith,
}
use beadle.Email.Search.{slice, window}

slice-append :
    (a b c : ℕ) (xs : List ℕ) → a ≤ b → b ≤ c → slice a b xs ++ slice b c xs ≡ slice a c xs
unfolding slice
slice-append zero zero c xs h k = refl
slice-append a (suc b) zero xs h k = absurd (omega (arith, k))
slice-append (suc a) zero c xs h k = absurd (omega (arith, h))
slice-append a (suc b) (suc c) [] h k = refl
slice-append zero (suc b) (suc c) (x ∷ xs) h k =
    ap (◌∷◌ x) (slice-append zero b c xs (omega arith) (omega arith))
slice-append (suc a) (suc b) (suc c) (x ∷ xs) h k =
    slice-append a b c xs (omega arith) (omega arith)

slice_all : (xs : List ℕ) → slice 0 (length xs) xs ≡ xs
unfolding slice
slice_all [] = refl
slice_all (x ∷ xs) = ap (◌∷◌ x) (slice_all xs)

slice_none : (a b : ℕ) (xs : List ℕ) → b ≤ a → slice a b xs ≡ []
unfolding slice
slice_none a zero xs h = refl
slice_none a (suc b) [] h = refl
slice_none zero (suc b) (x ∷ xs) h = absurd (omega (arith, h))
slice_none (suc a) (suc b) (x ∷ xs) h = slice_none a b xs (omega arith)

-- The tests of `window` only say when the slice is empty.
pub window-eq :
    (xs : List ℕ) (count offset : ℕ)
    → window xs count offset ≡ slice (length xs - offset - count) (length xs - offset) xs
unfolding window
window-eq xs count offset =
    ground (arith, slice_none (length xs - offset - count) (length xs - offset) xs)

-- The pages of this size, from the last one that has been asked for to the newest.
abbrev pub pages : List ℕ → ℕ → ℕ → List ℕ
pages xs count zero = []
pages xs count (suc n) = window xs count (n * count) ++ pages xs count n

page-slice :
    (xs : List ℕ) (count m : ℕ)
    → window xs count m ++ slice (length xs - m) (length xs) xs
      ≡ slice (length xs - (m + count)) (length xs) xs
page-slice xs count m = rw (window-eq xs count m) (
    slice-append (length xs - m - count) (length xs - m) (length xs) xs (omega arith) (omega arith)
    ∙ ap (λ a. slice a (length xs) xs) (omega arith))

pages-slice :
    (xs : List ℕ) (count n : ℕ) → pages xs count n ≡ slice (length xs - n * count) (length xs) xs
pages-slice xs count zero = sym (slice_none (length xs - 0 * count) (length xs) xs (omega arith))
pages-slice xs count (suc n) =
    rw (pages-slice xs count n) (
      page-slice xs count (n * count)
      ∙ ap (λ a. slice (length xs - a) (length xs) xs) (omega arith))

-- Asking for the pages of one size one after the other, as many as it takes, gives every match
-- exactly once, in the order of the search.
pub pages_all : (xs : List ℕ) (count n : ℕ) → length xs ≤ n * count → pages xs count n ≡ xs
pages_all xs count n h =
    pages-slice xs count n ∙ ap (λ a. slice a (length xs) xs) (omega (arith, h)) ∙ slice_all xs
