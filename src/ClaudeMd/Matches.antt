-- ===== src/ClaudeMd/Matches.antt =====
-- Which lines of a file match the import (internal/claudemd/imports.go), with one more line behind.
use mathlib.Core.List.{append-nil}
use beadle.Prelude.{
  ℕ, suc, ◌+◌, ◌≡◌, ◌∙◌, refl, ap, true, false, ◌||◌, List, [], ◌∷◌, ◌++◌, none, arith,
  if◌then◌else◌, length,
}
use beadle.Text.{Text, codes, contains_any, has_prefix}
use beadle.Text.Laws.{equal_refl}
use beadle.ClaudeMd.{validate}
use beadle.ClaudeMd.Lines.{starts_feed, trim_terminator}
use beadle.ClaudeMd.Fences.{
  bodies_of, parse_fence, is_indented, fenced_from, is_match, present_from, present, remove_from,
  remove,
}
use beadle.ClaudeMd.Bodies.{fenced_from-append, fenced_from-below, is_inside-below}

pub bodies_of-append : (ls ks : List Text) → bodies_of (ls ++ ks) ≡ bodies_of ls ++ bodies_of ks
bodies_of-append [] ks = refl
bodies_of-append (l ∷ ls) ks = ap (λ bs. trim_terminator l ∷ bs) (bodies_of-append ls ks)

pub length-bodies_of : (ls : List Text) → length (bodies_of ls) ≡ length ls
length-bodies_of [] = refl
length-bodies_of (l ∷ ls) = omega (arith, length-bodies_of ls)

pub validate-no_break : (i : Text) → validate i ≡ none → contains_any i (codes "\r\n") ≡ false
unfolding validate
validate-no_break i h = ground arith

pub validate-at : (i : Text) → validate i ≡ none → has_prefix i (codes "@") ≡ true
unfolding validate
validate-at i h = ground arith

pub at-starts_feed : (i e : Text) → has_prefix i (codes "@") ≡ true → starts_feed (i ++ e) ≡ false
unfolding has_prefix
at-starts_feed [] e h = cc
at-starts_feed (c ∷ i) e h = ground arith

pub at-parse_fence : (i : Text) → has_prefix i (codes "@") ≡ true → parse_fence i ≡ none
unfolding has_prefix parse_fence
at-parse_fence [] h = cc
at-parse_fence (c ∷ i) h = ground arith

pub at-is_indented : (i : Text) → has_prefix i (codes "@") ≡ true → is_indented i ≡ false
unfolding has_prefix is_indented
at-is_indented [] h = cc
at-is_indented (c ∷ i) h = ground arith

module _ (rs : List (ℕ × ℕ)) (i : Text) where
  pub present_from-append :
      (n : ℕ) (bs : List Text) (b : Text)
      → present_from rs i n (bs ++ b ∷ [])
        ≡ (present_from rs i n bs || is_match rs i (n + length bs) b)
  unfolding present_from
  present_from-append n [] b = ground arith
  present_from-append n (a ∷ bs) b = ground (arith, present_from-append (suc n) bs b)

  pub remove_from-append :
      (n : ℕ) (ls : List Text) (l : Text)
      → remove_from rs i n (ls ++ l ∷ [])
        ≡ remove_from rs i n ls
          ++ (if is_match rs i (n + length ls) (trim_terminator l) then [] else l ∷ [])
  unfolding remove_from
  remove_from-append n [] l = ground arith
  remove_from-append n (k ∷ ls) l = ground (arith, remove_from-append (suc n) ls l)

  pub remove_from-absent :
      (n : ℕ) (ls : List Text)
      → present_from rs i n (bodies_of ls) ≡ false
      → remove_from rs i n ls ≡ ls
  unfolding remove_from present_from
  remove_from-absent n [] h = refl
  remove_from-absent n (l ∷ ls) h = ground (arith, remove_from-absent (suc n) ls)

module _ (i : Text) (v : validate i ≡ none) (ls : List Text) (x : Text)
    (body : trim_terminator x ≡ i) where
  ranges-append : fenced_from 0 none (bodies_of (ls ++ x ∷ [])) ≡ fenced_from 0 none (bodies_of ls)
  ranges-append =
      rw (bodies_of-append ls (x ∷ []), body)
        (fenced_from-append 0 none (bodies_of ls) i (at-parse_fence i (validate-at i v)))

  last_match : is_match (fenced_from 0 none (bodies_of ls)) i (length ls) i ≡ true
  unfolding is_match
  last_match = ground (
    arith,
    is_inside-below (length ls) (fenced_from 0 none (bodies_of ls))
        (fenced_from-below 0 (length ls) none (bodies_of ls) (omega (arith, length-bodies_of ls))),
    at-is_indented i (validate-at i v),
    equal_refl i,
  )

  -- The import is found where it is the last line.
  pub present-append : present (ls ++ x ∷ []) i ≡ true
  unfolding present
  present-append =
      rw (ranges-append, bodies_of-append ls (x ∷ []), body)
        (present_from-append (fenced_from 0 none (bodies_of ls)) i 0 (bodies_of ls) i
          ∙ ground (arith, last_match, length-bodies_of ls))

  -- Where no other line matches, removing the import takes just that last line away.
  pub remove-append : present ls i ≡ false → remove (ls ++ x ∷ []) i ≡ ls
  unfolding remove present
  remove-append absent = rw ranges-append (
      remove_from-append (fenced_from 0 none (bodies_of ls)) i 0 ls x
      ∙ rw (remove_from-absent (fenced_from 0 none (bodies_of ls)) i 0 ls absent)
          (ground (arith, last_match, append-nil ls, body)))
