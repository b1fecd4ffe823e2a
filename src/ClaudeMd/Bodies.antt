-- ===== src/ClaudeMd/Bodies.antt =====
-- The lines net of their terminators (internal/claudemd/imports.go), and the fences among them.
use beadle.Prelude.{
  ℕ, suc, ◌+◌, ◌<◌, ◌≡◌, ◌∙◌, refl, sym, ap, Bool, true, false, not, ◌&&◌, List, [], ◌∷◌, ◌++◌,
  Option, none, some, arith, Bool-cases, inl, inr, if◌then◌else◌, is_nil, All, length,
}
use beadle.Text.{Text, codes, contains_any}
use beadle.ClaudeMd.Lines.{is_break, ends_line, glue, split_keep_ends, trim_terminator}
use beadle.ClaudeMd.Fences.{bodies_of, Opener, opens, parse_fence, fenced_from, is_inside}
use beadle.ClaudeMd.Split.{is_closed, IsEol}

-- What `glue` does to the bodies.
abbrev trim_glue : ℕ → List Text → List Text
trim_glue c [] = (if is_break c then [] else c ∷ []) ∷ []
trim_glue c (b ∷ bs) = (if is_nil b && is_break c then [] else c ∷ b) ∷ bs

bodies_of-glue : (c : ℕ) (ls : List Text) → bodies_of (glue c ls) ≡ trim_glue c (bodies_of ls)
unfolding trim_terminator
bodies_of-glue c [] = ground arith
bodies_of-glue c (l ∷ ls) = refl

abbrev has_no_break : Text → Bool
has_no_break s = not (contains_any s (codes "\r\n"))

pub one_line :
    (i : Text) (e : Text)
    → IsEol e
    → contains_any i (codes "\r\n") ≡ false
    → split_keep_ends (i ++ e) ≡ (i ++ e) ∷ []
unfolding split_keep_ends contains_any
one_line [] e (inl h) k = rw h refl
one_line [] e (inr (inl h)) k = rw h refl
one_line [] e (inr (inr h)) k = rw h refl
one_line (c ∷ i) e h k = ground (arith, one_line i e h)

pub trim_terminator-append :
    (i : Text) (e : Text)
    → IsEol e
    → contains_any i (codes "\r\n") ≡ false
    → trim_terminator (i ++ e) ≡ i
unfolding trim_terminator contains_any
trim_terminator-append [] e (inl h) k = rw h refl
trim_terminator-append [] e (inr (inl h)) k = rw h refl
trim_terminator-append [] e (inr (inr h)) k = rw h refl
trim_terminator-append (c ∷ i) e h k = ground (arith, trim_terminator-append i e h)

split-ends :
    (c : ℕ) (s : Text)
    → ends_line c s ≡ true
    → split_keep_ends (c ∷ s) ≡ (c ∷ []) ∷ split_keep_ends s
unfolding split_keep_ends
split-ends c s h = rw h refl

split-runs :
    (c : ℕ) (s : Text)
    → ends_line c s ≡ false
    → split_keep_ends (c ∷ s) ≡ glue c (split_keep_ends s)
unfolding split_keep_ends
split-runs c s h = rw h refl

no_break-one : (c : ℕ) → is_break c ≡ false → contains_any (c ∷ []) (codes "\r\n") ≡ false
unfolding contains_any
no_break-one c h = ground arith

one_body : (c : ℕ) → is_break c ≡ false → bodies_of (split_keep_ends (c ∷ [])) ≡ (c ∷ []) ∷ []
unfolding split_keep_ends trim_terminator
one_body c h = ground arith

one_body-eol :
    (c : ℕ) (e : Text)
    → IsEol e
    → is_break c ≡ false
    → bodies_of (split_keep_ends (c ∷ e)) ≡ (c ∷ []) ∷ []
one_body-eol c e h k =
    rw (one_line (c ∷ []) e h (no_break-one c k))
      (rw (trim_terminator-append (c ∷ []) e h (no_break-one c k)) refl)

-- A terminator put behind an open text changes no body.
pub bodies_of-eol :
    (s e : Text)
    → IsEol e
    → is_closed s ≡ false
    → bodies_of (split_keep_ends (s ++ e)) ≡ bodies_of (split_keep_ends s)
bodies_of-eol [] e h k = cc
bodies_of-eol (c ∷ []) e h k = one_body-eol c e h k ∙ sym (one_body c k)
bodies_of-eol (c ∷ d ∷ s) e h k =
    let same = bodies_of-eol (d ∷ s) e h k in
    elim (Bool-cases (ends_line c (d ∷ s))) [
      | inl ends ↦
          rw (split-ends c (d ∷ s) ends, split-ends c (d ∷ (s ++ e)) ends)
            (ap (λ bs. trim_terminator (c ∷ []) ∷ bs) same)
      | inr runs ↦
          rw (split-runs c (d ∷ s) runs, split-runs c (d ∷ (s ++ e)) runs)
            (bodies_of-glue c (split_keep_ends (d ∷ (s ++ e)))
              ∙ ap (trim_glue c) same
              ∙ sym (bodies_of-glue c (split_keep_ends (d ∷ s))))
    ]

-- A line that is no fence, behind the others, adds no range.
pub fenced_from-append :
    (n : ℕ) (state : Option Opener) (bs : List Text) (b : Text)
    → parse_fence b ≡ none
    → fenced_from n state (bs ++ b ∷ []) ≡ fenced_from n state bs
unfolding fenced_from
fenced_from-append n none [] b h = ground arith
fenced_from-append n (some o) [] b h = ground arith
fenced_from-append n none (a ∷ bs) b h = fenced_from-append (suc n) (opens n (parse_fence a)) bs b h
fenced_from-append n (some o) (a ∷ bs) b h =
    ground
      (arith, fenced_from-append (suc n) none bs b h, fenced_from-append (suc n) (some o) bs b h)

-- The ranges end before the line `n` behind the bodies.
pub fenced_from-below :
    (n m : ℕ) (state : Option Opener) (bs : List Text)
    → n + length bs ≡ m
    → All (λ (r : ℕ × ℕ). r.1 < m) (fenced_from n state bs)
unfolding fenced_from
fenced_from-below n m none [] h = tt
fenced_from-below n m (some o) [] h = tt
fenced_from-below n m none (a ∷ bs) h =
    fenced_from-below (suc n) m (opens n (parse_fence a)) bs (omega arith)
fenced_from-below n m (some o) (a ∷ bs) h = ground (
  arith,
  fenced_from-below (suc n) m none bs (omega arith),
  fenced_from-below (suc n) m (some o) bs (omega arith),
)

pub is_inside-below :
    (m : ℕ) (rs : List (ℕ × ℕ)) → All (λ (r : ℕ × ℕ). r.1 < m) rs → is_inside rs m ≡ false
is_inside-below m [] h = refl
is_inside-below m (r ∷ rs) h = ground (arith, is_inside-below m rs h.1)
