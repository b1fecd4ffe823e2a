-- ===== src/Text/Trim.antt =====
-- `strings.TrimSpace`, done twice.
use mathlib.Core.List.{reverse-append, reverse-reverse}
use beadle.Prelude.{
  ◌≡◌, ◌∙◌, ap, refl, ◌⊎◌, inl, inr, true, false, [], ◌∷◌, ◌++◌, reverse, if◌then◌else◌, is_nil,
  Bool-cases, arith, ℕ,
}
use beadle.Text.{Text, is_space, trim_left, trim_space}

trim_left_idem : (s : Text) → trim_left (trim_left s) ≡ trim_left s
unfolding trim_left
trim_left_idem [] = refl
trim_left_idem (c ∷ s) = ground (arith, trim_left_idem s)

trim_left-append :
    (s t : Text)
    → trim_left (s ++ t) ≡ (if is_nil (trim_left s) then trim_left t else trim_left s ++ t)
unfolding trim_left
trim_left-append [] t = refl
trim_left-append (c ∷ s) t = ground (arith, trim_left-append s t)

trim_left_nil : trim_left [] ≡ []
unfolding trim_left
trim_left_nil = refl

trim_left_space : (c : ℕ) (s : Text) → is_space c ≡ true → trim_left (c ∷ s) ≡ trim_left s
unfolding trim_left
trim_left_space c s h = ground (arith, h)

trim_left_kept : (c : ℕ) (s : Text) → is_space c ≡ false → trim_left (c ∷ s) ≡ c ∷ s
unfolding trim_left
trim_left_kept c s h = ground (arith, h)

-- What is trimmed at its front is empty or begins with a rune that is no space.
trim_left-cases :
    (s : Text)
    → (trim_left s ≡ [])
      ⊎ ((c : ℕ) × (rest : Text) × (trim_left s ≡ c ∷ rest) × (is_space c ≡ false))
trim_left-cases [] = inl trim_left_nil
trim_left-cases (c ∷ s) = elim (Bool-cases (is_space c)) [
  | inl e ↦ rw (trim_left_space c s e) (trim_left-cases s)
  | inr e ↦ inr (c, s, trim_left_kept c s e, e)
]

-- Trimming the end leaves that rune where it is.
trim_end-head :
    (c : ℕ) (s : Text)
    → is_space c ≡ false
    → (rest : Text) × (reverse (trim_left (reverse (c ∷ s))) ≡ c ∷ rest)
trim_end-head c s h = elim (Bool-cases (is_nil (trim_left (reverse s)))) [
  | inl e ↦ (
    [],
    ap (λ r. reverse (trim_left r)) (reverse-append (c ∷ []) s)
        ∙ ap reverse (trim_left-append (reverse s) (c ∷ []))
        ∙ rw e (ap reverse (trim_left_kept c [] h)),
  )
  | inr e ↦ (
    reverse (trim_left (reverse s)),
    ap (λ r. reverse (trim_left r)) (reverse-append (c ∷ []) s)
        ∙ ap reverse (trim_left-append (reverse s) (c ∷ []))
        ∙ rw e (reverse-append (trim_left (reverse s)) (c ∷ [])),
  )
]

trim_end_idem :
    (c : ℕ) (s : Text)
    → is_space c ≡ false
    → trim_space (reverse (trim_left (reverse (c ∷ s)))) ≡ reverse (trim_left (reverse (c ∷ s)))
unfolding trim_space
trim_end_idem c s h =
    let (rest, e) = trim_end-head c s h in
    let kept : trim_left (reverse (trim_left (reverse (c ∷ s))))
        ≡ reverse (trim_left (reverse (c ∷ s))) =
      rw e (trim_left_kept c rest h) in
    ap (λ t. reverse (trim_left (reverse t))) kept
    ∙ ap (λ t. reverse (trim_left t)) (reverse-reverse (trim_left (reverse (c ∷ s))))
    ∙ ap reverse (trim_left_idem (reverse (c ∷ s)))

empty_idem : trim_space (reverse (trim_left (reverse []))) ≡ reverse (trim_left (reverse []))
unfolding trim_space trim_left
empty_idem = refl

pub trim_space_idem : (s : Text) → trim_space (trim_space s) ≡ trim_space s
unfolding trim_space
trim_space_idem s = elim (trim_left-cases s) [
  | inl e ↦ rw e empty_idem
  | inr (c, rest, e, h) ↦ rw e (trim_end_idem c rest h)
]
