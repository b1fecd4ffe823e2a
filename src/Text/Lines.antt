-- ===== src/Text/Lines.antt =====
-- Cutting a text at a separator, and looking for a text in the pieces.
use beadle.Prelude.{
  ℕ, ◌≡◌, ◌∙◌, ap, sym, refl, inl, inr, Bool, true, false, ◌||◌, List, [], ◌∷◌, ◌++◌, is_nil, ◌==◌,
  ==_iff, any, keep, All, Bool-cases, arith,
}
use beadle.Text.{Text, contains, contains_rune, has_prefix, split, cons_first}

pub keep-append {ℓ} :
    {A : Type ℓ} (p : A → Bool) (xs ys : List A) → keep p (xs ++ ys) ≡ keep p xs ++ keep p ys
keep-append p [] ys = refl
keep-append p (x ∷ xs) ys = ground (arith, keep-append p xs ys)

pub any-append {ℓ} :
    {A : Type ℓ} (p : A → Bool) (xs ys : List A) → any p (xs ++ ys) ≡ (any p xs || any p ys)
any-append p [] ys = refl
any-append p (x ∷ xs) ys = ground (arith, any-append p xs ys)

-- Without the separator a text is one piece.
pub split_one : (c : ℕ) (s : Text) → contains_rune c s ≡ false → split c s ≡ s ∷ []
unfolding split cons_first
split_one c [] h = refl
split_one c (d ∷ s) h = ground (arith, split_one c s)

-- One step of the cut.
split-at : (c d : ℕ) (s : Text) → (d == c) ≡ true → split c (d ∷ s) ≡ [] ∷ split c s
unfolding split
split-at c d s h = ground arith

split-past : (c d : ℕ) (s : Text) → (d == c) ≡ false → split c (d ∷ s) ≡ cons_first d (split c s)
unfolding split
split-past c d s h = ground arith

cons_first-append :
    (d : ℕ) (p : Text) (ps qs : List Text)
    → cons_first d ((p ∷ ps) ++ qs) ≡ cons_first d (p ∷ ps) ++ qs
unfolding cons_first
cons_first-append d p ps qs = refl

split_cons : (c : ℕ) (s : Text) → (p : Text) × (ps : List Text) × (split c s ≡ p ∷ ps)
unfolding cons_first
split_cons c [] = ([], [], unfold split in refl)
split_cons c (d ∷ s) =
    let (p, ps, e) = split_cons c s in
    elim (Bool-cases (d == c)) [
      | inl h ↦ ([], split c s, split-at c d s h)
      | inr h ↦ (d ∷ p, ps, split-past c d s h ∙ ap (cons_first d) e)
    ]

-- The pieces of two texts with a separator between them.
pub split-append : (c : ℕ) (s t : Text) → split c (s ++ c ∷ t) ≡ split c s ++ split c t
split-append c [] t = split-at c c t ((==_iff c c).1 refl) ∙ sym (unfold split in refl)
split-append c (d ∷ s) t =
    let (p, ps, e) = split_cons c s in
    elim (Bool-cases (d == c)) [
      | inl h ↦
          rw (split-at c d (s ++ c ∷ t) h, split-at c d s h) (ap (◌∷◌ []) (split-append c s t))
      | inr h ↦
          rw (split-past c d (s ++ c ∷ t) h, split-past c d s h, split-append c s t, e)
            (cons_first-append d p ps (split c t))
    ]

-- A text is found behind another, and where it stands.
pub contains-behind : (s t n : Text) → contains t n ≡ true → contains (s ++ t) n ≡ true
unfolding contains
contains-behind [] t n h = h
contains-behind (c ∷ s) t n h = ground (arith, contains-behind s t n)

has_prefix_self : (n t : Text) → has_prefix (n ++ t) n ≡ true
unfolding has_prefix
has_prefix_self [] t = ground arith
has_prefix_self (c ∷ n) t = ground (arith, has_prefix_self n t)

contains_prefix : (s n : Text) → has_prefix s n ≡ true → contains s n ≡ true
unfolding contains
contains_prefix [] n h = h
contains_prefix (c ∷ s) n h = rw h

pub contains-within : (s n t : Text) → contains (s ++ (n ++ t)) n ≡ true
contains-within s n t =
    contains-behind s (n ++ t) n (contains_prefix (n ++ t) n (has_prefix_self n t))

-- No piece of a text holds what the text does not hold.
abbrev pub Lacks : Text → Text → Type 0
Lacks n s = contains s n ≡ false

contains_cons : (d : ℕ) (s n : Text) → Lacks n (d ∷ s) → Lacks n s
unfolding contains
contains_cons d s n h = ground arith

Lacks-cons : (d : ℕ) (p n : Text) → has_prefix (d ∷ p) n ≡ false → Lacks n p → Lacks n (d ∷ p)
unfolding contains
Lacks-cons d p n h k = rw (h, k)

prefix_mono :
    (d : ℕ) (p s : Text)
    → ((m : Text) → has_prefix p m ≡ true → has_prefix s m ≡ true)
    → (m : Text) → has_prefix (d ∷ p) m ≡ true
    → has_prefix (d ∷ s) m ≡ true
unfolding has_prefix
prefix_mono d p s f [] h = refl
prefix_mono d p s f (e ∷ m) h = ground (arith, f m)

not_prefix :
    (s n : Text)
    → Lacks n s
    → (p : Text) → (has_prefix p n ≡ true → has_prefix s n ≡ true)
    → has_prefix p n ≡ false
not_prefix s n h p f = elim (Bool-cases (has_prefix p n)) [
  | inl k ↦ cc (contains_prefix s n (f k))
  | inr k ↦ k
]

pub Lacks-nil : (n : Text) → is_nil n ≡ false → Lacks n []
unfolding contains has_prefix
Lacks-nil [] h = cc
Lacks-nil (c ∷ n) h = refl

nil_begins : (s m : Text) → has_prefix [] m ≡ true → has_prefix s m ≡ true
unfolding has_prefix
nil_begins s [] h = ground arith
nil_begins s (c ∷ m) h = cc

-- The first piece begins the text, and no piece holds what the text lacks.
record Pieces (c : ℕ) (n s : Text) : Type 0 where
  first : Text
  others : List Text
  cut : split c s ≡ first ∷ others
  begins : (m : Text) → has_prefix first m ≡ true → has_prefix s m ≡ true
  lacks_first : Lacks n first
  lacks_others : All (Lacks n) others

module _ (c : ℕ) (n : Text) (some_rune : is_nil n ≡ false) where
  pieces : (s : Text) → Lacks n s → Pieces c n s
  unfolding cons_first
  pieces [] h = record {
    first = [];
    others = [];
    cut = unfold split in refl;
    begins = λ m k. k;
    lacks_first = h;
    lacks_others = tt;
  }
  pieces (d ∷ s) h =
      let ih = pieces s (contains_cons d s n h) in
      elim (Bool-cases (d == c)) [
        | inl k ↦ record {
          first = [];
          others = ih.first ∷ ih.others;
          cut = split-at c d s k ∙ ap (◌∷◌ []) ih.cut;
          begins = nil_begins (d ∷ s);
          lacks_first = Lacks-nil n some_rune;
          lacks_others = (ih.lacks_first, ih.lacks_others);
        }
        | inr k ↦ record {
          first = d ∷ ih.first;
          others = ih.others;
          cut = split-past c d s k ∙ ap (cons_first d) ih.cut;
          begins = prefix_mono d ih.first s ih.begins;
          lacks_first =
              Lacks-cons d ih.first n
                (not_prefix (d ∷ s) n h (d ∷ ih.first) (prefix_mono d ih.first s ih.begins n))
                ih.lacks_first;
          lacks_others = ih.lacks_others;
        }
      ]

  keep-Lacks : (ls : List Text) → All (Lacks n) ls → keep (λ l. contains l n) ls ≡ []
  keep-Lacks [] h = refl
  keep-Lacks (l ∷ ls) h = ground (arith, keep-Lacks ls)

  -- None of the pieces of a text holds what the text does not hold.
  pub keep-split-Lacks :
      (s : Text) → contains s n ≡ false → keep (λ l. contains l n) (split c s) ≡ []
  keep-split-Lacks s h =
      let v = pieces s h in
      rw v.cut (keep-Lacks (v.first ∷ v.others) (v.lacks_first, v.lacks_others))
