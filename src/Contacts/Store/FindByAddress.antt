-- ===== src/Contacts/Store/FindByAddress.antt =====
-- What `FindByAddress` (internal/contacts/store.go) returns, for every list of contacts.
use mathlib.Core.Option.{some-injective}
use mathlib.Core.Path.{subst}
use mathlib.Core.List.{append_assoc, append-nil}
use beadle.Prelude.{
  ℕ, suc, ◌<◌, ◌≤◌, ◌≡◌, refl, Bool, true, false, not, ◌&&◌, List, [], ◌∷◌, ◌++◌, Option, none,
  some, arith, if◌then◌else◌, Bool-cases, inl, inr, lt→ltb, not_lt→ltb, dec_lt, is_nil, ltb, length,
  All, All-append, All-map,
}
use beadle.Text.{Text, CaseTables, equal, trim_space, to_lower}
use beadle.Contacts.Book.{Contact, is_pattern, PathMatch}
use beadle.Contacts.Store.{Best, improve, pattern_matches, find_from, find_by_address}

module _ ⦃u : CaseTables⦄ (path_match : PathMatch) (addr : Text) where
  -- The contact is for this one address.
  abbrev pub is_exact : Contact → Bool
  is_exact c = not (is_nil c.email) && (not (is_pattern c) && equal (to_lower c.email) addr)

  -- One more than the length of a pattern that matches the address, else 0.
  abbrev pub rank : Contact → ℕ
  rank c =
      if not (is_nil c.email) && (is_pattern c && pattern_matches path_match addr c)
      then suc (length c.email)
      else 0

  abbrev pub IsOther : Contact → Type 0
  IsOther c = is_exact c ≡ false

  abbrev pub IsBelow : ℕ → Contact → Type 0
  IsBelow n c = rank c < n

  abbrev pub IsAtMost : ℕ → Contact → Type 0
  IsAtMost n c = rank c ≤ n

  -- The first of the contacts with the greatest rank, if any has one above 0.
  pub data Longest (cs : List Contact) : Option Contact → Type 0 where
    no_pattern : All (IsAtMost 0) cs → Longest cs none
    pattern :
        (before : List Contact) (c : Contact) (after : List Contact)
        → cs ≡ before ++ c ∷ after
        → 0 < rank c
        → All (IsBelow (rank c)) before
        → All (IsAtMost (rank c)) after
        → Longest cs (some c)

  -- The precedence that the comment of `FindByAddress` states.
  pub data Found (cs : List Contact) : Option Contact → Type 0 where
    exact :
        (before : List Contact) (c : Contact) (after : List Contact)
        → cs ≡ before ++ c ∷ after
        → All IsOther before
        → is_exact c ≡ true
        → Found cs (some c)
    best : {r : Option Contact} → All IsOther cs → Longest cs r → Found cs r

  -- The best so far, after one more contact.
  abbrev next : Contact → Best → Best
  next c b = if ltb 0 (rank c) then improve path_match c b else b

  next-none : (c : Contact) → next c none ≡ (if ltb 0 (rank c) then some c else none)
  unfolding improve
  next-none c = refl

  next-some :
      (c d : Contact)
      → 0 < rank d
      → next c (some d) ≡ (if ltb (rank d) (rank c) then some c else some d)
  unfolding improve
  next-some c d pos = ground arith

  Longest-next-none :
      (ps : List Contact) (c : Contact) → All (IsAtMost 0) ps → Longest (ps ++ c ∷ []) (next c none)
  Longest-next-none ps c h = rw (next-none c) (elim (dec_lt 0 (rank c)) [
    | yes p ↦ rw (lt→ltb 0 (rank c) p) (
        pattern ps c [] refl p (All-map (IsAtMost 0) (IsBelow (rank c)) (λ x q. omega arith) ps h)
          tt)
    | no p ↦
        rw (not_lt→ltb 0 (rank c) p)
          (no_pattern (All-append (IsAtMost 0) ps (c ∷ []) h (omega arith, tt)))
  ])

  Longest-next-some :
      (before : List Contact) (c d : Contact) (after : List Contact)
      → 0 < rank d
      → All (IsBelow (rank d)) before
      → All (IsAtMost (rank d)) after
      → Longest ((before ++ d ∷ after) ++ c ∷ []) (next c (some d))
  Longest-next-some before c d after pos below most =
      rw (next-some c d pos) (elim (dec_lt (rank d) (rank c)) [
        | yes p ↦ rw (lt→ltb (rank d) (rank c) p) (
            pattern (before ++ d ∷ after) c [] refl (omega arith)
              (All-append (IsBelow (rank c)) before (d ∷ after)
                (All-map (IsBelow (rank d)) (IsBelow (rank c)) (λ x q. omega arith) before below)
                (p, All-map (IsAtMost (rank d)) (IsBelow (rank c)) (λ x q. omega arith) after most))
              tt)
        | no p ↦ rw (not_lt→ltb (rank d) (rank c) p) (
            pattern before d (after ++ c ∷ []) (append_assoc before (d ∷ after) (c ∷ [])) pos below
              (All-append (IsAtMost (rank d)) after (c ∷ []) most (omega arith, tt)))
      ])

  Longest-next :
      (ps : List Contact) (c : Contact) {b : Best}
      → Longest ps b
      → Longest (ps ++ c ∷ []) (next c b)
  Longest-next ps c (no_pattern h) = Longest-next-none ps c h
  Longest-next ps c (pattern before d after e pos below most) =
      rw e (Longest-next-some before c d after pos below most)

  find_from-exact :
      (b : Best) (c : Contact) (cs : List Contact)
      → is_exact c ≡ true
      → find_from path_match addr b (c ∷ cs) ≡ some c
  unfolding find_from
  find_from-exact b c cs h = ground arith

  find_from-other :
      (b : Best) (c : Contact) (cs : List Contact)
      → is_exact c ≡ false
      → find_from path_match addr b (c ∷ cs) ≡ find_from path_match addr (next c b) cs
  unfolding find_from
  find_from-other b c cs h = ground arith

  find_from-Found :
      (ps cs : List Contact) (b : Best)
      → All IsOther ps
      → Longest ps b
      → Found (ps ++ cs) (find_from path_match addr b cs)
  unfolding find_from
  find_from-Found ps [] b others l = rw append-nil (best others l)
  find_from-Found ps (c ∷ cs) b others l = elim (Bool-cases (is_exact c)) [
    | inl e ↦ rw (find_from-exact b c cs e) (exact ps c cs refl others e)
    | inr o ↦ rw (find_from-other b c cs o) (
        rw (append_assoc ps (c ∷ []) cs) at (
          find_from-Found (ps ++ c ∷ []) cs (next c b)
            (All-append IsOther ps (c ∷ []) others (o, tt)) (Longest-next ps c l)))
  ]

-- For an address with something in it, `FindByAddress` returns the first contact for exactly that
-- address; where there is none, the first of the pattern contacts with the longest pattern of those
-- that match; and nothing where no pattern matches either.
pub find_by_address-Found :
    ⦃u : CaseTables⦄ (path_match : PathMatch) (cs : List Contact) (addr : Text)
    → is_nil (to_lower (trim_space addr)) ≡ false
    → Found path_match (to_lower (trim_space addr)) cs (find_by_address path_match cs addr)
unfolding find_by_address
find_by_address-Found path_match cs addr h =
    rw h (find_from-Found path_match (to_lower (trim_space addr)) [] cs none tt (no_pattern tt))

All_middle {κ} :
    (P : Contact → Type κ) (before : List Contact) (c : Contact) (after : List Contact)
    → All P (before ++ c ∷ after)
    → P c
All_middle P [] c after h = h.0
All_middle P (x ∷ before) c after h = All_middle P before c after h.1

module _ {κ} ⦃u : CaseTables⦄ (path_match : PathMatch) (P : Contact → Type κ) (addr : Text) where
  Split-All :
      (cs before : List Contact) (d : Contact) (after : List Contact) {c : Contact}
      → cs ≡ before ++ d ∷ after
      → All P cs
      → ◌≡◌ {A = Option Contact} (some d) (some c)
      → P c
  Split-All cs before d after eq h e =
      subst P (some-injective d _ e) (All_middle P before d after (rw eq at h))

  Found-All :
      {cs : List Contact} {r : Option Contact} {c : Contact}
      → Found path_match addr cs r
      → All P cs
      → r ≡ some c
      → P c
  Found-All {cs} (exact before d after eq _ _) h e = Split-All cs before d after eq h e
  Found-All {cs} (best _ (pattern before d after eq _ _ _)) h e = Split-All cs before d after eq h e
  Found-All (best _ (no_pattern _)) h e = cc e

-- What holds of every contact holds of the one that `FindByAddress` returns.
pub find_by_address-All {κ} :
    ⦃u : CaseTables⦄ (path_match : PathMatch) (P : Contact → Type κ) (cs : List Contact)
    (addr : Text) {c : Contact}
    → All P cs
    → find_by_address path_match cs addr ≡ some c
    → P c
unfolding find_by_address
find_by_address-All path_match P cs addr h e =
    elim (Bool-cases (is_nil (to_lower (trim_space addr)))) [
      | inl empty ↦ cc (rw empty at e)
      | inr filled ↦
          Found-All path_match P (to_lower (trim_space addr))
            (find_by_address-Found path_match cs addr filled) h e
    ]
