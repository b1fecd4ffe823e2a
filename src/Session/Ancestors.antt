-- ===== src/Session/Ancestors.antt =====
-- A process and its ancestors, in the table that `ps` prints (internal/session/roster.go).
use beadle.Prelude.{ℕ, suc, ◌≡◌, ◌⊎◌, ◌↔◌, true, false, List, ◌∷◌, some, arith}
use beadle.Prelude.Int.{ℤ, pos, negsuc}
use beadle.Session.{ProcessEntry, Table, same, find_entry, holds, is_claude}

same_iff : (a b : ℤ) → (same a b ≡ true) ↔ (a ≡ b)
same_iff (pos m) (pos n) = ground arith
same_iff (pos m) (negsuc n) = ground arith
same_iff (negsuc m) (pos n) = ground arith
same_iff (negsuc m) (negsuc n) = ground arith

pub holds-cons : (p v : ℤ) (vs : List ℤ) → holds p (v ∷ vs) ≡ true → (p ≡ v) ⊎ (holds p vs ≡ true)
unfolding holds
holds-cons p v vs h = ground (arith, same_iff v p)

pub holds_head : (p : ℤ) (vs : List ℤ) → holds p (p ∷ vs) ≡ true
unfolding holds
holds_head p vs = ground (arith, same_iff p p)

pub holds_tail : (p v : ℤ) (vs : List ℤ) → holds p vs ≡ true → holds p (v ∷ vs) ≡ true
unfolding holds
holds_tail p v vs h = ground arith

module _ (table : Table) where
  -- The table gives `q` as the parent of `p`, and `p` is not the root.
  pub record IsParent (p q : ℤ) : Type 0 where
    pub entry : ProcessEntry
    pub listed : find_entry p table ≡ some entry
    pub above : entry.ppid ≡ q
    pub not_self : same entry.ppid p ≡ false
    pub not_root : same entry.ppid (pos 0) ≡ false

  -- `q` is so many steps above `p`.
  pub data Up : ℤ → ℕ → ℤ → Type 0 where
    here : {p : ℤ} → Up p 0 p
    up : {n : ℕ} {p q r : ℤ} → IsParent p q → Up q n r → Up p (suc n) r

  -- `q` is `p` or an ancestor of it.
  pub data Above (p : ℤ) : ℤ → Type 0 where
    itself : Above p p
    ancestor : {q r : ℤ} → Above p q → IsParent q r → Above p r

  -- A process that the table lists as Claude.
  pub record IsClaude (p : ℤ) : Type 0 where
    pub entry : ProcessEntry
    pub listed : find_entry p table ≡ some entry
    pub named : is_claude entry.comm ≡ true

  -- A Claude process that is above `p`.
  abbrev pub TopOf : ℤ → ℤ → Type 0
  TopOf p top = IsClaude top × Above p top

  pub IsParent-unique : {p q r : ℤ} → IsParent p q → IsParent p r → q ≡ r
  IsParent-unique s t = cc (s.above, t.above, s.listed, t.listed)

  pub IsParent-listed :
      {p q : ℤ} (entry : ProcessEntry)
      → find_entry p table ≡ some entry
      → IsParent p q
      → (entry.ppid ≡ q) × (same entry.ppid p ≡ false) × (same entry.ppid (pos 0) ≡ false)
  IsParent-listed entry e s =
      let same_entry : entry ≡ s.entry = cc (e, s.listed) in
      (rw same_entry s.above, rw same_entry s.not_self, rw same_entry s.not_root)
