-- ===== src/Session/Topmost.antt =====
-- Which process the walk up the process tree finds (internal/session/roster.go).
use beadle.Prelude.{
  ℕ, zero, suc, ◌<◌, ◌≡◌, ◌⊎◌, inl, inr, refl, true, false, ◌||◌, List, [], ◌∷◌, some, Bool-cases,
  Option-cases, arith, if◌then◌else◌,
}
use beadle.Prelude.Int.{ℤ, pos}
use beadle.Session.{
  ProcessEntry, Table, same, find_entry, holds, is_claude, walk, walk_to_topmost_claude,
}
use beadle.Session.Ancestors.{
  holds-cons, holds_head, holds_tail, IsParent, Up, here, up, Above, itself, ancestor, IsClaude,
  TopOf, IsParent-unique, IsParent-listed,
}

module _ (table : Table) where
  -- What has been visited when the walk stands at `current`.
  record IsWalked (visited : List ℤ) (current top : ℤ) : Type 0 where
    topped : (v : ℤ) → holds v visited ≡ true → IsClaude table v → TopOf table v top
    closed :
        (v w : ℤ)
        → holds v visited ≡ true
        → IsParent table v w
        → (holds w visited ≡ true) ⊎ (w ≡ current)
    below : (v : ℤ) → holds v visited ≡ true → Above table v current

  -- Every Claude process that was visited, or is fewer than `n` steps above, is below `top`.
  record IsTop (visited : List ℤ) (n : ℕ) (current top : ℤ) : Type 0 where
    past : (v : ℤ) → holds v visited ≡ true → IsClaude table v → TopOf table v top
    ahead : (m : ℕ) (q : ℤ) → m < n → Up table current m q → IsClaude table q → TopOf table q top

  -- What is above a process that was visited was visited, if the walk stands at such a process.
  Up-holds :
      {visited : List ℤ} {current top : ℤ} {v q : ℤ} {m : ℕ}
      → IsWalked visited current top
      → holds current visited ≡ true
      → holds v visited ≡ true
      → Up table v m q
      → holds q visited ≡ true
  Up-holds i h k here = k
  Up-holds i h k (up s u) = elim (i.closed _ _ k s) [
    | inl e ↦ Up-holds i h e u
    | inr e ↦ Up-holds i h (rw e h) u
  ]

  -- Where the walk ends, nothing is above.
  last_ahead :
      {current top q : ℤ} {m : ℕ}
      → (IsClaude table current → TopOf table current top)
      → ((w : ℤ) → ¬ IsParent table current w)
      → Up table current m q
      → IsClaude table q
      → TopOf table q top
  last_ahead now last here c = now c
  last_ahead now last (up s u) c = absurd (last _ s)

  visit_past :
      (visited : List ℤ) (current top : ℤ) (entry : ProcessEntry)
      → IsWalked visited current top
      → find_entry current table ≡ some entry
      → (v : ℤ) → holds v (current ∷ visited) ≡ true
      → IsClaude table v
      → TopOf table v (if is_claude entry.comm then current else top)
  visit_past visited current top entry i e v h c = elim (Bool-cases (is_claude entry.comm)) [
    | inl y ↦ rw y (
      record { entry = entry; listed = e; named = y },
      elim (holds-cons v current visited h) [
        | inl same ↦ rw same itself
        | inr past ↦ i.below v past
      ],
    )
    | inr n ↦ elim (holds-cons v current visited h) [
      | inl same ↦ cc
      | inr past ↦ rw n (i.topped v past c)
    ]
  ]

  -- One process more is visited.
  visit-IsWalked :
      (visited : List ℤ) (current top : ℤ) (entry : ProcessEntry)
      → IsWalked visited current top
      → find_entry current table ≡ some entry
      → same entry.ppid current ≡ false
      → same entry.ppid (pos 0) ≡ false
      → IsWalked (current ∷ visited) entry.ppid (if is_claude entry.comm then current else top)
  visit-IsWalked visited current top entry i e s r =
      let p : IsParent table current entry.ppid = record {
        entry = entry;
        listed = e;
        above = refl;
        not_self = s;
        not_root = r;
      } in
      record {
        topped = visit_past visited current top entry i e;
        closed = λ v w h t. elim (holds-cons v current visited h) [
          | inl same ↦ inr (IsParent-unique table (rw same at t) p)
          | inr past ↦ elim (i.closed v w past t) [
            | inl seen ↦ inl (holds_tail w current visited seen)
            | inr e ↦ inl (rw e (holds_head current visited))
          ]
        ];
        below = λ v h. elim (holds-cons v current visited h) [
          | inl same ↦ rw same (ancestor itself p)
          | inr past ↦ ancestor (i.below v past) p
        ];
      }

  -- The walk ends at a process with no parent.
  IsTop-end :
      (visited : List ℤ) (n : ℕ) (current top : ℤ) (entry : ProcessEntry)
      → IsWalked visited current top
      → find_entry current table ≡ some entry
      → (same entry.ppid current || same entry.ppid (pos 0)) ≡ true
      → IsTop visited n current (if is_claude entry.comm then current else top)
  IsTop-end visited n current top entry i e last = record {
    past = λ v h. visit_past visited current top entry i e v (holds_tail v current visited h);
    ahead = λ m q h u.
        last_ahead (visit_past visited current top entry i e current (holds_head current visited))
          (λ w p. ground (arith, IsParent-listed table entry e p)) u;
  }

  -- The walk goes on.
  Up-ahead :
      (visited : List ℤ) (n : ℕ) (current top : ℤ) (entry : ProcessEntry)
      → find_entry current table ≡ some entry
      → IsTop (current ∷ visited) n entry.ppid top
      → (m : ℕ) (q : ℤ) → m < suc n
      → Up table current m q
      → IsClaude table q
      → TopOf table q top
  Up-ahead visited n current top entry e t zero q h here c =
      t.past current (holds_head current visited) c
  Up-ahead visited n current top entry e t (suc m) q h (up s u) c =
      t.ahead m q (omega arith) (rw (IsParent-listed table entry e s).0 u) c

  IsTop-up :
      (visited : List ℤ) (n : ℕ) (current top : ℤ) (entry : ProcessEntry)
      → find_entry current table ≡ some entry
      → IsTop (current ∷ visited) n entry.ppid top
      → IsTop visited (suc n) current top
  IsTop-up visited n current top entry e t = record {
    past = λ v h. t.past v (holds_tail v current visited h);
    ahead = λ m q h u. Up-ahead visited n current top entry e t m q h u;
  }

  walk-IsTop :
      (n : ℕ) (visited : List ℤ) (current top : ℤ)
      → IsWalked visited current top
      → IsTop visited n current (walk table n visited current top)
  unfolding walk
  walk-IsTop zero visited current top i = record {
    past = i.topped;
    ahead = λ m q h. absurd (omega arith);
  }
  walk-IsTop (suc n) visited current top i = elim (Bool-cases (holds current visited)) [
    | inl seen ↦
        rw seen (record { past = i.topped; ahead = λ m q h u. i.topped q (Up-holds i seen seen u) })
    | inr new ↦ rw new (elim (Option-cases (find_entry current table)) [
      | inl e ↦ rw e (record {
        past = i.topped;
        ahead = λ m q h u. last_ahead (λ c. cc (e, c.listed)) (λ w p. cc (e, p.listed)) u;
      })
      | inr (entry, e) ↦
          rw e (elim (Bool-cases (same entry.ppid current || same entry.ppid (pos 0))) [
            | inl last ↦ rw last (IsTop-end visited (suc n) current top entry i e last)
            | inr more ↦ rw more (
                IsTop-up visited n current _ entry e (
                  walk-IsTop n (current ∷ visited) entry.ppid _
                    (visit-IsWalked visited current top entry i e (ground arith) (ground arith))))
          ])
    ])
  ]

  -- What the walk has found so far.
  abbrev pub Found : ℤ → ℤ → Type 0
  Found pid top = (top ≡ pos 0) ⊎ TopOf table pid top

  visit-Found :
      (pid current top : ℤ) (entry : ProcessEntry)
      → find_entry current table ≡ some entry
      → Above table pid current
      → Found pid top
      → Found pid (if is_claude entry.comm then current else top)
  visit-Found pid current top entry e a f = elim (Bool-cases (is_claude entry.comm)) [
    | inl y ↦ rw y (inr (record { entry = entry; listed = e; named = y }, a))
    | inr n ↦ rw n f
  ]

  walk-Found :
      (pid : ℤ) (n : ℕ) (visited : List ℤ) (current top : ℤ)
      → Above table pid current
      → Found pid top
      → Found pid (walk table n visited current top)
  unfolding walk
  walk-Found pid zero visited current top a f = f
  walk-Found pid (suc n) visited current top a f = elim (Bool-cases (holds current visited)) [
    | inl seen ↦ rw seen f
    | inr new ↦ rw new (elim (Option-cases (find_entry current table)) [
      | inl e ↦ rw e f
      | inr (entry, e) ↦
          let g = visit-Found pid current top entry e a f in
          rw e (elim (Bool-cases (same entry.ppid current || same entry.ppid (pos 0))) [
            | inl last ↦ rw last g
            | inr more ↦
                let p : IsParent table current entry.ppid = record {
                  entry = entry;
                  listed = e;
                  above = refl;
                  not_self = ground arith;
                  not_root = ground arith;
                } in
                rw more (walk-Found pid n (current ∷ visited) entry.ppid _ (ancestor a p) g)
          ])
    ])
  ]

-- The topmost Claude process as seen from a process.
pub record IsTopmost (table : Table) (pid top : ℤ) : Type 0 where
  pub found : Found table pid top
  pub topmost : (n : ℕ) (q : ℤ) → n < 10 → Up table pid n q → IsClaude table q → TopOf table q top

-- Whatever the table of processes is, also where the parents go round in a circle: the process that
-- `walk_to_topmost_claude` finds is 0, or a Claude process that is the given one or an ancestor of
-- it; and every Claude process fewer than ten steps above the given one is the one found or has it
-- as an ancestor.
pub walk_to_topmost_claude-IsTopmost :
    (table : Table) (pid : ℤ) → IsTopmost table pid (walk_to_topmost_claude pid (some table))
unfolding walk_to_topmost_claude holds
walk_to_topmost_claude-IsTopmost table pid =
    let nothing : IsWalked table [] pid (pos 0) = record {
      topped = λ v h. cc;
      closed = λ v w h. cc;
      below = λ v h. cc;
    } in
    record {
      found = walk-Found table pid 10 [] pid (pos 0) itself (inl refl);
      topmost = λ n q. (walk-IsTop table 10 [] pid (pos 0) nothing).ahead n q;
    }
