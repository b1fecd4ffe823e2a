-- ===== src/Install/Scope.antt =====
-- cmd/beadle-email/mcpreg.go: the search for a project's .mcp.json that registers the server, from a
-- directory up to the root, with `filepath.Dir` and `filepath.Join` of clean absolute paths.
use beadle.Prelude.{
  ℕ, zero, suc, ◌<◌, ◌≡◌, refl, ◌⊎◌, inl, inr, Bool, true, false, not, ◌&&◌, List, [], ◌∷◌, ◌++◌,
  Option, none, some, Result, ok, err, if◌then◌else◌, length, is_nil, ap, All, ◌==◌, arith,
  Bool-cases, Result-cases, Option-cases,
}
use beadle.Text.{Text, codes, equal, member, split}
use beadle.Text.Laws.{equal_iff}
use beadle.Identity.{Read, absent, unreadable, undecodable, decoded}

pub data ScopeError : Type 0 where
  unread unparsed no_directory : ScopeError

-- What stands before the last slash.
unfoldable pub before_last : Text → Option Text
before_last [] = none
before_last (c ∷ s) = elim (before_last s) [
  | none ↦ if c == b'/' then some [] else none
  | some p ↦ some (c ∷ p)
]

-- `filepath.Dir` of a clean absolute path.
abbrev pub as_dir : Option Text → Text
as_dir none = codes "."
as_dir (some []) = codes "/"
as_dir (some (c ∷ p)) = c ∷ p

unfoldable pub dir : Text → Text
unfolding before_last
dir path = as_dir (before_last path)

-- `filepath.Join(dir, ".mcp.json")`, of a clean absolute path.
unfoldable pub mcp_file : Text → Text
unfolding equal
mcp_file d = if equal d (codes "/") then codes "/.mcp.json" else d ++ codes "/.mcp.json"

-- `mcpFileDeclaresServer`, of what the file holds: the names of its servers.
unfoldable pub mcp_file_declares_server : Read (List Text) → Text → Result ScopeError Bool
unfolding member
mcp_file_declares_server absent server = ok false
mcp_file_declares_server unreadable server = err unread
mcp_file_declares_server undecodable server = err unparsed
mcp_file_declares_server (decoded servers) server = ok (member server servers)

-- What the search ends with: a file, nothing, or an error.
pub data Outcome : Type 0 where
  found : Text → Outcome
  nowhere : Outcome
  failed : ScopeError → Outcome

module _ (files : Text → Read (List Text)) (server : Text) where
  abbrev pub declares : Text → Result ScopeError Bool
  declares d = mcp_file_declares_server (files (mcp_file d)) server

  -- The loop of `projectScopeMCPFile`; `none` is out of fuel.
  unfoldable pub search : ℕ → Text → Option Outcome
  unfolding dir mcp_file mcp_file_declares_server
  search zero d = none
  search (suc fuel) d =
      let rest = search fuel (dir d) in
      elim (declares d) [
        | err e ↦ some (failed e)
        | ok b ↦
            if b then some (found (mcp_file d)) else if equal (dir d) d then some nowhere else rest
      ]

  -- `projectScopeMCPFile`; every round has a shorter path.
  unfoldable pub project_scope_mcp_file : Text → Option Outcome
  unfolding search
  project_scope_mcp_file start = search (suc (length start)) start

  -- `currentProjectScopeFile`, of the working directory where it is known.
  abbrev pub current_project_scope_file : Option Text → Option Outcome
  current_project_scope_file none = some (failed no_directory)
  current_project_scope_file (some cwd) = project_scope_mcp_file cwd

  -- No file of the directory names the server.
  pub data IsSilent (d : Text) : Type 0 where
    no_file : files (mcp_file d) ≡ absent → IsSilent d
    unnamed :
        {servers : List Text}
        → files (mcp_file d) ≡ decoded servers
        → member server servers ≡ false
        → IsSilent d

  -- The nearest directory counts, going up to the root.
  pub data IsNearest : Text → Outcome → Type 0 where
    hit :
        {d : Text} {servers : List Text}
        → files (mcp_file d) ≡ decoded servers
        → member server servers ≡ true
        → IsNearest d (found (mcp_file d))
    not_read : {d : Text} → files (mcp_file d) ≡ unreadable → IsNearest d (failed unread)
    not_parsed : {d : Text} → files (mcp_file d) ≡ undecodable → IsNearest d (failed unparsed)
    root : {d : Text} → IsSilent d → d ≡ codes "/" → IsNearest d nowhere
    climb : {d : Text} {o : Outcome} → IsSilent d → IsNearest (dir d) o → IsNearest d o

-- The path begins at the root.
pub record IsAbsolute (path : Text) : Type 0 where
  pub rest : Text
  pub rooted : path ≡ b'/' ∷ rest

-- An element of a clean path.
unfoldable pub is_element : Text → Bool
unfolding equal
is_element e = not (is_nil e) && not (equal e (codes ".")) && not (equal e (codes ".."))

-- A path that `filepath.Clean` leaves as it is: `filepath.Dir` only cuts it.
pub record IsClean (path : Text) : Type 0 where
  pub absolute : IsAbsolute path
  pub elements : (absolute.rest ≡ []) ⊎ All (λ e. is_element e ≡ true) (split b'/' (absolute.rest))

before_last-short : (s : Text) (p : Text) → before_last s ≡ some p → length p < length s
unfolding before_last
before_last-short [] p h = cc
before_last-short (c ∷ s) p h = elim (Option-cases (before_last s)) [
  | inl e ↦ ground arith
  | inr (q, e) ↦ ground (arith, before_last-short s q e)
]

root_or_longer : (s : Text) → (codes "/" ≡ b'/' ∷ s) ⊎ (1 < length (b'/' ∷ s))
root_or_longer [] = inl refl
root_or_longer (c ∷ s) = inr (omega arith)

-- Going up stays below the root, and ends there or shortens the path.
dir_rooted :
    (s : Text)
    → IsAbsolute (dir (b'/' ∷ s))
      × ((dir (b'/' ∷ s) ≡ b'/' ∷ s) ⊎ (length (dir (b'/' ∷ s)) < length (b'/' ∷ s)))
unfolding dir before_last
dir_rooted s = elim (Option-cases (before_last s)) [
  | inl e ↦ rw e (record { rest = []; rooted = refl }, root_or_longer s)
  | inr (p, e) ↦
      rw e (record { rest = p; rooted = refl }, inr (omega (arith, before_last-short s p e)))
]

dir-shorter :
    (d : Text)
    → IsAbsolute d
    → equal (dir d) d ≡ false
    → IsAbsolute (dir d) × (length (dir d) < length d)
dir-shorter d a up =
    let (b, h) = dir_rooted a.rest in
    (
      rw a.rooted b,
      elim h [
        | inl same ↦ cc (up, (equal_iff (dir d) d).1 (rw a.rooted same))
        | inr shorter ↦ rw a.rooted shorter
      ],
    )

root-eq : (d : Text) → IsAbsolute d → dir d ≡ d → d ≡ codes "/"
unfolding dir before_last
root-eq d a same = rw a.rooted (fixed a.rest (rw a.rooted at same))
  where
    fixed : (s : Text) → dir (b'/' ∷ s) ≡ b'/' ∷ s → b'/' ∷ s ≡ codes "/"
    fixed [] h = refl
    fixed (c ∷ s) h = elim (Option-cases (before_last (c ∷ s))) [
      | inl e ↦ cc (rw e at h)
      | inr (p, e) ↦
          absurd (omega (arith, before_last-short (c ∷ s) p e, ap (length {A = ℕ}) (rw e at h)))
    ]

module _ (files : Text → Read (List Text)) (server : Text) where
  -- What a directory's file says.
  abbrev Says : Text → Result ScopeError Bool → Type 0
  Says d (err e) = IsNearest files server d (failed e)
  Says d (ok true) = IsNearest files server d (found (mcp_file d))
  Says d (ok false) = IsSilent files server d

  read-Says :
      (d : Text) (r : Read (List Text))
      → files (mcp_file d) ≡ r
      → Says d (mcp_file_declares_server r server)
  unfolding mcp_file_declares_server
  read-Says d absent e = no_file e
  read-Says d unreadable e = not_read e
  read-Says d undecodable e = not_parsed e
  read-Says d (decoded servers) e = elim (Bool-cases (member server servers)) [
    | inl listed ↦ rw listed (hit e listed)
    | inr other ↦ rw other (unnamed e other)
  ]

  said : (d : Text) → Says d (declares files server d)
  said d = read-Says d (files (mcp_file d)) refl

  search-IsNearest :
      (fuel : ℕ) (d : Text)
      → IsAbsolute d
      → length d < fuel
      → (o : Outcome) × (search files server fuel d ≡ some o) × IsNearest files server d o
  unfolding search
  search-IsNearest zero d a h = absurd (omega (arith, h))
  search-IsNearest (suc fuel) d a h = elim (Result-cases (declares files server d)) [
    | inl (e, f) ↦ (failed e, rw (f, search) refl, rw f at (said d))
    | inr (true, f) ↦ (found (mcp_file d), rw (f, search) refl, rw f at (said d))
    | inr (false, f) ↦ elim (Bool-cases (equal (dir d) d)) [
      | inl same ↦ (
        nowhere,
        rw (f, search) (rw same refl),
        root (rw f at (said d)) (root-eq d a ((equal_iff (dir d) d).0 same)),
      )
      | inr up ↦
          let (b, shorter) = dir-shorter d a up in
          let (o, e, n) = search-IsNearest fuel (dir d) b (omega (arith, h, shorter)) in
          (o, rw (f, search) (rw up e), climb (rw f at (said d)) n)
    ]
  ]

  -- From a clean absolute path, the search always ends, with the length of the path as its bound on
  -- the rounds; and it ends with the nearest directory, going up, whose .mcp.json is decoded and has
  -- the server among its names, or cannot be read or decoded, which is the error; or with nothing
  -- where every directory up to the root has no such file or one that does not name the server.
  pub project_scope_mcp_file-IsNearest :
      (start : Text)
      → IsClean start
      → (o : Outcome) × (project_scope_mcp_file files server start ≡ some o)
        × IsNearest files server start o
  unfolding project_scope_mcp_file
  project_scope_mcp_file-IsNearest start a =
      search-IsNearest (suc (length start)) start a.absolute (omega arith)
