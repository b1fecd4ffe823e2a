-- ===== src/Enable/Marker.antt =====
-- The marker says that the import is there (internal/enable/enable.go), in every state.
use beadle.Prelude.{
  ◌≡◌, ◌≢◌, ◌⊎◌, ◌∙◌, refl, sym, Bool, true, false, not, List, [], ◌∷◌, Option, none, some, arith,
  Bool-cases, inl, inr, if◌then◌else◌, All,
}
use beadle.Text.{Text}
use beadle.ClaudeMd
use beadle.ClaudeMd.{File, validate, text_of, added, register, prune}
use beadle.ClaudeMd.Lines.{split_keep_ends}
use beadle.ClaudeMd.Fences.{present}
use beadle.ClaudeMd.RoundTrip.{added_text, added-wrote, present-last_line}
use beadle.Permissions.Transact.{Disk, grant, revoke}
use beadle.Permissions.Run.{run, remove, preflight}
use beadle.Enable.{
  refused, not_locked, not_resolved, no_guide, no_directory, not_granted, not_imported, not_revoked,
  import_line, Repo, Calls, EnableError, Trace, after, through, last_disk, mark, allow,
  import_guide, enable_locked, locked, enable, unimport, clear, disable_locked, disable,
}

-- The import stands in the file, outside all code blocks.
abbrev pub HasImport : File → Type 0
HasImport f = present (split_keep_ends (text_of f)) import_line ≡ true

-- The repository is marked as enabled only where its CLAUDE.md has the import.
abbrev pub IsConsistent : Repo → Type 0
IsConsistent r = (r.has_marker ≡ false) ⊎ HasImport r.claude_md

added-present : (i s : Text) → added i s ≡ none → present (split_keep_ends s) i ≡ true
unfolding added
added-present i s h = ground arith

some-injective-text : (s t : Text) → some s ≡ some t → s ≡ t
some-injective-text s t h = cc

added-HasImport :
    (s : Text) {t : Text}
    → validate import_line ≡ none
    → added import_line s ≡ some t
    → present (split_keep_ends t) import_line ≡ true
added-HasImport s {t} v h =
    let absent = added-wrote import_line s h in
    rw (some-injective-text t _ (sym h ∙ added_text import_line v s absent))
      (present-last_line import_line v s)

import_line_valid : validate import_line ≡ none
unfolding validate
import_line_valid = refl

register-cases :
    (sys : ClaudeMd.System) (f : File)
    → let (g, wrote, e) = register sys import_line f in
      ((e ≢ none) × (g ≡ f))
      ⊎ ((added import_line (text_of f) ≡ none) × (g ≡ f))
      ⊎ ((added import_line (text_of f) ≡ g) × (g ≢ none))
unfolding register
register-cases sys f = ground (arith, import_line_valid)

HasImport-added : (f g : File) → added import_line (text_of f) ≡ g → g ≢ none → HasImport g
HasImport-added f none h k = absurd (k refl)
HasImport-added f (some t) h k = added-HasImport (text_of f) import_line_valid h

-- `Register` leaves the import in the file, or an error and the file as it was.
register-HasImport :
    (sys : ClaudeMd.System) (f : File)
    → let (g, wrote, e) = register sys import_line f in ((e ≢ none) × (g ≡ f)) ⊎ HasImport g
register-HasImport sys f = elim (register-cases sys f) [
  | inl failed ↦ inl failed
  | inr (inl (there, same)) ↦ inr (rw same (added-present import_line (text_of f) there))
  | inr (inr (new, filled)) ↦ inr (HasImport-added f _ new filled)
]

All-through :
    (r : Repo) (ds : List Disk) (rest : Trace)
    → IsConsistent r
    → All IsConsistent rest.0
    → All IsConsistent (through r ds rest).0
unfolding through
All-through r [] rest h k = k
All-through r (d ∷ ds) rest h k = (h, All-through r ds rest h k)

mark-IsConsistent :
    (c : Calls) (rules : List Text) (r : Repo)
    → HasImport r.claude_md
    → All IsConsistent (mark c rules r).0
unfolding mark
mark-IsConsistent c rules r h = elim (Bool-cases c.writes_marker) [
  | inl written ↦ rw (written, mark) (inr h, tt)
  | inr failed ↦
      rw (failed, mark) (All-through r (remove c.json c.checks rules r.disk).disks _ (inr h) tt)
]

-- What follows a step happens only where the step reported no error.
unless_error :
    {X : Type 0} (e : Option X) (report : X → Option EnableError) (t : Trace)
    → (e ≡ none → All IsConsistent t.0)
    → All IsConsistent (elim e as (λ _. Trace) [ none ↦ t | some x ↦ ([], report x) ]).0
unless_error none report t h = h refl
unless_error (some x) report t h = tt

allow-IsConsistent : (c : Calls) (r : Repo) → HasImport r.claude_md → All IsConsistent (allow c r).0
unfolding allow
allow-IsConsistent c r h =
    let g = run c.json c.checks grant r.disk in
    let s = record r { disk = last_disk r.disk g.disks } in
    All-through r g.disks _ (inr h) (
      unless_error g.error (λ x. some (not_granted x)) (mark c g.changed s)
        (λ _. mark-IsConsistent c g.changed s h))

import_guide-IsConsistent :
    (c : Calls) (r : Repo) → IsConsistent r → All IsConsistent (import_guide c r).0
unfolding import_guide
import_guide-IsConsistent c r h =
    let e = (register c.imports import_line r.claude_md).2 in
    let s = record r { claude_md = (register c.imports import_line r.claude_md).0 } in
    elim (register-HasImport c.imports r.claude_md) [
      | inl (failed, same) ↦ (
        elim h [ inl unmarked ↦ inl unmarked | inr imported ↦ inr (rw same imported) ],
        unless_error e (λ x. some (not_imported x)) (allow c s) (λ ok. absurd (failed ok)),
      )
      | inr imported ↦ (
        inr imported,
        unless_error e (λ x. some (not_imported x)) (allow c s)
            (λ _. allow-IsConsistent c s imported),
      )
    ]

-- What follows a call happens only where it ended well.
where_done :
    (done : Bool) (e : EnableError) (t : Trace)
    → All IsConsistent t.0
    → All IsConsistent (if not done then ([], some e) else t).0
where_done true e t h = h
where_done false e t h = tt

enable_locked-IsConsistent :
    (c : Calls) (r : Repo) → IsConsistent r → All IsConsistent (enable_locked c r).0
unfolding enable_locked
enable_locked-IsConsistent c r h =
    let s = record r { has_guide = true } in
    let imported = after s (import_guide c s) in
    let guided = if not c.writes_guide then ([], some no_guide) else imported in
    unless_error (preflight c.json c.checks r.disk) (λ x. some (refused x)) _
      (λ _.
        where_done c.makes_dir no_directory guided
          (where_done c.writes_guide no_guide imported (h, import_guide-IsConsistent c s h)))

locked-IsConsistent :
    (c : Calls) (t : Trace) → All IsConsistent t.0 → All IsConsistent (locked c t).0
locked-IsConsistent c t h =
    let held = if not c.locks then ([], some not_locked) else t in
    where_done c.resolves not_resolved held (where_done c.locks not_locked t h)

clear-IsConsistent :
    (c : Calls) (purge : Bool) (r : Repo) → IsConsistent r → All IsConsistent (clear c purge r).0
unfolding clear unimport
clear-IsConsistent c purge r h = elim (Bool-cases c.clears) [
  | inr stop ↦ rw (stop, clear) tt
  | inl cleared ↦ rw (cleared, clear) (inl refl, (inl refl, tt))
]

disable_locked-IsConsistent :
    (c : Calls) (purge : Bool) (r : Repo)
    → IsConsistent r
    → All IsConsistent (disable_locked c purge r).0
unfolding disable_locked
disable_locked-IsConsistent c purge r h =
    let g = run c.json c.checks revoke r.disk in
    let s = record r { disk = last_disk r.disk g.disks } in
    All-through r g.disks _ h (
      unless_error g.error (λ x. some (not_revoked x)) (clear c purge s)
        (λ _. clear-IsConsistent c purge s h))

-- Whatever fails and wherever it stops, every state that `Enable` and `Disable` pass through, the
-- first and the last included, is marked as enabled only where its CLAUDE.md has the import, if the
-- first one is.
pub enable-IsConsistent :
    (c : Calls) (purge : Bool) (r : Repo)
    → IsConsistent r
    → All IsConsistent (enable c r).0 × All IsConsistent (disable c purge r).0
unfolding enable disable
enable-IsConsistent c purge r h = (
  (h, locked-IsConsistent c (enable_locked c r) (enable_locked-IsConsistent c r h)),
  (h, locked-IsConsistent c (disable_locked c purge r) (disable_locked-IsConsistent c purge r h)),
)
