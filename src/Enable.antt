-- ===== src/Enable.antt =====
-- internal/enable/enable.go: enabling and disabling in a repository, with every state that either
-- passes through.
pub mod Marker
use beadle.Prelude.{
  Bool, true, false, not, ◌&&◌, List, [], ◌∷◌, ◌++◌, Option, none, some, if◌then◌else◌,
}
use beadle.Text.{Text, codes}
use beadle.ClaudeMd
use beadle.ClaudeMd.{File, ImportError, register, prune}
use beadle.Permissions.Json.{Json}
use beadle.Permissions.Transact.{Disk, grant, revoke}
use beadle.Permissions.Run.{Checks, RunError, run, remove, preflight}

-- `ImportLine`.
abbrev pub import_line : Text
import_line = codes "@.punt-labs/beadle/CLAUDE.md"

-- What the two operations change: the repository's CLAUDE.md, the two files in .claude, the guide in
-- .punt-labs/beadle and the marker beside it.
pub record Repo : Type 0 where
  pub claude_md : File
  pub disk : Disk
  pub has_guide : Bool
  pub has_marker : Bool

-- Whether the operating system's calls end well: resolving the root and taking the lock, making the
-- directory, writing the guide and the marker, removing the marker or the directory.
pub record Calls : Type 0 where
  pub resolves : Bool
  pub locks : Bool
  pub makes_dir : Bool
  pub writes_guide : Bool
  pub writes_marker : Bool
  pub clears : Bool
  pub imports : ClaudeMd.System
  pub checks : Checks
  pub json : Json

pub data EnableError : Type 0 where
  not_resolved not_locked no_directory no_guide no_marker not_cleared : EnableError
  refused not_granted not_rolled_back not_revoked : RunError → EnableError
  not_imported : ImportError → EnableError

-- The states passed through, the newest last, and the error.
abbrev pub Trace : Type 0
Trace = List Repo × Option EnableError

-- A state put before those of a trace.
abbrev pub after : Repo → Trace → Trace
after r (rs, e) = (r ∷ rs, e)

-- The repository with each state of the two files in turn, before what follows.
unfoldable pub through : Repo → List Disk → Trace → Trace
through r [] rest = rest
through r (d ∷ ds) rest = after (record r { disk = d }) (through r ds rest)

abbrev pub last_disk : Disk → List Disk → Disk
last_disk d [] = d
last_disk d (e ∷ es) = last_disk e es

-- The end of `enableLocked`: the marker, or the rollback of the rules just added.
unfoldable pub mark : Calls → List Text → Repo → Trace
unfolding through remove
mark c added r =
    if c.writes_marker
    then (record r { has_marker = true } ∷ [], none)
    else (let back = remove c.json c.checks added r.disk in
        through r back.disks
          ([], elim back.error [ none ↦ some no_marker | some x ↦ some (not_rolled_back x) ]))

-- The grant, behind the import.
unfoldable pub allow : Calls → Repo → Trace
unfolding through mark
allow c r =
    let g = run c.json c.checks grant r.disk in
    let s = record r { disk = last_disk r.disk g.disks } in
    through r g.disks
      (elim g.error [ some x ↦ ([], some (not_granted x)) | none ↦ mark c g.changed s ])

-- The import, behind the guide.
unfoldable pub import_guide : Calls → Repo → Trace
unfolding allow
import_guide c r =
    let (f, wrote, e) = register c.imports import_line r.claude_md in
    let s = record r { claude_md = f } in
    after s (elim e [ some x ↦ ([], some (not_imported x)) | none ↦ allow c s ])

-- `enableLocked`.
unfoldable pub enable_locked : Calls → Repo → Trace
unfolding import_guide
enable_locked c r = elim (preflight c.json c.checks r.disk) [
  | some x ↦ ([], some (refused x))
  | none ↦
      if not c.makes_dir
      then ([], some no_directory)
      else if not c.writes_guide
      then ([], some no_guide)
      else (let s = record r { has_guide = true } in after s (import_guide c s))
]

-- The root and the lock that both operations take first.
abbrev pub locked : Calls → Trace → Trace
locked c body =
    if not c.resolves
    then ([], some not_resolved)
    else if not c.locks
    then ([], some not_locked)
    else body

-- `Enable`, from the state given.
unfoldable pub enable : Calls → Repo → Trace
unfolding enable_locked
enable c r = after r (locked c (enable_locked c r))

-- The end of `disableLocked`: the import is pruned.
unfoldable pub unimport : Calls → Repo → Trace
unimport c r =
    let (f, pruned, removed, e) = prune c.imports true import_line r.claude_md in
    (record r { claude_md = f } ∷ [], elim e [ none ↦ none | some x ↦ some (not_imported x) ])

-- The marker is cleared, or with `purge` all of .punt-labs/beadle.
unfoldable pub clear : Calls → Bool → Repo → Trace
unfolding unimport
clear c purge r =
    if not c.clears
    then ([], some not_cleared)
    else (let s = record r { has_marker = false; has_guide = r.has_guide && not purge } in
        after s (unimport c s))

-- `disableLocked`.
unfoldable pub disable_locked : Calls → Bool → Repo → Trace
unfolding through clear
disable_locked c purge r =
    let g = run c.json c.checks revoke r.disk in
    let s = record r { disk = last_disk r.disk g.disks } in
    through r g.disks
      (elim g.error [ some x ↦ ([], some (not_revoked x)) | none ↦ clear c purge s ])

-- `Disable`.
unfoldable pub disable : Calls → Bool → Repo → Trace
unfolding disable_locked
disable c purge r = after r (locked c (disable_locked c purge r))
