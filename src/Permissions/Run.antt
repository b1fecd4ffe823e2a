-- ===== src/Permissions/Run.antt =====
-- The checks before an edit (internal/permissions/permissions.go), and its four entry points.
use beadle.Prelude.{
  Bool, true, false, not, ◌&&◌, List, [], ◌∷◌, Option, none, some, Result, ok, err, if◌then◌else◌,
}
use beadle.Text.{Text}
use beadle.Permissions.Json.{Json}
use beadle.Permissions.Allow.{rules, plan}
use beadle.Permissions.Transact.{
  Disk, System, EditError, Request, grant, withdraw, read_granted, transact, unreadable, refused,
}

-- What `run` asks of the operating system: the home directory, whether the repository is it, the
-- `Lstat` calls of `settingsPresent` and their findings, and the calls that open, make and lock.
pub record Checks : Type 0 where
  pub home_known : Bool
  pub is_home : Bool
  pub inspects : Bool
  pub is_symlink : Bool
  pub has_dir : Bool
  pub opens : Bool
  pub locks : Bool
  pub system : System

pub data RunError : Type 0 where
  no_home in_home not_inspected symlinked not_opened not_locked : RunError
  edit : EditError → RunError

-- The result of `run`: the rules changed, those allowed and not recorded, the error, and the files.
pub record Ran : Type 0 where
  pub changed : List Text
  pub unrecorded : List Text
  pub error : Option RunError
  pub disks : List Disk

abbrev pub stopped : Option RunError → Disk → Ran
stopped e d = record { changed = []; unrecorded = []; error = e; disks = d ∷ [] }

abbrev has_file : Disk → Bool
has_file d = elim d.settings [ none ↦ false | some s ↦ true ]

-- `settingsPresent`.
abbrev pub settings_present : Checks → Disk → Result RunError Bool
settings_present c d =
    if not c.inspects
    then err not_inspected
    else if c.is_symlink
    then err symlinked
    else ok (c.has_dir && has_file d)

abbrev pub adds : Request → Bool
adds grant = true
adds _ = false

-- The end of `run`, with the files opened.
abbrev pub locked_edit : Json → Checks → Request → Disk → Ran
locked_edit json c q d =
    if not c.opens
    then stopped (some not_opened) d
    else if not c.locks
    then stopped (some not_locked) d
    else let e = transact json c.system q d in
      record {
        changed = e.changed;
        unrecorded = e.unrecorded;
        error = elim e.error [ none ↦ none | some x ↦ some (edit x) ];
        disks = e.disks;
      }

-- `run` of a request that is no dry run.
unfoldable pub run : Json → Checks → Request → Disk → Ran
run json c q d =
    if not c.home_known
    then stopped (some no_home) d
    else if c.is_home
    then stopped (some in_home) d
    else elim (settings_present c d) [
      | err e ↦ stopped (some e) d
      | ok present ↦ if not present && not (adds q) then stopped none d else locked_edit json c q d
    ]

-- `Remove`, which does nothing where it is given no rule.
unfoldable pub remove : Json → Checks → List Text → Disk → Ran
unfolding run
remove json c [] d = stopped none d
remove json c (rule ∷ rs) d = run json c (withdraw (rule ∷ rs)) d

-- The dry run of `transact`: its errors, and no write.
unfoldable pub dry_run : Json → System → Disk → Option EditError
dry_run json sys d = if not sys.reads then some unreadable else elim (read_granted json d.granted) [
  | err e ↦ some (refused e)
  | ok granted ↦ elim (plan json d.settings true rules) [
    | err e ↦ some (refused e)
    | ok changes ↦ none
  ]
]

-- `Preflight`.
unfoldable pub preflight : Json → Checks → Disk → Option RunError
unfolding dry_run
preflight json c d =
    if not c.home_known
    then some no_home
    else if c.is_home
    then some in_home
    else elim (settings_present c d) [
      | err e ↦ some e
      | ok present ↦
          if not present
          then none
          else if not c.opens
          then some not_opened
          else elim (dry_run json c.system d) [ none ↦ none | some x ↦ some (edit x) ]
    ]
