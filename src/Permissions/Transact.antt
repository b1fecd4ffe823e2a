-- ===== src/Permissions/Transact.antt =====
-- One locked edit of the settings and the record (internal/permissions/permissions.go), with every
-- state of the two files that a crash can leave.
pub mod Recorded
use beadle.Prelude.{
  Bool, true, false, not, ◌&&◌, List, [], ◌∷◌, ◌++◌, Option, none, some, Result, ok, err, ◌>>=◌,
  if◌then◌else◌, is_nil, keep, length, ◌==◌,
}
use beadle.Text.{Text, codes, member}
use beadle.Utf8.{Bytes}
use beadle.Permissions.Json.{Json, PlanError, bad_record, not_encoded}
use beadle.Permissions.Allow.{rules, plan}

-- The two files in .claude; `none` is a missing file.
pub record Disk : Type 0 where
  pub settings : Option Bytes
  pub granted : Option Bytes

-- Whether the calls end well that read either file, write the record, write the settings, and put
-- the old record back; a read also fails on a symlink.
pub record System : Type 0 where
  pub reads : Bool
  pub records : Bool
  pub writes : Bool
  pub restores : Bool

pub data EditError : Type 0 where
  unreadable not_recorded not_written not_restored : EditError
  refused : PlanError → EditError

-- `request`, without the dry run.
pub data Request : Type 0 where
  grant revoke : Request
  withdraw : List Text → Request

-- The result, and the files after each write, the newest last.
pub record Edit : Type 0 where
  pub changed : List Text
  pub unrecorded : List Text
  pub error : Option EditError
  pub disks : List Disk

abbrev pub failed : EditError → List Disk → Edit
failed e disks = record { changed = []; unrecorded = []; error = some e; disks = disks }

-- The members of one list that are not in the other, in order.
abbrev pub without : List Text → List Text → List Text
without xs ys = keep (λ x. not (member x ys)) xs

-- The rules recorded, with those added that are not among them.
unfoldable pub merge : List Text → List Text → List Text
unfolding member
merge merged [] = merged
merge merged (rule ∷ changed) =
    merge (if member rule merged then merged else merged ++ rule ∷ []) changed

module _ (json : Json) where
  -- `readGranted`; a missing record is empty.
  unfoldable pub read_granted : Option Bytes → Result PlanError (List Text)
  read_granted none = ok []
  read_granted (some s) = elim (json.decode_strings s) [ none ↦ err bad_record | some g ↦ ok g ]

  -- The file that `writeGranted` leaves, or `none` where the record cannot be encoded.
  unfoldable pub granted_file : List Text → Option (Option Bytes)
  granted_file [] = some none
  granted_file (rule ∷ rs) = elim (json.encode_strings (rule ∷ rs)) [
    | none ↦ none
    | some s ↦ some (some (s ++ b'\n' ∷ []))
  ]

  -- The failing end of a grant: the old record is put back.
  unfoldable pub roll_back : System → Disk → Disk → List Text → Edit
  roll_back sys d e granted = elim (granted_file granted) [
    | none ↦ failed not_restored (d ∷ e ∷ [])
    | some g ↦
        if sys.restores
        then failed not_written (d ∷ e ∷ record e { granted = g } ∷ [])
        else failed not_restored (d ∷ e ∷ [])
  ]

  -- The writes of a grant.
  unfoldable pub write_grant : System → Disk → List Text → List Text × Option Text → Edit
  write_grant sys d granted ([], out) = record {
    changed = [];
    unrecorded = [];
    error = none;
    disks = d ∷ [];
  }
  write_grant sys d granted (rule ∷ changed, out) =
      elim (granted_file (merge granted (rule ∷ changed))) [
        | none ↦ failed not_recorded (d ∷ [])
        | some g ↦
            let e = record d { granted = g } in
            if not sys.records
            then failed not_recorded (d ∷ [])
            else if not sys.writes
            then roll_back sys d e granted
            else record {
              changed = rule ∷ changed;
              unrecorded = [];
              error = none;
              disks = d ∷ e ∷ record e { settings = out } ∷ [];
            }
      ]

  -- The last write of a removal: the record without the rules removed.
  unfoldable pub write_rest : System → List Disk → Disk → List Text → List Text → Edit → Edit
  write_rest sys before d granted rs done =
      let rest = without granted rs in
      if length rest == length granted
      then record done { disks = before ++ d ∷ [] }
      else elim (granted_file rest) [
        | none ↦ failed not_recorded (before ++ d ∷ [])
        | some g ↦
            if sys.records
            then record done { disks = before ++ (d ∷ record d { granted = g } ∷ []) }
            else failed not_recorded (before ++ d ∷ [])
      ]

  -- The writes of a removal: the settings, where something changes, and then the record.
  unfoldable pub write_removal :
      System → Disk → List Text → List Text → List Text → List Text × Option Text → Edit
  write_removal sys d granted rs unrecorded (changed, out) =
      let done : Edit = record {
        changed = changed;
        unrecorded = unrecorded;
        error = none;
        disks = [];
      } in
      if is_nil changed
      then write_rest sys [] d granted rs done
      else if not sys.writes
      then failed not_written (d ∷ [])
      else write_rest sys (d ∷ []) (record d { settings = out }) granted rs done

  abbrev pub is_unrecorded : Request → List Text → Bool
  is_unrecorded revoke granted = is_nil granted
  is_unrecorded _ granted = false

  -- The rules of the request that this program may have added.
  abbrev pub removable : Request → List Text → List Text
  removable (withdraw rs) granted = keep (λ s. member s rules) rs
  removable _ granted = keep (λ s. member s rules) granted

  abbrev pub refuse : Disk → PlanError → Edit
  refuse d e = failed (refused e) (d ∷ [])

  -- The part of `transact` that removes.
  unfoldable pub transact_removal : System → Disk → List Text → Request → Edit
  transact_removal sys d granted q =
      let rs = removable q granted in
      elim (plan json d.settings false rs) [
        | err e ↦ refuse d e
        | ok edit ↦
            if is_unrecorded q granted
            then elim (plan json d.settings false (without rules granted)) [
              | err e ↦ refuse d e
              | ok stray ↦ write_removal sys d granted rs stray.0 edit
            ]
            else write_removal sys d granted rs [] edit
      ]

  -- `transact`.
  unfoldable pub transact : System → Request → Disk → Edit
  transact sys q d =
      if not sys.reads then failed unreadable (d ∷ []) else elim (read_granted d.granted) [
        | err e ↦ refuse d e
        | ok granted ↦ elim q [
          | grant ↦ elim (plan json d.settings true rules) [
            | err e ↦ refuse d e
            | ok edit ↦ write_grant sys d granted edit
          ]
          | revoke ↦ transact_removal sys d granted revoke
          | withdraw rs ↦ transact_removal sys d granted (withdraw rs)
        ]
      ]
