-- ===== src/Session.antt =====
-- internal/session/roster.go: the participants of the session, and the walk up the process tree that
-- finds the session. The output of `ps` and the files are arguments.
pub mod Ancestors
pub mod Topmost
use beadle.Prelude.{
  ℕ, zero, suc, Bool, true, false, ◌&&◌, ◌||◌, List, [], ◌∷◌, reverse, Option, none, some, Result,
  ok, err, if◌then◌else◌, is_nil, keep, not, ◌==◌,
}
use beadle.Prelude.Int.{ℤ, pos, negsuc}
use beadle.Text.{Text, codes, equal, split, fields, join, trim_space}
use beadle.Text.Path.{base}
use beadle.Identity.{Read, absent, unreadable, undecodable, decoded}
use beadle.Pgp.Expiry.{parse_int64}

pub record Participant : Type 0 where
  pub agent_id : Text
  pub persona : Text
  pub parent : Text

pub record Roster : Type 0 where
  pub session : Text
  pub started : Text
  pub participants : List Participant

abbrev pub is_human : Participant → Bool
is_human p = is_nil p.parent

unfoldable pub human_participants : Roster → List Participant
human_participants r = keep is_human r.participants

unfoldable pub agent_participants : Roster → List Participant
agent_participants r = keep (λ p. not (is_human p)) r.participants

pub record ProcessEntry : Type 0 where
  pub ppid : ℤ
  pub comm : Text

-- The map of the processes; the entry written last comes first.
abbrev pub Table : Type 0
Table = List (ℤ × ProcessEntry)

abbrev pub same : ℤ → ℤ → Bool
same (pos m) (pos n) = m == n
same (pos m) (negsuc n) = false
same (negsuc m) (pos n) = false
same (negsuc m) (negsuc n) = m == n

unfoldable pub find_entry : ℤ → Table → Option ProcessEntry
find_entry pid [] = none
find_entry pid ((p, e) ∷ table) =
    let rest = find_entry pid table in if same p pid then some e else rest

unfoldable pub holds : ℤ → List ℤ → Bool
holds pid [] = false
holds pid (p ∷ visited) = same p pid || holds pid visited

unfoldable pub is_claude : Text → Bool
unfolding base equal
is_claude comm = equal (base comm) (codes "claude")

-- The loop of `walkToTopmostClaude`: the rounds left, `visited`, `current` and `topmostClaude`.
unfoldable pub walk : Table → ℕ → List ℤ → ℤ → ℤ → ℤ
unfolding find_entry holds is_claude
walk table zero visited current topmost = topmost
walk table (suc n) visited current topmost =
    if holds current visited then topmost else elim (find_entry current table) [
      | none ↦ topmost
      | some entry ↦
          let found = if is_claude entry.comm then current else topmost in
          let rest = walk table n (current ∷ visited) entry.ppid found in
          if same entry.ppid current || same entry.ppid (pos 0) then found else rest
    ]

-- `walkToTopmostClaude`; `none` is a table that cannot be read.
unfoldable pub walk_to_topmost_claude : ℤ → Option Table → ℤ
unfolding walk
walk_to_topmost_claude pid none = pos 0
walk_to_topmost_claude pid (some table) = walk table 10 [] pid (pos 0)

-- `findClaudePID`: the walk is made once.
unfoldable pub find_claude_pid : Option ℤ → ℤ → Option Table → ℤ
unfolding walk_to_topmost_claude
find_claude_pid none pid table = walk_to_topmost_claude pid table
find_claude_pid (some cached) pid table = cached

-- `readProcessTable`, of the output of `ps`.
abbrev pub parse_fields : List Text → Option (ℤ × ProcessEntry)
parse_fields (pid ∷ ppid ∷ c ∷ comm) = elim (parse_int64 pid) [
  | none ↦ none
  | some p ↦ elim (parse_int64 ppid) [
    | none ↦ none
    | some pp ↦ some (p, record { ppid = pp; comm = join (codes " ") (c ∷ comm) })
  ]
]
parse_fields fs = none

unfoldable pub add_lines : List Text → Table → Table
unfolding fields
add_lines [] table = table
add_lines (line ∷ lines) table = elim (parse_fields (fields line)) [
  | none ↦ add_lines lines table
  | some e ↦ add_lines lines (e ∷ table)
]

unfoldable pub read_process_table : Option Text → Option Table
unfolding add_lines split
read_process_table none = none
read_process_table (some out) = some (add_lines (split b'\n' out) [])

pub data RosterError : Type 0 where
  bad_sidecar bad_roster unparsed_roster : RosterError

-- The sessions directory of ethos: the sidecar of a process, and the roster of a session.
pub record Sessions : Type 0 where
  pub current : ℤ → Read Text
  pub roster : Text → Read Roster

abbrev pub load_roster : Read Roster → Result RosterError (Option Roster)
load_roster absent = ok none
load_roster unreadable = err bad_roster
load_roster undecodable = err unparsed_roster
load_roster (decoded r) = ok (some r)

-- The sidecar is plain text: it is never `undecodable`.
abbrev pub load_session : Sessions → Read Text → Result RosterError (Option Roster)
load_session s absent = ok none
load_session s unreadable = err bad_sidecar
load_session s undecodable = err bad_sidecar
load_session s (decoded text) =
    let id = trim_space text in if is_nil id then ok none else load_roster (s.roster id)

-- `ReadRoster`; `none` is an empty `ethosDir`.
unfoldable pub read_roster : Option Sessions → ℤ → Result RosterError (Option Roster)
unfolding trim_space
read_roster none pid = ok none
read_roster (some s) pid = if same pid (pos 0) then ok none else load_session s (s.current pid)
