-- ===== src/Tests/Sessions.antt =====
-- The process tree of a session, as `ps` prints it.
use beadle.Prelude.{◌≡◌, refl, [], ◌∷◌, some}
use beadle.Prelude.Int.{pos}
use beadle.Text.{codes, split, fields, equal}
use beadle.Session.{
  Table, Participant, Roster, human_participants, agent_participants, read_process_table,
  walk_to_topmost_claude,
}
use beadle.Session.Topmost.{IsTopmost, walk_to_topmost_claude-IsTopmost}

-- The shell's parent is one Claude, whose parent is another, started by init.
abbrev processes : Table
processes =
    (pos 40, record { ppid = pos 30; comm = codes "beadle-email" })
    ∷ (pos 30, record { ppid = pos 20; comm = codes "/usr/local/bin/claude" })
    ∷ (pos 20, record { ppid = pos 1; comm = codes "claude" })
    ∷ (pos 1, record { ppid = pos 0; comm = codes "init" })
    ∷ []

listed :
    read_process_table (some (codes " 1 0 init\n20 1 claude\nx 1 y\n30 20 /a b/claude\n"))
    ≡ some (
        (pos 30, record { ppid = pos 20; comm = codes "/a b/claude" })
        ∷ (pos 20, record { ppid = pos 1; comm = codes "claude" })
        ∷ (pos 1, record { ppid = pos 0; comm = codes "init" })
        ∷ [])
unfolding read_process_table split fields beadle.Session.add_lines beadle.Pgp.Expiry.parse_int64
    beadle.Text.parse_digits beadle.Text.is_space beadle.Text.cons_first beadle.Text.join
listed = refl

topmost : walk_to_topmost_claude (pos 40) (some processes) ≡ pos 20
unfolding walk_to_topmost_claude beadle.Session.walk beadle.Session.find_entry beadle.Session.holds
    beadle.Session.is_claude beadle.Text.Path.base beadle.Text.Path.drop_slashes
    beadle.Text.Path.until_slash equal
topmost = refl

walk_to_topmost_claude-IsTopmost_example :
    IsTopmost processes (pos 40) (walk_to_topmost_claude (pos 40) (some processes))
walk_to_topmost_claude-IsTopmost_example = walk_to_topmost_claude-IsTopmost processes (pos 40)

abbrev human : Participant
human = record { agent_id = codes "h"; persona = []; parent = [] }

abbrev agent : Participant
agent = record { agent_id = codes "a"; persona = codes "coder"; parent = codes "h" }

abbrev roster : Roster
roster = record { session = codes "s"; started = []; participants = agent ∷ human ∷ [] }

humans : human_participants roster ≡ human ∷ []
unfolding human_participants
humans = refl

agents : agent_participants roster ≡ agent ∷ []
unfolding agent_participants
agents = refl
