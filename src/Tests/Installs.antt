-- ===== src/Tests/Installs.antt =====
-- Registrations of the server beside a plugin, and in a project above the working directory.
use beadle.Prelude.{inr, ◌≡◌, refl, true, false, [], ◌∷◌, List, some}
use beadle.Text.{Text, codes, equal, contains, has_prefix, split, trim_space}
use beadle.Identity.{Read, absent, decoded}
use beadle.Install.{
  Claude, plugin_absent, plugin_disabled, beadle_plugin_state, setup_mcp_registration,
  warned_duplicate, removed_user_scope, added_user_scope, registered, inspect_mcp_registration,
  registration, warn, coexists, mcp_scope, project_file,
}
use beadle.Install.Scope.{
  IsNearest, Outcome, found, project_scope_mcp_file, project_scope_mcp_file-IsNearest,
}
use beadle.Install.Guarded.{IsGuarded, setup_mcp_registration-IsGuarded}

abbrev enabled_list : Text
enabled_list = codes "  beadle@punt-labs\n    Status: enabled\n  other@x\n    Status: disabled"

abbrev claude : Claude
claude = record {
  available = true;
  plugin_list = some enabled_list;
  mcp_list = some (codes "plugin:beadle:email: y\n beadle-email: x");
  adds = true;
  removes = false;
}

warned :
    setup_mcp_registration claude true
    ≡ (warned_duplicate ∷ removed_user_scope ∷ added_user_scope ∷ registered ∷ [], true)
unfolding setup_mcp_registration beadle.Install.decide_mcp beadle.Install.detect_plugin_state
    beadle_plugin_state beadle.Install.plugin_state_from contains has_prefix split trim_space
    beadle.Text.cons_first beadle.Text.trim_left beadle.Text.is_space
warned = refl

disabled :
    beadle_plugin_state (codes "other@x\n Status: enabled\nbeadle@y\nStatus: disabled")
    ≡ plugin_disabled
unfolding beadle_plugin_state beadle.Install.plugin_state_from contains has_prefix split trim_space
    beadle.Text.cons_first beadle.Text.trim_left beadle.Text.is_space
disabled = refl

setup_mcp_registration-IsGuarded_example :
    IsGuarded claude true (setup_mcp_registration claude true).0
setup_mcp_registration-IsGuarded_example = setup_mcp_registration-IsGuarded claude true

-- The file stands two directories up.
abbrev files : Text → Read (List Text)
files path = elim (equal path (codes "/home/.mcp.json")) [
  | true ↦ decoded (codes "beadle-email" ∷ [])
  | false ↦ absent
]

up_two :
    project_scope_mcp_file files (codes "beadle-email") (codes "/home/me/work")
    ≡ some (found (codes "/home/.mcp.json"))
unfolding project_scope_mcp_file beadle.Install.Scope.search beadle.Install.Scope.dir
    beadle.Install.Scope.before_last beadle.Install.Scope.mcp_file
    beadle.Install.Scope.mcp_file_declares_server beadle.Text.member equal
up_two = refl

project_scope_mcp_file-IsNearest_example :
    (o : Outcome) × (project_scope_mcp_file files (codes "beadle-email") (codes "/home/me")
      ≡ some o)
    × IsNearest files (codes "beadle-email") (codes "/home/me") o
unfolding beadle.Install.Scope.is_element equal split beadle.Text.cons_first
project_scope_mcp_file-IsNearest_example =
    project_scope_mcp_file-IsNearest files (codes "beadle-email") (codes "/home/me") (record {
      absolute = record { rest = codes "home/me"; rooted = refl };
      elements = inr (refl, (refl, tt));
    })

inspected :
    inspect_mcp_registration claude (found (codes "/.mcp.json"))
    ≡ registration warn coexists
      ∷ record { name = mcp_scope; status = warn; detail = project_file (codes "/.mcp.json") }
      ∷ []
unfolding inspect_mcp_registration beadle.Install.registration_checks
    beadle.Install.mcp_registration_check beadle.Install.standalone_mcp_registered
    beadle.Install.project_scope_check beadle_plugin_state beadle.Install.plugin_state_from contains
    has_prefix split trim_space beadle.Text.cons_first beadle.Text.trim_left beadle.Text.is_space
inspected = refl
