-- ===== src/Install.antt =====
-- cmd/beadle-email/mcpreg.go: whether `install` registers a server of its own beside that of the
-- plugin, and what `doctor` says of the registrations. What the `claude` command prints is an
-- argument.
pub mod Scope
pub mod Guarded
use beadle.Prelude.{
  Bool, true, false, ◌&&◌, ◌||◌, List, [], ◌∷◌, ◌++◌, Option, none, some, Result, ok, err,
  if◌then◌else◌, any, is_nil,
}
use beadle.Text.{Text, codes, contains, has_prefix, split, trim_space}
use beadle.Install.Scope.{ScopeError, Outcome, found, nowhere, failed}

abbrev pub mcp_server_name : Text
mcp_server_name = codes "beadle-email"

pub data PluginState : Type 0 where
  plugin_absent plugin_enabled plugin_disabled plugin_unknown : PluginState

pub data McpDecision : Type 0 where
  plugin_provides register_standalone register_standalone_warn_duplicate : McpDecision
  advise_install : McpDecision

abbrev pub is_enabled : PluginState → Bool
is_enabled plugin_enabled = true
is_enabled s = false

abbrev pub is_unknown : PluginState → Bool
is_unknown plugin_unknown = true
is_unknown s = false

abbrev pub is_disabled : PluginState → Bool
is_disabled plugin_disabled = true
is_disabled s = false

-- `decideMCP`.
unfoldable pub decide_mcp : PluginState → Bool → McpDecision
decide_mcp state standalone =
    if standalone && (is_enabled state || is_unknown state)
    then register_standalone_warn_duplicate
    else if standalone
    then register_standalone
    else if is_enabled state
    then plugin_provides
    else advise_install

-- The loop of `beadlePluginState`: `inBeadleBlock` and `sawBeadle`.
unfoldable pub plugin_state_from : Bool → Bool → List Text → PluginState
unfolding contains has_prefix trim_space
plugin_state_from in_block saw [] = if saw then plugin_enabled else plugin_absent
plugin_state_from in_block saw (line ∷ lines) =
    let trimmed = trim_space line in
    let in_beadle = plugin_state_from true true lines in
    let outside = plugin_state_from false saw lines in
    let same = plugin_state_from in_block saw lines in
    if contains line (codes "beadle@")
    then in_beadle
    else if in_block && has_prefix trimmed (codes "Status:")
    then if contains trimmed (codes "enabled") then plugin_enabled else plugin_disabled
    else if in_block && contains trimmed (codes "@")
    then outside
    else same

-- `beadlePluginState`.
unfoldable pub beadle_plugin_state : Text → PluginState
unfolding plugin_state_from split
beadle_plugin_state plugin_list = plugin_state_from false false (split b'\n' plugin_list)

-- `standaloneMCPRegistered`.
unfoldable pub standalone_mcp_registered : Text → Bool
unfolding split has_prefix trim_space
standalone_mcp_registered mcp_list =
    any (λ line. has_prefix (trim_space line) (mcp_server_name ++ codes ":")) (split b'\n' mcp_list)

-- The `claude` command: whether it is on the PATH, what its two lists print, and whether `claude mcp
-- add` and `claude mcp remove` end well.
pub record Claude : Type 0 where
  pub available : Bool
  pub plugin_list : Option Text
  pub mcp_list : Option Text
  pub adds : Bool
  pub removes : Bool

-- `detectPluginState`.
unfoldable pub detect_plugin_state : Claude → PluginState
unfolding beadle_plugin_state
detect_plugin_state c = elim c.plugin_list [
  | none ↦ plugin_unknown
  | some out ↦ beadle_plugin_state out
]

-- What `install` does, in order. The warning is that of `duplicateWarning`, which tells an unknown
-- state from an enabled one.
pub data Effect : Type 0 where
  no_claude provided advised registered : Effect
  warned_unknown warned_duplicate : Effect
  removed_user_scope added_user_scope : Effect

abbrev pub duplicate_warning : PluginState → Effect
duplicate_warning s = if is_unknown s then warned_unknown else warned_duplicate

-- `registerStandaloneMCP`: a removal that fails is only reported; the result is false where the
-- addition fails.
abbrev pub register_standalone_mcp : Claude → List Effect × Bool
register_standalone_mcp c = (removed_user_scope ∷ added_user_scope ∷ [], c.adds)

-- `removeStandaloneMCP`; the result is false where the removal fails.
abbrev pub remove_standalone_mcp : Claude → List Effect × Bool
remove_standalone_mcp c = (removed_user_scope ∷ [], c.removes)

abbrev pub after_register : List Effect × Bool → List Effect × Bool
after_register (es, true) = (es ++ registered ∷ [], true)
after_register (es, false) = (es, false)

abbrev pub warned_first : PluginState → List Effect × Bool → List Effect × Bool
warned_first s (es, done) = (duplicate_warning s ∷ es, done)

abbrev pub act : Claude → PluginState → McpDecision → List Effect × Bool
act c s plugin_provides = (provided ∷ [], true)
act c s advise_install = (advised ∷ [], true)
act c s register_standalone_warn_duplicate =
    warned_first s (after_register (register_standalone_mcp c))
act c s register_standalone = after_register (register_standalone_mcp c)

-- `setupMCPRegistration`; false is an error.
unfoldable pub setup_mcp_registration : Claude → Bool → List Effect × Bool
unfolding decide_mcp detect_plugin_state
setup_mcp_registration c standalone =
    if c.available
    then act c (detect_plugin_state c) (decide_mcp (detect_plugin_state c) standalone)
    else (no_claude ∷ [], true)

pub data Status : Type 0 where
  ok_status warn : Status

-- What a check says.
pub data Detail : Type 0 where
  coexists only_plugin standalone_disabled only_disabled only_standalone no_registration : Detail
  no_plugin_list no_mcp_list : Detail
  no_scope : ScopeError → Detail
  project_file : Text → Detail

-- A `doctorCheck`, by its name.
pub data CheckName : Type 0 where
  mcp_registration mcp_scope : CheckName

pub record DoctorCheck : Type 0 where
  pub name : CheckName
  pub status : Status
  pub detail : Detail

abbrev pub registration : Status → Detail → DoctorCheck
registration s d = record { name = mcp_registration; status = s; detail = d }

-- `mcpRegistrationCheck`.
unfoldable pub mcp_registration_check : PluginState → Bool → DoctorCheck
mcp_registration_check state standalone =
    if is_enabled state && standalone
    then registration warn coexists
    else if is_enabled state
    then registration ok_status only_plugin
    else if is_disabled state && standalone
    then registration ok_status standalone_disabled
    else if is_disabled state
    then registration ok_status only_disabled
    else if standalone
    then registration ok_status only_standalone
    else registration ok_status no_registration

-- `projectScopeCheck`.
unfoldable pub project_scope_check : Outcome → Option DoctorCheck
project_scope_check (failed e) =
    some (record { name = mcp_scope; status = warn; detail = no_scope e })
project_scope_check (found file) =
    some (record { name = mcp_scope; status = warn; detail = project_file file })
project_scope_check nowhere = none

-- `registrationChecks`.
abbrev pub check_lists : Option Text → Option Text → List DoctorCheck
check_lists none mcp_list = registration warn no_plugin_list ∷ []
check_lists (some plugins) none = registration warn no_mcp_list ∷ []
check_lists (some plugins) (some servers) =
    mcp_registration_check (beadle_plugin_state plugins) (standalone_mcp_registered servers) ∷ []

unfoldable pub registration_checks : Claude → List DoctorCheck
unfolding mcp_registration_check beadle_plugin_state standalone_mcp_registered
registration_checks c = if c.available then check_lists c.plugin_list c.mcp_list else []

-- `inspectMCPRegistration`, of what the search for a project's file ended with.
abbrev pub append_check : Option DoctorCheck → List DoctorCheck → List DoctorCheck
append_check none checks = checks
append_check (some c) checks = checks ++ c ∷ []

unfoldable pub inspect_mcp_registration : Claude → Outcome → List DoctorCheck
unfolding registration_checks project_scope_check
inspect_mcp_registration c o = append_check (project_scope_check o) (registration_checks c)
