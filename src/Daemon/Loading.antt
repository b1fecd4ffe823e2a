-- ===== src/Daemon/Loading.antt =====
-- internal/daemon/command.go, `LoadCommands`, internal/daemon/config.go and
-- cmd/beadle-daemon/main.go, `resolveDaemonOwnerKeyID` and `loadDaemonCommands`: which commands the
-- daemon has. A directory is the list of its entries, each with what `DecodeCommandFile` makes of it.
pub mod Authorized
use beadle.Prelude.{
  ℕ, Bool, true, false, not, ◌&&◌, ◌||◌, List, [], ◌∷◌, ◌++◌, Option, none, some, Result, ok, err,
  ◌>>=◌, if◌then◌else◌, is_nil,
}
use beadle.Text.{Text, CaseTables, codes, has_suffix, lookup}
use beadle.Daemon.Command.{Command, CommandError, IsDuration, validate_command}
use beadle.Daemon.Signature.{VerifyError, Checked, Gpg, given, is_fingerprint, verify_signature}

pub record Entry : Type 0 where
  pub name : Text
  pub is_dir : Bool
  pub decoded : Option Command

pub data LoadError : Type 0 where
  undecodable : LoadError
  unverified : VerifyError → LoadError
  rejected : CommandError → LoadError

-- A map from names to commands.
abbrev pub Commands : Type 0
Commands = List (Text × Command)

-- `Config`; the identity's key is what `ResolveHandle` answers, empty where it has none.
pub record Config : Type 0 where
  pub owner_handle : Text
  pub owner_gpg_key_id : Text

pub data ConfigError : Type 0 where
  ambiguous_owner unresolved_handle handle_without_key bad_handle_key bad_key no_owner : ConfigError

abbrev check_handle_key : Option Text → Result ConfigError Text
check_handle_key none = err unresolved_handle
check_handle_key (some key) =
    if is_nil key
    then err handle_without_key
    else if is_fingerprint key
    then ok key
    else err bad_handle_key

-- `Config.ResolveOwnerKeyID`.
unfoldable pub resolve_owner_key_id : (Text → Option Text) → Config → Result ConfigError Text
unfolding is_fingerprint
resolve_owner_key_id resolve_handle c =
    if not (is_nil c.owner_handle) && not (is_nil c.owner_gpg_key_id)
    then err ambiguous_owner
    else if not (is_nil c.owner_handle)
    then check_handle_key (resolve_handle c.owner_handle)
    else if not (is_nil c.owner_gpg_key_id)
    then (if is_fingerprint c.owner_gpg_key_id then ok c.owner_gpg_key_id else err bad_key)
    else err no_owner

-- `resolveDaemonOwnerKeyID`: the key id and whether commands are loaded. `none` is a configuration
-- that cannot be read or is not there.
abbrev enabled : Result ConfigError Text → Text × Bool
enabled (err e) = ([], false)
enabled (ok id) = (id, true)

unfoldable pub resolve_daemon_owner_key_id : (Text → Option Text) → Option Config → Text × Bool
unfolding resolve_owner_key_id
resolve_daemon_owner_key_id resolve_handle none = ([], false)
resolve_daemon_owner_key_id resolve_handle (some c) =
    enabled (resolve_owner_key_id resolve_handle c)

-- The validation of `loadCommand`, which writes the defaults into the command.
abbrev pub accept : Command × Option CommandError → Result LoadError Command
accept (cmd, none) = ok cmd
accept (cmd, some e) = err (rejected e)

-- The body of the loop of `LoadCommands`, for one entry.
unfoldable pub add_command : Commands → Command → Commands
add_command cmds cmd = elim (lookup cmd.name cmds) [
  | some old ↦ cmds
  | none ↦ cmds ++ (cmd.name, cmd) ∷ []
]

abbrev pub is_skipped : Entry → Bool
is_skipped e = e.is_dir || not (has_suffix e.name (codes ".yaml"))

abbrev pub add_loaded : Commands → Result LoadError Command → Commands
add_loaded cmds (err e) = cmds
add_loaded cmds (ok cmd) = add_command cmds cmd

abbrev or_empty : Option Commands → Commands
or_empty none = []
or_empty (some cmds) = cmds

module _ ⦃u : CaseTables⦄ (is_duration : IsDuration) (g : Gpg) (now : ℕ) (owner : Text) where
  -- The signature check of `loadCommand`; an empty owner means that none is made.
  unfoldable pub check_signature : Command → Result LoadError (Unit {0})
  check_signature cmd =
      if is_nil owner
      then ok tt
      else elim (verify_signature g now cmd owner) [ ok _ ↦ ok tt | err e ↦ err (unverified e) ]

  -- `loadCommand`, behind the decoding.
  unfoldable pub load_command : Option Command → Result LoadError Command
  unfolding check_signature
  load_command none = err undecodable
  load_command (some cmd) = do _ ← check_signature cmd; accept (validate_command is_duration cmd)

  unfoldable pub load_entry : Commands → Entry → Commands
  unfolding load_command add_command has_suffix
  load_entry cmds e = if is_skipped e then cmds else add_loaded cmds (load_command e.decoded)

  unfoldable pub load_entries : Commands → List Entry → Commands
  unfolding load_entry
  load_entries cmds [] = cmds
  load_entries cmds (e ∷ es) = load_entries (load_entry cmds e) es

  -- `LoadCommands`; `none` is a directory that cannot be read.
  unfoldable pub load_commands : Option (List Entry) → Option Commands
  unfolding load_entries
  load_commands none = none
  load_commands (some es) = some (load_entries [] es)

  -- `loadDaemonCommands`.
  unfoldable pub load_daemon_commands : Bool → Option (List Entry) → Commands
  unfolding load_commands
  load_daemon_commands is_enabled entries =
      if is_enabled then or_empty (load_commands entries) else []
