-- ===== src/Daemon/Loading/Authorized.antt =====
-- Only commands that the owner has signed are loaded (internal/daemon/command.go,
-- internal/daemon/config.go, cmd/beadle-daemon/main.go).
use mathlib.Core.Path.{subst}
use beadle.Prelude.{
  ℕ, ◌≡◌, inl, inr, sym, refl, Bool, true, false, List, [], ◌∷◌, Option, none, some, Result, ok,
  err, is_nil, All, All-append, All-self, In, Bool-cases, Option-cases, Result-cases, >>=-eq-ok,
  ok-injective, arith,
}
use beadle.Text.{Text, CaseTables, lookup}
use beadle.Daemon.Command.{Command, CommandError, IsDuration, validate_command}
use beadle.Daemon.Command.WellFormed.{IsWellFormed, validate_command-IsWellFormed}
use beadle.Daemon.Signature.{Gpg, is_fingerprint, verify_signature}
use beadle.Daemon.Signature.Accepted.{IsVerified, verify_signature-IsVerified}
use beadle.Daemon.Loading.{
  Entry, LoadError, Commands, Config, is_skipped, resolve_owner_key_id, resolve_daemon_owner_key_id,
  check_signature, accept, load_command, add_command, add_loaded, load_entry, load_entries,
  load_commands, load_daemon_commands,
}

-- Every entry of a directory that can be read.
abbrev pub entries_of : Option (List Entry) → List Entry
entries_of none = []
entries_of (some es) = es

accept-eq-ok :
    (v : Command × Option CommandError) (c : Command) → accept v ≡ ok c → (v.0 ≡ c) × (v.1 ≡ none)
accept-eq-ok (d, none) c h = (ok-injective h, refl)
accept-eq-ok (d, some e) c h = cc

module _ ⦃u : CaseTables⦄ (is_duration : IsDuration) (g : Gpg) (now : ℕ) (owner : Text) where
  -- The command under this name comes from a file of the directory that the owner has signed as it
  -- stands there, and is well formed.
  pub record IsAuthorized (es : List Entry) (named : Text × Command) : Type 0 where
    pub file : Entry
    pub source : Command
    pub in_dir : In file es
    pub decodes : file.decoded ≡ some source
    pub verified : IsVerified g now owner source
    pub completed : named.1 ≡ (validate_command is_duration source).0
    pub well_formed : IsWellFormed is_duration named.1
    pub keyed : named.0 ≡ named.1.name

  check_signature-eq-ok :
      (cmd : Command) {t : Unit {0}}
      → is_nil owner ≡ false
      → check_signature is_duration g now owner cmd ≡ ok t
      → verify_signature g now cmd owner ≡ ok tt
  unfolding check_signature
  check_signature-eq-ok cmd set h = ground arith

  load_command-IsAuthorized :
      (es : List Entry) (file : Entry) (c : Command)
      → is_nil owner ≡ false
      → In file es
      → load_command is_duration g now owner file.decoded ≡ ok c
      → IsAuthorized es (c.name, c)
  unfolding load_command
  load_command-IsAuthorized es file c set m h = loaded file.decoded refl h
    where
      loaded :
          (d : Option Command)
          → file.decoded ≡ d
          → load_command is_duration g now owner d ≡ ok c
          → IsAuthorized es (c.name, c)
      loaded none e k = cc
      loaded (some source) e k =
          let (_, signed, k₁) = >>=-eq-ok (check_signature is_duration g now owner source) _ k in
          let (same, fine) = accept-eq-ok (validate_command is_duration source) c k₁ in
          record {
            file = file;
            source = source;
            in_dir = m;
            decodes = e;
            verified =
                verify_signature-IsVerified g now source owner
                  (check_signature-eq-ok source set signed);
            completed = sym same;
            well_formed =
                subst (IsWellFormed is_duration) same
                  (validate_command-IsWellFormed is_duration source fine);
            keyed = refl;
          }

  module _ (set : is_nil owner ≡ false) (es : List Entry) where
    add_loaded-IsAuthorized :
        (cmds : Commands) (r : Result LoadError Command)
        → All (IsAuthorized es) cmds
        → ((c : Command) → r ≡ ok c → IsAuthorized es (c.name, c))
        → All (IsAuthorized es) (add_loaded cmds r)
    unfolding add_command
    add_loaded-IsAuthorized cmds (err e) h k = h
    add_loaded-IsAuthorized cmds (ok c) h k = elim (Option-cases (lookup c.name cmds)) [
      | inl new ↦
          rw (new, add_command)
            (All-append (IsAuthorized es) cmds ((c.name, c) ∷ []) h (k c refl, tt))
      | inr (old, taken) ↦ rw (taken, add_command) h
    ]

    load_entry-IsAuthorized :
        (cmds : Commands) (e : Entry)
        → In e es
        → All (IsAuthorized es) cmds
        → All (IsAuthorized es) (load_entry is_duration g now owner cmds e)
    unfolding load_entry
    load_entry-IsAuthorized cmds e m h = elim (Bool-cases (is_skipped e)) [
      | inl skipped ↦ rw skipped h
      | inr taken ↦
          rw taken (add_loaded-IsAuthorized cmds _ h (λ c. load_command-IsAuthorized es e c set m))
    ]

    load_entries-IsAuthorized :
        (rest : List Entry) (cmds : Commands)
        → All (λ e. In e es) rest
        → All (IsAuthorized es) cmds
        → All (IsAuthorized es) (load_entries is_duration g now owner cmds rest)
    unfolding load_entries
    load_entries-IsAuthorized [] cmds m h = h
    load_entries-IsAuthorized (e ∷ rest) cmds m h =
        load_entries-IsAuthorized rest (load_entry is_duration g now owner cmds e) m.1
          (load_entry-IsAuthorized cmds e m.0 h)

  load_daemon_commands-IsAuthorized :
      (is_enabled : Bool) (entries : Option (List Entry))
      → (is_enabled ≡ true → is_nil owner ≡ false)
      → All
          (IsAuthorized (entries_of entries))
          (load_daemon_commands is_duration g now owner is_enabled entries)
  unfolding load_daemon_commands load_commands
  load_daemon_commands-IsAuthorized false entries set = tt
  load_daemon_commands-IsAuthorized true none set = tt
  load_daemon_commands-IsAuthorized true (some es) set =
      load_entries-IsAuthorized (set refl) es es [] (All-self es) tt

is_fingerprint-set : (id : Text) → is_fingerprint id ≡ true → is_nil id ≡ false
unfolding is_fingerprint
is_fingerprint-set [] h = cc
is_fingerprint-set (c ∷ id) h = refl

-- The key that resolves is a full fingerprint.
pub resolve_owner_key_id-is_fingerprint :
    (resolve_handle : Text → Option Text) (c : Config) (id : Text)
    → resolve_owner_key_id resolve_handle c ≡ ok id
    → is_fingerprint id ≡ true
unfolding resolve_owner_key_id
resolve_owner_key_id-is_fingerprint resolve_handle c id h = ground arith

resolved-set :
    (resolve_handle : Text → Option Text) (config : Option Config)
    → (resolve_daemon_owner_key_id resolve_handle config).1 ≡ true
    → is_nil (resolve_daemon_owner_key_id resolve_handle config).0 ≡ false
unfolding resolve_daemon_owner_key_id
resolved-set resolve_handle none h = cc
resolved-set resolve_handle (some c) h =
    elim (Result-cases (resolve_owner_key_id resolve_handle c)) [
      | inl (e, bad) ↦ cc (rw (bad, resolve_daemon_owner_key_id) at h)
      | inr (id, good) ↦
          rw (good, resolve_daemon_owner_key_id)
            (is_fingerprint-set id (resolve_owner_key_id-is_fingerprint resolve_handle c id good))
    ]

-- Whatever the configuration and the directory are, every command that the daemon has comes from a
-- file of the directory that the configured owner has signed as it stands there, and is well formed.
pub daemon_commands-IsAuthorized :
    ⦃u : CaseTables⦄ (is_duration : IsDuration) (g : Gpg) (now : ℕ)
    (resolve_handle : Text → Option Text) (config : Option Config) (entries : Option (List Entry))
    → let (owner, is_enabled) = resolve_daemon_owner_key_id resolve_handle config in
      All
        (IsAuthorized is_duration g now owner (entries_of entries))
        (load_daemon_commands is_duration g now owner is_enabled entries)
daemon_commands-IsAuthorized is_duration g now resolve_handle config entries =
    load_daemon_commands-IsAuthorized is_duration g now _ _ entries
      (resolved-set resolve_handle config)
