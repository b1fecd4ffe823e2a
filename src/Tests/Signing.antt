-- ===== src/Tests/Signing.antt =====
-- Signed command files, and the theorems at them.
use beadle.Prelude.{◌≡◌, ◌↔◌, refl, true, false, List, [], ◌∷◌, none, some, ok, any, All}
use beadle.Text.{Text, codes, split}
use beadle.Pgp.Expiry.{parse_colon_expiry, records}
use beadle.Pgp.Expiry.Accepted.{IsSignable, parse_colon_expiry_iff}
use beadle.Daemon.Command.{Command}
use beadle.Daemon.Signature.{Gpg, classify_status_lines, count_owner_key_matches, verify_signature}
use beadle.Daemon.Signature.Status.{reports, classify_status_lines_iff}
use beadle.Daemon.Loading.{Entry, Config, load_daemon_commands, resolve_daemon_owner_key_id}
use beadle.Daemon.Loading.Authorized.{IsAuthorized, entries_of, daemon_commands-IsAuthorized}
use beadle.Tests.Data.{ascii_tables, echo}

abbrev owner : Text
owner = codes "0123456789abcdef0123456789abcdef01234567"

abbrev listing : Text
listing =
    codes
      "pub:u:255:22:AB:1600000000:1900000000::u:::scESC:\nfpr:::::::::0123456789ABCDEF0123456789ABCDEF01234567:\nsub:u:255:18:CD:1600000000:1900000000:::::s:"

abbrev status : Text
status = codes "[GNUPG:] NEWSIG\n[GNUPG:] GOODSIG AB Owner\n"

abbrev signed_echo : Command
signed_echo = record echo { signature = codes "armored" }

abbrev gpg : Gpg
gpg = record {
  marshal = λ cmd. some cmd.name;
  makes_keyring = true;
  export = λ id. some (codes "key");
  imports = λ key. true;
  list = λ ring id. some listing;
  list_for_expiry = λ ring id. some listing;
  writes_data = true;
  writes_signature = true;
  verify = λ ring canon sig. some status;
}

abbrev dir : List Entry
dir =
    record { name = codes "echo.yaml"; is_dir = false; decoded = some signed_echo }
    ∷ record { name = codes "bad.yaml"; is_dir = false; decoded = some echo }
    ∷ []

abbrev config : Config
config = record { owner_handle = []; owner_gpg_key_id = owner }

listing_current : parse_colon_expiry 1700000000 listing ≡ none
unfolding parse_colon_expiry
listing_current = refl

parse_colon_expiry_iff_example :
    (parse_colon_expiry 1700000000 listing ≡ none) ↔ IsSignable 1700000000 (records listing)
parse_colon_expiry_iff_example = parse_colon_expiry_iff 1700000000 listing

classify_status_lines_iff_example : (classify_status_lines status ≡ none) ↔ (
    (any (reports (codes "GOODSIG")) (split b'\n' status) ≡ true)
    × (any (reports (codes "NO_PUBKEY")) (split b'\n' status) ≡ false))
classify_status_lines_iff_example = classify_status_lines_iff status

owner_once : count_owner_key_matches listing owner ≡ 1
unfolding count_owner_key_matches
owner_once = refl

echo_verified : verify_signature gpg 1700000000 signed_echo owner ≡ ok tt
unfolding verify_signature
echo_verified = refl

-- Of two files, the one that is not signed is left out.
one_loaded :
    load_daemon_commands (λ d. true) gpg 1700000000 owner true (some dir)
    ≡ (codes "echo", record signed_echo { mode = codes "process" }) ∷ []
unfolding load_daemon_commands verify_signature beadle.Daemon.Command.validate_command
    beadle.Daemon.Command.check_shape beadle.Daemon.Command.check_runner
    beadle.Daemon.Command.check_tools beadle.Daemon.Command.check_schema
    beadle.Daemon.Command.check_args beadle.Daemon.Command.check_arg
    beadle.Daemon.Command.valid_arg_name beadle.Daemon.Command.all_arg_chars
    beadle.Daemon.Command.is_arg_char beadle.Text.member beadle.Daemon.Command.check_position
    beadle.Daemon.Command.position_owner beadle.Daemon.Command.check_steps beadle.Text.lookup
one_loaded = refl

daemon_commands-IsAuthorized_example :
    let (id, is_enabled) = resolve_daemon_owner_key_id (λ h. none) (some config) in
    All
      (IsAuthorized (λ d. true) gpg 1700000000 id (entries_of (some dir)))
      (load_daemon_commands (λ d. true) gpg 1700000000 id is_enabled (some dir))
daemon_commands-IsAuthorized_example =
    daemon_commands-IsAuthorized (λ d. true) gpg 1700000000 (λ h. none) (some config) (some dir)
