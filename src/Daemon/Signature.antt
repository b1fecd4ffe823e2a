-- ===== src/Daemon/Signature.antt =====
-- internal/daemon/signature.go: whether the owner has signed a command file. gpg and the file system
-- are the record `Gpg`; a keyring is what has been imported into it.
pub mod Accepted
pub mod Status
use beadle.Prelude.{
  ℕ, suc, Bool, true, false, not, ◌&&◌, ◌||◌, List, [], ◌∷◌, Option, none, some, Result, ok, err,
  ◌>>=◌, if◌then◌else◌, any, length, is_nil, ltb, leb, ◌==◌,
}
use beadle.Text.{Text, CaseTables, codes, equal, equal_fold, drop_prefix, split, fields}
use beadle.Utf8.{Bytes}
use beadle.Pgp.Expiry.{ExpiryError, field, parse_colon_expiry}
use beadle.Daemon.Command.{Command}

pub data SignatureReason : Type 0 where
  missing invalid wrong_key key_expired : SignatureReason

-- A `SignatureError`, without its detail, and the operational errors.
pub data VerifyError : Type 0 where
  signature : SignatureReason → VerifyError
  canonicalize keyring export_key import_key list_keys list_expiry : VerifyError
  write_data write_signature run_verify : VerifyError

-- `json.Marshal`, whether the files and directories can be made, and the runs of gpg. `none` is a run
-- that fails; of the listings and of the verification, one that does not run to completion.
pub record Gpg : Type 0 where
  pub marshal : Command → Option Bytes
  pub makes_keyring : Bool
  pub export : Text → Option Bytes
  pub imports : Bytes → Bool
  pub list : Bytes → Text → Option Text
  pub list_for_expiry : Bytes → Text → Option Text
  pub writes_data : Bool
  pub writes_signature : Bool
  pub verify : Bytes → Bytes → Text → Option Text

-- `fingerprintPattern.MatchString`.
abbrev is_hex : ℕ → Bool
is_hex c = (leb b'0' c && leb c b'9') || (leb b'A' c && leb c b'F') || (leb b'a' c && leb c b'f')

unfoldable pub is_fingerprint : Text → Bool
is_fingerprint s = length s == 40 && not (any (λ c. not (is_hex c)) s)

-- The lines that `classifyStatusLines` keeps; an empty text is none.
pub record StatusLines : Type 0 where
  pub no_pubkey : Text
  pub invalid_line : Text
  pub good : Text
  pub expired : Text

abbrev is_invalid_word : Text → Bool
is_invalid_word w =
    equal w (codes "BADSIG")
    || equal w (codes "ERRSIG")
    || equal w (codes "REVKEYSIG")
    || equal w (codes "EXPSIG")

-- The body of its loop, for a line and the words behind the line's prefix.
unfoldable pub note_words : StatusLines → Text → List Text → StatusLines
unfolding equal
note_words s line [] = s
note_words s line (w ∷ ws) =
    if equal w (codes "GOODSIG")
    then record s { good = line }
    else if equal w (codes "EXPKEYSIG")
    then record s { expired = line }
    else if equal w (codes "NO_PUBKEY")
    then record s { no_pubkey = line }
    else if is_invalid_word w && is_nil s.invalid_line
    then record s { invalid_line = line }
    else s

unfoldable pub note_line : StatusLines → Text → StatusLines
unfolding note_words drop_prefix fields
note_line s line = elim (drop_prefix line (codes "[GNUPG:] ")) [
  | none ↦ s
  | some rest ↦ note_words s line (fields rest)
]

unfoldable pub note_lines : StatusLines → List Text → StatusLines
unfolding note_line
note_lines s [] = s
note_lines s (line ∷ lines) = note_lines (note_line s line) lines

abbrev pub nothing_noted : StatusLines
nothing_noted = record { no_pubkey = []; invalid_line = []; good = []; expired = [] }

-- The switch at its end; `none` is the nil error.
unfoldable pub verdict : StatusLines → Option SignatureReason
verdict s =
    if not (is_nil s.no_pubkey)
    then some wrong_key
    else if not (is_nil s.good)
    then none
    else if not (is_nil s.expired)
    then some key_expired
    else some invalid

unfoldable pub classify_status_lines : Text → Option SignatureReason
unfolding note_lines verdict split
classify_status_lines output = verdict (note_lines nothing_noted (split b'\n' output))

abbrev pub Checked : Type 0
Checked = Result VerifyError (Unit {0})

-- An error that is found becomes the result.
abbrev pub reject : Option SignatureReason → Checked
reject none = ok tt
reject (some r) = err (signature r)

abbrev pub require : Bool → VerifyError → Checked
require test e = if test then ok tt else err e

abbrev pub given {ℓ} : {A : Type ℓ} → Option A → VerifyError → Result VerifyError A
given none e = err e
given (some a) e = ok a

module _ ⦃u : CaseTables⦄ where
  -- A `pub` line with the line behind it.
  unfoldable pub is_owner_key : Text → Text → Text → Bool
  unfolding equal equal_fold split
  is_owner_key id line next =
      let fpr = split b':' next in
      equal (field 0 (split b':' line)) (codes "pub")
      && not (ltb (length fpr) 10)
      && equal (field 0 fpr) (codes "fpr")
      && equal_fold (field 9 fpr) id

  -- `countOwnerKeyMatches`, over the lines of the output.
  unfoldable pub count_matches : Text → List Text → ℕ
  unfolding is_owner_key
  count_matches id [] = 0
  count_matches id (line ∷ []) = 0
  count_matches id (line ∷ next ∷ lines) =
      let rest = count_matches id (next ∷ lines) in
      if is_owner_key id line next then suc rest else rest

  unfoldable pub count_owner_key_matches : Text → Text → ℕ
  unfolding count_matches split
  count_owner_key_matches output id = count_matches id (split b'\n' output)

  module _ (g : Gpg) where
    -- `assertSingleOwnerKey`.
    unfoldable pub assert_single_owner_key : Bytes → Text → Checked
    unfolding count_owner_key_matches
    assert_single_owner_key ring id = do
      output ← given (g.list ring id) list_keys
      require (count_owner_key_matches output id == 1) (signature invalid)

    -- `importOwnerKey`: what the keyring holds afterwards.
    unfoldable pub import_owner_key : Text → Result VerifyError Bytes
    unfolding assert_single_owner_key
    import_owner_key id = do
      ring ← given (g.export id) export_key
      _ ← require (is_nil ring || g.imports ring) import_key
      _ ← assert_single_owner_key ring id
      ok ring

    -- `pgp.CheckKeyExpiry` in the keyring at the Unix time `now`, and what is made of its error.
    abbrev pub expiry_verdict : Option ExpiryError → Checked
    expiry_verdict none = ok tt
    expiry_verdict (some e) = err (signature key_expired)

    unfoldable pub check_key_expiry : ℕ → Bytes → Text → Checked
    unfolding parse_colon_expiry
    check_key_expiry now ring id = do
      output ← given (g.list_for_expiry ring id) list_expiry
      expiry_verdict (parse_colon_expiry now output)

    -- `verifyDetachedSignature`.
    unfoldable pub verify_detached_signature : Bytes → Bytes → Text → Checked
    unfolding classify_status_lines
    verify_detached_signature ring canon sig = do
      _ ← require g.writes_data write_data
      _ ← require g.writes_signature write_signature
      output ← given (g.verify ring canon sig) run_verify
      reject (classify_status_lines output)

    -- `CanonicalCommandBytes`.
    abbrev pub canonical_command_bytes : Command → Option Bytes
    canonical_command_bytes cmd = g.marshal (record cmd { signature = [] })

    -- `VerifySignature`, at the Unix time `now`.
    unfoldable pub verify_signature : ℕ → Command → Text → Checked
    unfolding is_fingerprint import_owner_key check_key_expiry verify_detached_signature
    verify_signature now cmd id = do
      _ ← require (is_fingerprint id) (signature invalid)
      _ ← require (not (is_nil cmd.signature)) (signature missing)
      canon ← given (canonical_command_bytes cmd) canonicalize
      _ ← require g.makes_keyring keyring
      ring ← import_owner_key id
      _ ← check_key_expiry now ring id
      verify_detached_signature ring canon cmd.signature
