-- ===== src/Daemon/Signature/Accepted.antt =====
-- What `VerifySignature` (internal/daemon/signature.go) has made sure of when it gives no error.
use mathlib.Core.Path.{subst}
use beadle.Prelude.{
  ℕ, ◌≡◌, ◌∙◌, ap, refl, Bool, true, false, not, ◌||◌, Option, none, some, ok, any, is_nil, ==_iff,
  >>=-eq-ok, ok-injective, not-eq-true, arith,
}
use beadle.Text.{Text, CaseTables, codes, split}
use beadle.Utf8.{Bytes}
use beadle.Pgp.Expiry.{records}
use beadle.Pgp.Expiry.Accepted.{IsSignable, parse_colon_expiry_iff}
use beadle.Daemon.Command.{Command}
use beadle.Daemon.Signature.{
  SignatureReason, VerifyError, Gpg, given, require, reject, is_fingerprint,
  count_owner_key_matches, assert_single_owner_key, import_owner_key, check_key_expiry,
  canonical_command_bytes, classify_status_lines, verify_detached_signature, verify_signature,
}
use beadle.Daemon.Signature.Status.{reports, classify_status_lines_iff}

given-eq-ok {ℓ} :
    {A : Type ℓ} (o : Option A) (e : VerifyError) {a : A} → given o e ≡ ok a → o ≡ some a
given-eq-ok none e h = cc
given-eq-ok (some b) e h = cc

require-eq-ok : (b : Bool) (e : VerifyError) {t : Unit {0}} → require b e ≡ ok t → b ≡ true
require-eq-ok b e h = ground arith

reject-eq-ok : (o : Option SignatureReason) {t : Unit {0}} → reject o ≡ ok t → o ≡ none
reject-eq-ok none h = refl
reject-eq-ok (some r) h = cc

-- The text of the signature, checked against the bytes of the command by a keyring that holds one
-- key with the owner's fingerprint, which may sign at this time, was reported as good.
pub record IsVerified ⦃u : CaseTables⦄ (g : Gpg) (now : ℕ) (id : Text) (cmd : Command)
    : Type 0 where
  pub ring : Bytes
  pub canon : Bytes
  pub listing : Text
  pub expiry_listing : Text
  pub output : Text
  pub full : is_fingerprint id ≡ true
  pub signed : is_nil cmd.signature ≡ false
  pub canonical : canonical_command_bytes g cmd ≡ some canon
  pub exported : g.export id ≡ some ring
  pub listed : g.list ring id ≡ some listing
  pub single : count_owner_key_matches listing id ≡ 1
  pub expiry_listed : g.list_for_expiry ring id ≡ some expiry_listing
  pub current : IsSignable now (records expiry_listing)
  pub verified : g.verify ring canon cmd.signature ≡ some output
  pub good : any (reports (codes "GOODSIG")) (split b'\n' output) ≡ true
  pub known : any (reports (codes "NO_PUBKEY")) (split b'\n' output) ≡ false

module _ ⦃u : CaseTables⦄ (g : Gpg) where
  import_owner_key-eq-ok :
      (id : Text) {ring : Bytes}
      → import_owner_key g id ≡ ok ring
      → (listing : Text) × (g.export id ≡ some ring)
        × (g.list ring id ≡ some listing)
        × (count_owner_key_matches listing id ≡ 1)
  unfolding import_owner_key assert_single_owner_key
  import_owner_key-eq-ok id {ring} h =
      let (ring', p, h₁) = >>=-eq-ok (given (g.export id) _) _ h in
      let (_, _, h₂) = >>=-eq-ok (require (is_nil ring' || g.imports ring') _) _ h₁ in
      let (_, q, h₃) = >>=-eq-ok (assert_single_owner_key g ring' id) _ h₂ in
      let (listing, l, n) = >>=-eq-ok (given (g.list ring' id) _) _ q in
      let same : ring' ≡ ring = ok-injective h₃ in
      (
        listing,
        given-eq-ok _ _ p ∙ ap some same,
        subst (λ r. g.list r id ≡ some listing) same (given-eq-ok _ _ l),
        (==_iff _ 1).0 (require-eq-ok _ _ n),
      )

  check_key_expiry-eq-ok :
      (now : ℕ) (ring : Bytes) (id : Text) {t : Unit {0}}
      → check_key_expiry g now ring id ≡ ok t
      → (listing : Text) × (g.list_for_expiry ring id ≡ some listing)
        × IsSignable now (records listing)
  unfolding check_key_expiry
  check_key_expiry-eq-ok now ring id h =
      let (listing, p, q) = >>=-eq-ok (given (g.list_for_expiry ring id) _) _ h in
      (listing, given-eq-ok _ _ p, (parse_colon_expiry_iff now listing).0 (ground arith))

  verify_detached_signature-eq-ok :
      (ring canon : Bytes) (sig : Text) {t : Unit {0}}
      → verify_detached_signature g ring canon sig ≡ ok t
      → (output : Text) × (g.verify ring canon sig ≡ some output)
        × (classify_status_lines output ≡ none)
  unfolding verify_detached_signature
  verify_detached_signature-eq-ok ring canon sig h =
      let (_, _, h₁) = >>=-eq-ok (require g.writes_data _) _ h in
      let (_, _, h₂) = >>=-eq-ok (require g.writes_signature _) _ h₁ in
      let (output, p, q) = >>=-eq-ok (given (g.verify ring canon sig) _) _ h₂ in
      (output, given-eq-ok _ _ p, reject-eq-ok _ q)

  -- When `VerifySignature` gives no error, the owner's fingerprint is a full one, the keyring made
  -- from what gpg exports for it holds exactly one key with it, that key has an expiry and may sign
  -- now, and gpg reports a good signature and no missing key for the command's bytes.
  pub verify_signature-IsVerified :
      (now : ℕ) (cmd : Command) (id : Text)
      → verify_signature g now cmd id ≡ ok tt
      → IsVerified g now id cmd
  unfolding verify_signature
  verify_signature-IsVerified now cmd id h =
      let (_, full, h₁) = >>=-eq-ok (require (is_fingerprint id) _) _ h in
      let (_, signed, h₂) = >>=-eq-ok (require (not (is_nil cmd.signature)) _) _ h₁ in
      let (canon, c, h₃) = >>=-eq-ok (given (canonical_command_bytes g cmd) _) _ h₂ in
      let (_, _, h₄) = >>=-eq-ok (require g.makes_keyring _) _ h₃ in
      let (ring, i, h₅) = >>=-eq-ok (import_owner_key g id) _ h₄ in
      let (_, e, v) = >>=-eq-ok (check_key_expiry g now ring id) _ h₅ in
      let (listing, exported, listed, single) = import_owner_key-eq-ok id i in
      let (expiry_listing, expiry_listed, current) = check_key_expiry-eq-ok now ring id e in
      let (output, verified, passed) = verify_detached_signature-eq-ok ring canon cmd.signature v in
      let (good, known) = (classify_status_lines_iff output).0 passed in
      record {
        ring = ring;
        canon = canon;
        listing = listing;
        expiry_listing = expiry_listing;
        output = output;
        full = require-eq-ok _ _ full;
        signed = not-eq-true _ (require-eq-ok _ _ signed);
        canonical = given-eq-ok _ _ c;
        exported = exported;
        listed = listed;
        single = single;
        expiry_listed = expiry_listed;
        current = current;
        verified = verified;
        good = good;
        known = known;
      }
