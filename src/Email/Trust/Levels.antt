-- ===== src/Email/Trust/Levels.antt =====
-- What `ClassifyTrustDetailed` (internal/email/trust.go) can answer.
use beadle.Prelude.{◌≡◌, ◌↔◌, ◌⊎◌, true, false, arith}
use beadle.Text.{Text, CaseTables, codes}
use beadle.Utf8.{Bytes}
use beadle.Email.Trust.{
  trusted, unverified, Headers, header, has_pgp_signature, is_proton, classify_trust_detailed,
}

-- The headers and the structure alone make a message trusted exactly if Proton's two headers say so,
-- and else unverified, never verified or untrusted; a signature is reported exactly for a message
-- that has one and is not trusted already.
pub classify_trust_levels :
    (media_type : Text → Text) ⦃u : CaseTables⦄ (headers : Headers) (raw : Bytes)
    → let r = classify_trust_detailed media_type headers raw in
      ((r.level ≡ trusted) ↔ (is_proton media_type headers ≡ true))
      × ((r.level ≡ trusted) ⊎ (r.level ≡ unverified))
      × ((r.has_sig ≡ true) ↔ (
          (is_proton media_type headers ≡ false)
          × (has_pgp_signature media_type (header (codes "Content-Type") headers) raw ≡ true)))
unfolding classify_trust_detailed
classify_trust_levels media_type headers raw = ground arith
