-- ===== src/Email/Trust.antt =====
-- internal/email/trust.go and the levels of internal/channel/channel.go: the trust that a message's
-- headers and structure give it.
pub mod Levels
use beadle.Prelude.{
  Bool, true, false, ◌&&◌, ◌||◌, not, List, Option, none, some, if◌then◌else◌, is_nil,
}
use beadle.Text.{Text, CaseTables, codes, equal, contains, to_lower, lookup}
use beadle.Utf8.{Bytes}

pub data TrustLevel : Type 0 where
  trusted verified untrusted unverified : TrustLevel

pub record TrustResult : Type 0 where
  pub level : TrustLevel
  pub reason : Text
  pub encryption : Text
  pub origin : Text
  pub has_sig : Bool

abbrev pub Headers : Type 0
Headers = List (Text × Text)

-- A map's value, or "".
unfoldable pub header : Text → Headers → Text
header name headers = elim (lookup name headers) [ none ↦ codes "" | some v ↦ v ]

-- The media type that `mime.ParseMediaType` returns, "" where it fails.
module _ (media_type : Text → Text) where
  -- `HasPGPSignature`.
  unfoldable pub has_pgp_signature : Text → Bytes → Bool
  has_pgp_signature content_type raw =
      (not (is_nil content_type) && equal (media_type content_type) (codes "multipart/signed"))
      || contains raw (codes "application/pgp-signature")

  module _ ⦃u : CaseTables⦄ where
    abbrev pub is_proton : Headers → Bool
    is_proton headers =
        contains (to_lower (header (codes "X-Pm-Content-Encryption") headers)) (codes "end-to-end")
        && equal (to_lower (header (codes "X-Pm-Origin") headers)) (codes "internal")

    -- `ClassifyTrustDetailed`.
    unfoldable pub classify_trust_detailed : Headers → Bytes → TrustResult
    classify_trust_detailed headers raw =
        if is_proton headers
        then record {
          level = trusted;
          reason = codes "Proton-to-Proton end-to-end encrypted message";
          encryption = codes "end-to-end";
          origin = codes "internal";
          has_sig = false;
        }
        else if has_pgp_signature (header (codes "Content-Type") headers) raw
        then record {
          level = unverified;
          reason =
              codes
                "PGP signature present but not yet verified — call verify_signature to determine trust";
          encryption = codes "tls";
          origin = codes "external";
          has_sig = true;
        }
        else record {
          level = unverified;
          reason = codes "External message with no PGP signature";
          encryption = codes "tls";
          origin = codes "external";
          has_sig = false;
        }

    -- `ClassifyTrust`.
    unfoldable pub classify_trust : Headers → Bytes → TrustLevel
    unfolding classify_trust_detailed
    classify_trust headers raw = (classify_trust_detailed headers raw).level
