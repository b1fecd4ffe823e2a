-- ===== src/Email/Chain/Signed.antt =====
-- What leaves where a signer is configured (`TrySendChain`, internal/email/chain.go).
use beadle.Prelude.{
  ◌≡◌, ◌⊎◌, true, [], ◌∷◌, some, arith, All, Option-cases, Bool-cases, inl, inr, is_nil, any,
  if◌then◌else◌, List, ◌++◌,
}
use beadle.Text.{Text, CaseTables}
use beadle.Utf8.{Bytes}
use beadle.Email.Headers.{breaks_line}
use beadle.Email.Chain.{
  Mail, signed, encrypted, Transport, Event, smtp, is_signing, protection, by_resend, by_smtp,
  by_transport, try_send_chain, tagged_mail, passphrase,
}

-- The event sends, over SMTP, bytes that were composed signed, or encrypted where there are keys.
pub data IsProtected (t : Transport) (m : Mail) : Event → Type 0 where
  sent_signed :
      {recipients : List Text} {raw : Bytes} (secret : Text)
      → t.compose (if is_nil m.recipient_keys then signed else encrypted) secret m ≡ some raw
      → IsProtected t m (smtp recipients raw)

module _ (t : Transport) (signing : is_signing t ≡ true) where
  by_resend-nothing : (m : Mail) → (by_resend t m []).1 ≡ []
  unfolding by_resend
  by_resend-nothing m = ground arith

  by_smtp_events :
      (m : Mail) (raw : Bytes) → (by_smtp t m raw).1 ≡ smtp (m.to ++ (m.cc ++ m.bcc)) raw ∷ []
  unfolding by_smtp
  by_smtp_events m raw = ground arith

  protection-signing :
      (m : Mail) → protection t m ≡ (if is_nil m.recipient_keys then signed else encrypted)
  protection-signing m = ground arith

  by_transport-IsProtected :
      (secret : Text) (m : Mail) → All (IsProtected t m) (by_transport t secret m).1
  unfolding by_transport
  by_transport-IsProtected secret m = elim (Bool-cases t.smtp_available) [
    | inr off ↦ rw (off, by_transport, by_resend-nothing m) tt
    | inl on ↦ elim (Option-cases (t.compose (protection t m) secret m)) [
      | inl failed ↦ rw (on, by_transport, failed) tt
      | inr (raw, composed) ↦
          rw (on, by_transport, composed, by_smtp_events m raw)
            (sent_signed secret (rw (protection-signing m) at composed), tt)
    ]
  ]

  try_send_chain_events :
      ⦃u : CaseTables⦄ (given : Mail)
      → ((try_send_chain t given).1 ≡ [])
        ⊎ ((secret : Text) × ((try_send_chain t given).1
              ≡ (by_transport t secret (tagged_mail given)).1))
  unfolding try_send_chain
  try_send_chain_events given = elim (Option-cases (passphrase t)) [
    | inl locked ↦ inl (ground arith)
    | inr (secret, unlocked) ↦ elim (Bool-cases (any breaks_line given.bcc)) [
      | inl breaks ↦ inl (ground arith)
      | inr clean ↦ inr (secret, ground arith)
    ]
  ]

  -- Where a signer is configured, whatever fails, nothing goes to the Resend API, and all that goes
  -- to the mail server is the message as composed with a signature, encrypted where there are keys.
  pub try_send_chain-IsProtected :
      ⦃u : CaseTables⦄ (given : Mail)
      → All (IsProtected t (tagged_mail given)) (try_send_chain t given).1
  try_send_chain-IsProtected given = elim (try_send_chain_events given) [
    | inl nothing ↦ rw nothing tt
    | inr (secret, same) ↦ rw same (by_transport-IsProtected secret (tagged_mail given))
  ]
