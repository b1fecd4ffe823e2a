-- ===== src/Daemon/Handler/Authorized.antt =====
-- The messages that `OnNewMail` (internal/daemon/handler.go) turns into work.
use beadle.Prelude.{
  ℕ, ◌≡◌, ◌⊎◌, inl, inr, Bool, true, false, none, some, arith, Option-cases, Bool-cases, All,
}
use beadle.Text.{CaseTables}
use beadle.Utf8.{Bytes}
use beadle.Contacts.Permission.{check_permission}
use beadle.Contacts.Book.{Contact, is_pattern, validate}
use beadle.Contacts.Book.Restricted.{validate-IsReadOnly}
use beadle.Contacts.Store.FindByAddress.{find_by_address-All}
use beadle.Contacts.Store.{find_by_address}
use beadle.Email.Address.{extract_email_address}
use beadle.Email.Trust.{trusted}
use beadle.Daemon.Handler.{
  Message, VerifyResult, Mailbox, parse_uint32, is_loopback_host, key_matches, judge, verify_signed,
  verify_trust, suffices, Fate, dispatched, mission_created, MailHandler, Workers, check_contact,
  handle,
}

-- A message became work: a worker, or a mission where there is no spawner.
abbrev pub is_work : Fate → Bool
is_work dispatched = true
is_work mission_created = true
is_work _ = false

-- The trust level that the message was listed with is "trusted", and the server is on this host. What
-- the level rests on is not seen here.
pub record IsProton (box : Mailbox) (msg : Message) : Type 0 where
  pub classified : msg.trust_level ≡ trusted
  pub loopback : is_loopback_host box.split_host_port box.imap_host ≡ true

module _ ⦃u : CaseTables⦄ where
  -- A valid signature over the message itself, by the contact's key if the contact names one.
  pub record IsSigned (box : Mailbox) (msg : Message) (contact : Contact) : Type 0 where
    pub uid : ℕ
    pub raw : Bytes
    pub result : VerifyResult
    pub signature : msg.has_sig ≡ true
    pub numbered : parse_uint32 msg.id ≡ some uid
    pub fetched : box.fetch_raw uid ≡ some raw
    pub checked : box.pgp_verify raw ≡ some result
    pub valid : result.valid ≡ true
    pub key_ok : key_matches contact result ≡ true

  verify_signed-IsSigned :
      (box : Mailbox) (msg : Message) (contact : Contact)
      → msg.has_sig ≡ true
      → suffices (verify_signed box msg contact) ≡ true
      → IsSigned box msg contact
  unfolding verify_signed judge
  verify_signed-IsSigned box msg contact s h = elim (Option-cases (parse_uint32 msg.id)) [
    | inl e ↦ cc (rw (e, verify_signed) at h)
    | inr (uid, e) ↦ elim (Option-cases (box.fetch_raw uid)) [
      | inl f ↦ cc (rw (e, f, verify_signed) at h)
      | inr (raw, f) ↦ elim (Option-cases (box.pgp_verify raw)) [
        | inl g ↦ cc (rw (e, f, g, verify_signed) at h)
        | inr (result, g) ↦
            let j : suffices (judge contact result) ≡ true = rw (e, f, g, verify_signed) at h in
            record {
              uid = uid;
              raw = raw;
              result = result;
              signature = s;
              numbered = e;
              fetched = f;
              checked = g;
              valid = ground arith;
              key_ok = ground arith;
            }
      ]
    ]
  ]

  -- Trust enough for work is one of the two.
  verify_trust-suffices :
      (box : Mailbox) (msg : Message) (contact : Contact)
      → suffices (verify_trust box msg contact) ≡ true
      → IsProton box msg ⊎ IsSigned box msg contact
  unfolding verify_trust
  verify_trust-suffices box msg contact h = ground (arith, verify_signed-IsSigned box msg contact)

  -- The evidence on which a message becomes work.
  pub record IsAuthorized (h : MailHandler) (msg : Message) : Type 0 where
    pub contact : Contact
    pub found :
        find_by_address h.box.path_match h.contacts
          (extract_email_address h.box.parse_address msg.from)
        ≡ some contact
    pub may_execute : (check_permission contact.permissions h.identity_email).execute ≡ true
    pub transport : IsProton h.box msg ⊎ IsSigned h.box msg contact

  check_contact-eq-work :
      (h : MailHandler) (msg : Message) (contact : Contact) (w : Workers)
      → is_work (check_contact h msg contact w).0 ≡ true
      → ((check_permission contact.permissions h.identity_email).execute ≡ true)
        × (suffices (verify_trust h.box msg contact) ≡ true)
  unfolding check_contact
  check_contact-eq-work h msg contact w k = ground arith

  handle-eq-work :
      (h : MailHandler) (msg : Message) (w : Workers)
      → is_work (handle h msg w).0 ≡ true
      → (contact : Contact) × (find_by_address h.box.path_match h.contacts
            (extract_email_address h.box.parse_address msg.from)
          ≡ some contact)
        × (is_work (check_contact h msg contact w).0 ≡ true)
  unfolding handle
  handle-eq-work h msg w k = ground arith

  -- A message becomes work only if its sender is a contact with the execute permission for this
  -- identity, and either the message was listed with the trust level "trusted" and the name of the
  -- mail server is one of this host, or the message as fetched carries a valid signature, by any key
  -- where the contact names none, and otherwise by one whose id ends in the contact's, both without
  -- their "0x" and in upper case. Whether the listed level is deserved is not part of it.
  pub handle-IsAuthorized :
      (h : MailHandler) (msg : Message) (w : Workers)
      → is_work (handle h msg w).0 ≡ true
      → IsAuthorized h msg
  handle-IsAuthorized h msg w k =
      let (contact, found, passed) = handle-eq-work h msg w k in
      let (may, enough) = check_contact-eq-work h msg contact w passed in
      record {
        contact = contact;
        found = found;
        may_execute = may;
        transport = verify_trust-suffices h.box msg contact enough;
      }

  -- Where every contact has passed `Validate`, no message becomes work through a pattern contact.
  pub handle_pattern :
      (h : MailHandler) (msg : Message) (w : Workers)
      → All (λ c. validate h.box.path_match c ≡ none) h.contacts
      → is_work (handle h msg w).0 ≡ true
      → (contact : Contact) × (find_by_address h.box.path_match h.contacts
            (extract_email_address h.box.parse_address msg.from)
          ≡ some contact)
        × (is_pattern contact ≡ false)
  handle_pattern h msg w valid k =
      let a = handle-IsAuthorized h msg w k in
      let v =
        find_by_address-All h.box.path_match (λ c. validate h.box.path_match c ≡ none) h.contacts _
          valid a.found in
      (
        a.contact,
        a.found,
        elim (Bool-cases (is_pattern a.contact)) [
          | inr plain ↦ plain
          | inl pat ↦
              let (_, none_of_it) =
                validate-IsReadOnly h.box.path_match a.contact h.identity_email v pat in
              cc (none_of_it, a.may_execute)
        ],
      )
