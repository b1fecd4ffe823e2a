-- ===== src/Mcp/Recipients/Allowed.antt =====
-- Whom a message of `send_email` reaches, and for whom it is encrypted (internal/mcp/tools.go).
use beadle.Prelude.{
  ◌≡◌, ◌⊎◌, inl, inr, refl, true, false, List, [], ◌∷◌, ◌++◌, Option, none, some, Result, ok, err,
  is_nil, All, Bool-cases, arith,
}
use beadle.Text.{Text, CaseTables}
use beadle.Contacts.Permission.{check_permission}
use beadle.Contacts.Book.{Contact, PathMatch}
use beadle.Contacts.Store.{find_by_address}
use beadle.Email.Address.{ParseAddress, extract_email_address}
use beadle.Mcp.Recipients.{
  Outgoing, SendError, all_recipients, refuse, refuse_contact, add_refused,
  enforce_write_permission, add_key, collect_keys, key_policy, encrypt_keys_for, check_refused,
  check_recipients, split_addresses, Resolved, resolve_field, send_resolved, send_email,
}

module _ ⦃u : CaseTables⦄ (path_match : PathMatch) (parse_address : ParseAddress)
    (contacts : List Contact) where
  -- The recipient's address is that of a contact with the write permission.
  pub record IsWritable (identity recipient : Text) : Type 0 where
    pub contact : Contact
    pub addressed : is_nil (extract_email_address parse_address recipient) ≡ false
    pub found :
        find_by_address path_match contacts (extract_email_address parse_address recipient)
        ≡ some contact
    pub writable : (check_permission contact.permissions identity).write ≡ true

  -- The key is that of the contact that the recipient's address belongs to.
  abbrev pub HasKey : Text → Text → Type 0
  HasKey recipient key =
      (c : Contact) × (find_by_address path_match contacts
          (extract_email_address parse_address recipient)
        ≡ some c)
      × (c.gpg_key_id ≡ key)
      × (is_nil key ≡ false)

  -- The keys are those of the recipients, one for each.
  abbrev pub AreKeys : List Text → List Text → Type 0
  AreKeys [] [] = Unit
  AreKeys [] (k ∷ keys) = true ≡ false
  AreKeys (r ∷ rs) [] = true ≡ false
  AreKeys (r ∷ rs) (k ∷ keys) = HasKey r k × AreKeys rs keys

  refuse_contact-none :
      (identity recipient : Text) (found : Option Contact)
      → let addr = extract_email_address parse_address recipient in
        is_nil addr ≡ false
        → find_by_address path_match contacts addr ≡ found
        → refuse_contact path_match parse_address contacts identity addr found ≡ none
        → IsWritable identity recipient
  refuse_contact-none identity recipient none e f h = cc
  refuse_contact-none identity recipient (some c) e f h = record {
    contact = c;
    addressed = e;
    found = f;
    writable = ground arith;
  }

  refuse-none :
      (identity recipient : Text)
      → refuse path_match parse_address contacts identity recipient ≡ none
      → IsWritable identity recipient
  unfolding refuse
  refuse-none identity recipient h =
      elim (Bool-cases (is_nil (extract_email_address parse_address recipient))) [
        | inl e ↦ cc (rw e at h)
        | inr e ↦ refuse_contact-none identity recipient _ e refl (rw e at h)
      ]

  add_refused-nil :
      (r : Option Text) (rs : List Text)
      → add_refused path_match parse_address contacts r rs ≡ []
      → (r ≡ none) × (rs ≡ [])
  add_refused-nil none rs h = (refl, h)
  add_refused-nil (some t) rs h = cc

  enforce_write_permission-nil :
      (identity : Text) (rs : List Text)
      → enforce_write_permission path_match parse_address contacts identity rs ≡ []
      → All (IsWritable identity) rs
  unfolding enforce_write_permission
  enforce_write_permission-nil identity [] h = tt
  enforce_write_permission-nil identity (r ∷ rs) h =
      let (a, b) = add_refused-nil (refuse path_match parse_address contacts identity r) _ h in
      (refuse-none identity r a, enforce_write_permission-nil identity rs b)

  add_key-AreKeys :
      (r : Text) (rs : List Text) (c : Contact) (p : List Text × List Text)
      → find_by_address path_match contacts (extract_email_address parse_address r) ≡ some c
      → (is_nil p.1 ≡ true → AreKeys rs p.0)
      → let q =
          add_key path_match parse_address contacts
            (extract_email_address parse_address r)
            (some c)
            p in
        is_nil q.1 ≡ true → AreKeys (r ∷ rs) q.0
  add_key-AreKeys r rs c (have, missing) f ih h = elim (Bool-cases (is_nil c.gpg_key_id)) [
    | inl e ↦ cc (rw e at h)
    | inr e ↦ rw e ((c, f, refl, e), ih (rw e at h))
  ]

  collect_keys-AreKeys :
      (identity : Text) (rs : List Text)
      → All (IsWritable identity) rs
      → is_nil (collect_keys path_match parse_address contacts rs).1 ≡ true
      → AreKeys rs (collect_keys path_match parse_address contacts rs).0
  unfolding collect_keys
  collect_keys-AreKeys identity [] w h = tt
  collect_keys-AreKeys identity (r ∷ rs) w h =
      rw (w.0.addressed, w.0.found)
        (add_key-AreKeys r rs w.0.contact _ w.0.found (collect_keys-AreKeys identity rs w.1)
          (rw (w.0.addressed, w.0.found) at h))

  -- What may be sent: to somebody, to recipients who may be written to only, and either without
  -- encryption or with a key for each of them.
  pub record IsSendable (identity : Text) (o : Outgoing) : Type 0 where
    pub is_addressed : is_nil o.to ≡ false
    pub all_writable : All (IsWritable identity) (all_recipients o)
    pub encrypted : (o.encrypt_keys ≡ []) ⊎ AreKeys (all_recipients o) o.encrypt_keys

  abbrev pub IsSent : Text → Result SendError Outgoing → Type 0
  IsSent identity (err e) = Unit
  IsSent identity (ok o) = IsSendable identity o

  key_policy-AreKeys :
      (rs : List Text) (p : List Text × List Text)
      → (is_nil p.1 ≡ true → AreKeys rs p.0)
      → let keys = (key_policy path_match parse_address contacts p).0 in
        (keys ≡ []) ⊎ AreKeys rs keys
  key_policy-AreKeys rs ([], missing) h = inl refl
  key_policy-AreKeys rs (k ∷ have, []) h = inr (h refl)
  key_policy-AreKeys rs (k ∷ have, m ∷ missing) h = inl refl

  check_refused-IsSent :
      (identity : Text) (refused to cc bcc : List Text)
      → is_nil to ≡ false
      → enforce_write_permission path_match parse_address contacts identity (to ++ (cc ++ bcc))
        ≡ refused
      → IsSent identity (check_refused path_match parse_address contacts refused to cc bcc)
  unfolding encrypt_keys_for
  check_refused-IsSent identity [] to cc bcc somebody e =
      let writable = enforce_write_permission-nil identity (to ++ (cc ++ bcc)) e in
      record {
        is_addressed = somebody;
        all_writable = writable;
        encrypted =
            key_policy-AreKeys (to ++ (cc ++ bcc)) _
              (collect_keys-AreKeys identity (to ++ (cc ++ bcc)) writable);
      }
  check_refused-IsSent identity (t ∷ ts) to cc bcc somebody e = tt

  pub check_recipients-IsSent :
      (identity : Text) (to cc bcc : List Text)
      → IsSent identity (check_recipients path_match parse_address contacts identity to cc bcc)
  unfolding check_recipients
  check_recipients-IsSent identity to cc bcc = elim (Bool-cases (is_nil to)) [
    | inl nobody ↦ rw nobody tt
    | inr somebody ↦ rw somebody (check_refused-IsSent identity _ to cc bcc somebody refl)
  ]

  send_resolved-IsSent :
      (identity : Text) (to cc bcc : Resolved)
      → IsSent identity (send_resolved path_match parse_address contacts identity to cc bcc)
  send_resolved-IsSent identity (err e) cc bcc = tt
  send_resolved-IsSent identity (ok to) (err e) bcc = tt
  send_resolved-IsSent identity (ok to) (ok cc) (err e) = tt
  send_resolved-IsSent identity (ok to) (ok cc) (ok bcc) =
      check_recipients-IsSent identity (split_addresses to) (split_addresses cc)
        (split_addresses bcc)

  -- A message that `send_email` hands to the transports has a recipient; each of its recipients is a
  -- contact with the write permission for the identity; and it is encrypted to nobody or to the keys
  -- of all of them.
  pub send_email-IsSent :
      (identity to cc bcc : Text)
      → IsSent identity (send_email path_match parse_address contacts identity to cc bcc)
  unfolding send_email
  send_email-IsSent identity to cc bcc =
      send_resolved-IsSent identity (resolve_field path_match parse_address contacts to)
        (resolve_field path_match parse_address contacts cc)
        (resolve_field path_match parse_address contacts bcc)
