-- ===== src/Daemon/Handler.antt =====
-- internal/daemon/handler.go: which messages of a mailbox become work, and how many at once.
pub mod Authorized
pub mod Capacity
use beadle.Prelude.{
  ℕ, zero, suc, ◌+◌, ◌-◌, ◌*◌, Bool, true, false, not, ◌&&◌, ◌||◌, List, [], ◌∷◌, Option, none,
  some, if◌then◌else◌, is_nil, ltb, leb, ◌==◌,
}
use beadle.Prelude.Int.{ℤ, pos, negsuc}
use beadle.Text.{
  parse_digits, Text, CaseTables, codes, equal, trim_space, to_upper, trim_prefix, trim_suffix,
  has_suffix,
}
use beadle.Utf8.{Bytes}
use beadle.Contacts.Permission.{check_permission}
use beadle.Contacts.Book.{Contact, PathMatch}
use beadle.Contacts.Store.{find_by_address}
use beadle.Email.Address.{ParseAddress, extract_email_address}
use beadle.Email.Trust.{TrustLevel, trusted, verified, untrusted, unverified}

-- The part of `channel.MessageSummary` that the handler reads.
pub record Message : Type 0 where
  pub id : Text
  pub from : Text
  pub subject : Text
  pub trust_level : TrustLevel
  pub has_sig : Bool

-- The part of `pgp.VerifyResult` that the handler reads.
pub record VerifyResult : Type 0 where
  pub valid : Bool
  pub key_id : Text

-- What the handler asks of others: the host of the configuration, `net.SplitHostPort`, the mail
-- server, `pgp.Verify`, `mail.ParseAddress` and `path.Match`. `none` is an error.
pub record Mailbox : Type 0 where
  pub imap_host : Text
  pub split_host_port : Text → Option Text
  pub fetch_raw : ℕ → Option Bytes
  pub fetch_message : ℕ → Option Bytes
  pub pgp_verify : Bytes → Option VerifyResult
  pub parse_address : ParseAddress
  pub path_match : PathMatch

-- `strconv.ParseUint(s, 10, 32)`.
unfoldable pub parse_uint32 : Text → Option ℕ
unfolding parse_digits
parse_uint32 [] = none
parse_uint32 (c ∷ s) = elim (parse_digits 0 (c ∷ s)) [
  | none ↦ none
  | some n ↦ if ltb n 4294967296 then some n else none
]

-- `isLoopbackHost`.
unfoldable pub is_loopback_host : (Text → Option Text) → Text → Bool
is_loopback_host split_host_port given =
    let host : Text = elim (split_host_port given) [ none ↦ given | some h ↦ h ] in
    let inner = trim_suffix (trim_prefix host (codes "[")) (codes "]") in
    equal inner (codes "127.0.0.1") || equal inner (codes "::1") || equal inner (codes "localhost")

abbrev pub is_trusted : TrustLevel → Bool
is_trusted trusted = true
is_trusted _ = false

-- What becomes of one message.
pub data Fate : Type 0 where
  no_address unknown_sender lacks_execute : Fate
  low_trust : TrustLevel → Fate
  body_failed capacity_full dispatched mission_failed mission_created : Fate

module _ ⦃u : CaseTables⦄ where
  -- `normalizeKeyID`, in `verifyTrust`.
  unfoldable pub normalize_key_id : Text → Text
  normalize_key_id id = trim_prefix (to_upper (trim_space id)) (codes "0X")

  -- The contact names no key, or the one that signed.
  unfoldable pub key_matches : Contact → VerifyResult → Bool
  key_matches contact result =
      is_nil contact.gpg_key_id
      || has_suffix (normalize_key_id result.key_id) (normalize_key_id contact.gpg_key_id)

  pub judge : Contact → VerifyResult → TrustLevel
  judge contact result =
      if not result.valid
      then untrusted
      else if not (key_matches contact result)
      then untrusted
      else verified

  -- The part of `verifyTrust` behind the check for a signature.
  pub verify_signed : Mailbox → Message → Contact → TrustLevel
  unfolding judge
  verify_signed box msg contact = elim (parse_uint32 msg.id) [
    | none ↦ unverified
    | some uid ↦ elim (box.fetch_raw uid) [
      | none ↦ unverified
      | some raw ↦ elim (box.pgp_verify raw) [
        | none ↦ untrusted
        | some result ↦ judge contact result
      ]
    ]
  ]

  -- `verifyTrust`.
  unfoldable pub verify_trust : Mailbox → Message → Contact → TrustLevel
  unfolding verify_signed
  verify_trust box msg contact =
      if is_trusted msg.trust_level
      then if is_loopback_host box.split_host_port box.imap_host then trusted else unverified
      else if not msg.has_sig
      then unverified
      else verify_signed box msg contact

-- The handler for one identity, its contacts loaded. `has_spawner` is that neither `h.spawner` nor
-- `h.templates` is nil, and `creates` whether the mission creator succeeds.
pub record MailHandler : Type 0 where
  pub box : Mailbox
  pub identity_email : Text
  pub contacts : List Contact
  pub has_spawner : Bool
  pub creates : Message → Bool

-- `workerSem`: its capacity and how many slots are taken.
pub record Workers : Type 0 where
  pub capacity : ℕ
  pub busy : ℕ

-- The capacity that `NewMailHandler` makes.
abbrev pub worker_capacity : ℤ → ℕ
worker_capacity (negsuc n) = 2
worker_capacity (pos zero) = 2
worker_capacity (pos (suc n)) = suc n

unfoldable pub new_workers : ℤ → Workers
new_workers max_workers = record { capacity = worker_capacity max_workers; busy = 0 }

-- The `select` on `workerSem`: a slot is taken, or the message is skipped.
unfoldable pub acquire : Workers → Fate × Workers
acquire w =
    if ltb w.busy w.capacity
    then (dispatched, record w { busy = w.busy + 1 })
    else (capacity_full, w)

-- The deferred `<-h.workerSem` of a worker that is done.
unfoldable pub release : Workers → Workers
release w = record w { busy = w.busy - 1 }

-- `fetchBody`.
unfoldable pub fetch_body : Mailbox → Text → Option Bytes
fetch_body box id = elim (parse_uint32 id) [ none ↦ none | some uid ↦ box.fetch_message uid ]

-- The handler's action on a message that has passed all checks.
unfoldable pub act : MailHandler → Message → Workers → Fate × Workers
unfolding acquire fetch_body
act h msg w =
    if h.has_spawner
    then elim (fetch_body h.box msg.id) [ none ↦ (body_failed, w) | some body ↦ acquire w ]
    else (if h.creates msg then mission_created else mission_failed, w)

abbrev pub suffices : TrustLevel → Bool
suffices trusted = true
suffices verified = true
suffices _ = false

module _ ⦃u : CaseTables⦄ where
  unfoldable pub check_contact : MailHandler → Message → Contact → Workers → Fate × Workers
  check_contact h msg contact w =
      let trust = verify_trust h.box msg contact in
      if not (check_permission contact.permissions h.identity_email).execute
      then (lacks_execute, w)
      else if not (suffices trust)
      then (low_trust trust, w)
      else act h msg w

  -- The loop body of `OnNewMail`.
  unfoldable pub handle : MailHandler → Message → Workers → Fate × Workers
  handle h msg w =
      let addr = extract_email_address h.box.parse_address msg.from in
      if is_nil addr
      then (no_address, w)
      else elim (find_by_address h.box.path_match h.contacts addr) [
        | none ↦ (unknown_sender, w)
        | some contact ↦ check_contact h msg contact w
      ]
