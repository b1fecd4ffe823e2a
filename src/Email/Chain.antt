-- ===== src/Email/Chain.antt =====
-- internal/email/chain.go: which transport a message leaves by.
pub mod Signed
use beadle.Prelude.{
  ℕ, Bool, true, false, not, ◌&&◌, ◌||◌, List, [], ◌∷◌, ◌++◌, Option, none, some, Result, ok, err,
  ◌>>=◌, if◌then◌else◌, any, is_nil, length,
}
use beadle.Text.{Text, CaseTables, codes, join}
use beadle.Utf8.{Bytes}
use beadle.Email.RepoTag.{RepoTag, subject}
use beadle.Email.Headers.{
  Threading, HeaderError, Headers, breaks_line, tag_headers, threading_headers,
}

-- A file that goes along, of `OutboundAttachment`.
pub record Attachment : Type 0 where
  pub filename : Text
  pub content_type : Text
  pub content : Bytes

-- The arguments of `TrySendChain` that describe the message.
pub record Mail : Type 0 where
  pub to : List Text
  pub cc : List Text
  pub bcc : List Text
  pub subject_line : Text
  pub body : Text
  pub html : Text
  pub attachments : List Attachment
  pub recipient_keys : List Text
  pub tag : RepoTag
  pub threading : Threading

-- What goes to the Resend API, its attachments before their base64 form.
pub record SendRequest : Type 0 where
  pub mail : Mail
  pub headers : Headers

-- Which of `ComposeRaw`, `ComposeSignedRaw` and `ComposeEncryptedSignedRaw` is called.
pub data Protection : Type 0 where
  plain signed encrypted : Protection

-- How `Config.GPGPassphrase` ends.
pub data Passphrase : Type 0 where
  found : Text → Passphrase
  missing unreadable : Passphrase

-- The configuration, and what the chain asks of gpg, MIME writers and servers.
pub record Transport : Type 0 where
  pub gpg_signer : Text
  pub gpg_passphrase : Passphrase
  pub smtp_available : Bool
  pub compose : Protection → Text → Mail → Option Bytes
  pub smtp_send : List Text → Bytes → Bool
  pub resend : SendRequest → Option Text

pub data ChainError : Type 0 where
  bcc_breaks encryption_needs_signing no_passphrase compose_failed smtp_failed : ChainError
  resend_blocked resend_failed : ChainError
  bad_header : HeaderError → ChainError

-- The fields of `SendResult` that do not repeat the arguments.
pub record SendResult : Type 0 where
  pub method : Text
  pub is_signed : Bool
  pub is_encrypted : Bool
  pub id : Text
  pub bcc_count : ℕ
  pub sent_subject : Text

-- What leaves, or is tried: a message to the SMTP server, or a request to the Resend API.
pub data Event : Type 0 where
  smtp : List Text → Bytes → Event
  request : SendRequest → Event

abbrev pub Outcome : Type 0
Outcome = Result ChainError SendResult × List Event

-- `mergeHeaders`; the keys of the two maps are distinct.
abbrev pub merge_headers : Headers → Headers → Headers
merge_headers a b = a ++ b

-- `resendRequest`.
unfoldable pub resend_request : Mail → Result ChainError SendRequest
resend_request m = elim (tag_headers m.tag) [
  | err x ↦ err (bad_header x)
  | ok tags ↦ elim (threading_headers m.threading) [
    | err x ↦ err (bad_header x)
    | ok threads ↦ ok (record { mail = m; headers = merge_headers tags threads })
  ]
]

module _ ⦃u : CaseTables⦄ where
  -- The message with its subject tagged.
  abbrev pub tagged_mail : Mail → Mail
  tagged_mail given = record given { subject_line = subject given.tag given.subject_line }

module _ (t : Transport) where
  abbrev pub is_signing : Bool
  is_signing = not (is_nil t.gpg_signer)

  abbrev pub protection : Mail → Protection
  protection m =
      if not (is_nil m.recipient_keys) then encrypted else if is_signing then signed else plain

  -- The passphrase is asked for only when signing; one that is missing is empty.
  abbrev pub passphrase : Option Text
  passphrase =
      if is_signing
      then elim t.gpg_passphrase [ found p ↦ some p | missing ↦ some [] | unreadable ↦ none ]
      else some []

  -- The second transport.
  unfoldable pub by_resend : Mail → List Event → Outcome
  by_resend m events =
      if is_signing then (err resend_blocked, events) else elim (resend_request m) [
        | err x ↦ (err x, events)
        | ok r ↦ elim (t.resend r) [
          | none ↦ (err resend_failed, events ++ request r ∷ [])
          | some answer ↦ (
            ok (record {
              method = codes "resend";
              is_signed = false;
              is_encrypted = false;
              id = answer;
              bcc_count = length m.bcc;
              sent_subject = m.subject_line;
            }),
            events ++ request r ∷ [],
          )
        ]
      ]

  -- The first transport, with a message that has been composed.
  unfoldable pub by_smtp : Mail → Bytes → Outcome
  unfolding by_resend
  by_smtp m raw =
      let recipients = m.to ++ (m.cc ++ m.bcc) in
      let events = smtp recipients raw ∷ [] in
      if t.smtp_send recipients raw
      then (
        ok (record {
          method = codes "smtp";
          is_signed = is_signing;
          is_encrypted = not (is_nil m.recipient_keys);
          id = [];
          bcc_count = length m.bcc;
          sent_subject = m.subject_line;
        }),
        events,
      )
      else if is_signing || not (is_nil m.recipient_keys)
      then (err smtp_failed, events)
      else by_resend m events

  -- The part of `TrySendChain` behind the passphrase.
  unfoldable pub by_transport : Text → Mail → Outcome
  unfolding by_smtp by_resend
  by_transport secret m =
      if t.smtp_available
      then elim (t.compose (protection m) secret m) [
        | none ↦ (err compose_failed, [])
        | some raw ↦ by_smtp m raw
      ]
      else by_resend m []

  module _ ⦃u : CaseTables⦄ where
    -- `TrySendChain`.
    unfoldable pub try_send_chain : Mail → Outcome
    unfolding by_transport
    try_send_chain given =
        let m = tagged_mail given in
        if any breaks_line m.bcc
        then (err bcc_breaks, [])
        else if not (is_nil m.recipient_keys) && not is_signing
        then (err encryption_needs_signing, [])
        else elim passphrase [
          | none ↦ (err no_passphrase, [])
          | some secret ↦ by_transport secret m
        ]
