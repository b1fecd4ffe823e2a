-- ===== src/Mcp/Replying.antt =====
-- internal/mcp/tools.go, `replyMessage`, and the end of `sendEmail`: what is sent, with the warnings
-- that the tools print.
pub mod Behind
pub mod Threaded
use beadle.Prelude.{
  ℕ, Bool, true, false, List, [], ◌∷◌, ◌++◌, Option, none, some, Result, ok, err, ◌>>=◌,
  if◌then◌else◌, is_nil,
}
use beadle.Text.{Text, CaseTables, codes, join}
use beadle.Contacts.Book.{Contact, PathMatch}
use beadle.Email.Address.{ParseAddress}
use beadle.Email.RepoTag.{RepoTag, reply_subject}
use beadle.Email.Headers.{Threading}
use beadle.Email.Reply.{ReplyContext, Original, thread_of, quote_body}
use beadle.Email.Chain.{Attachment, Mail, Transport, SendResult, ChainError, Event, try_send_chain}
use beadle.Mcp.Params.{ToolError, message_uid}
use beadle.Mcp.Recipients.{
  Outgoing, SendError, Resolved, split_addresses, resolve_field, check_recipients, with_keys,
}
use beadle.Mcp.Attachments.{AttachmentError}
use beadle.Mcp.Format as Print

pub data ReplyError : Type 0 where
  bad_call : ToolError → ReplyError
  no_body not_connected not_fetched no_reply_to : ReplyError
  refused : SendError → ReplyError
  bad_attachment : AttachmentError → ReplyError
  not_sent : ChainError → ReplyError

-- What the call gives: the required `message_id` and `body`, and what becomes of the others.
pub record Call : Type 0 where
  pub message_id : Option Text
  pub body : Option Text
  pub html : Text
  pub cc : Text
  pub bcc : Text
  pub attachments : Result AttachmentError (List Attachment)

-- A message that is ready for the transports, and the warnings for the tool's output.
pub record Reply : Type 0 where
  pub mail : Mail
  pub warnings : List Text

abbrev pub unthreaded : Text
unthreaded = codes "reply sent without threading headers: original has no Message-ID"

abbrev pub unquoted : Text
unquoted = codes "original body could not be extracted; reply sent without a quote"

abbrev pub threading_of : ReplyContext → Threading
threading_of rc =
    if is_nil rc.message_id
    then record { in_reply_to = []; references = [] }
    else record { in_reply_to = rc.message_id; references = rc.references }

unfoldable pub reply_body : ReplyContext → Text → Text
unfolding quote_body
reply_body rc text = if rc.quotable then quote_body text rc.from rc.date rc.body else text

abbrev pub warning_if : Bool → Text → List Text
warning_if b w = if b then w ∷ [] else []

-- The warnings, the last that of the encryption.
abbrev pub warnings_of : ReplyContext → Text → List Text
warnings_of rc encryption =
    (if is_nil rc.message_id then unthreaded ∷ [] else [])
    ++ ((if rc.quotable then [] else unquoted ∷ [])
        ++ (if is_nil encryption then [] else encryption ∷ []))

module _ ⦃u : CaseTables⦄ (path_match : PathMatch) (parse_address : ParseAddress)
    (contacts : List Contact) (identity : Text) (tag : RepoTag) where
  -- The mail to recipients that have been checked.
  abbrev pub reply_to : ReplyContext → Text → Text → List Attachment → Outgoing → Reply
  reply_to rc text html attachments o = record {
    mail = record {
      to = o.to;
      cc = o.cc;
      bcc = o.bcc;
      subject_line = reply_subject rc.subject tag;
      body = reply_body rc text;
      html = html;
      attachments = attachments;
      recipient_keys = o.encrypt_keys;
      tag = tag;
      threading = threading_of rc;
    };
    warnings = warnings_of rc o.warning;
  }

  abbrev pub checked : Result SendError Outgoing → Result ReplyError Outgoing
  checked (err e) = err (refused e)
  checked (ok o) = ok o

  -- The part of `replyMessage` behind fetching.
  unfoldable pub reply_thread :
      ReplyContext → Text → Text → List Attachment → List Text → List Text → Result ReplyError Reply
  unfolding check_recipients reply_subject reply_body
  reply_thread rc text html attachments cc bcc =
      if is_nil rc.reply_to
      then err no_reply_to
      else (checked
            (check_recipients path_match parse_address contacts identity (rc.reply_to ∷ []) cc bcc)
          >>= λ o. ok (reply_to rc text html attachments o))

  abbrev pub resolved : Resolved → Result ReplyError Text
  resolved (err e) = err (refused e)
  resolved (ok s) = ok s

  abbrev pub attached :
      Result AttachmentError (List Attachment) → Result ReplyError (List Attachment)
  attached (err e) = err (bad_attachment e)
  attached (ok files) = ok files

  abbrev pub body_of : Option Text → Result ReplyError Text
  body_of none = err no_body
  body_of (some text) = ok text

  abbrev pub uid_of : Result ToolError ℕ → Result ReplyError ℕ
  uid_of (err e) = err (bad_call e)
  uid_of (ok uid) = ok uid

  -- What `FetchThread` gives, for a server that `connects`.
  abbrev pub fetched : Bool → Option Original → Result ReplyError ReplyContext
  fetched false o = err not_connected
  fetched true none = err not_fetched
  fetched true (some o) = ok (thread_of parse_address o)

  abbrev pub reply_fetched :
      Result ReplyError ReplyContext
      → Text
      → Text
      → List Attachment
      → Text
      → Text
      → Result ReplyError Reply
  reply_fetched (err e) text html files cc bcc = err e
  reply_fetched (ok rc) text html files cc bcc =
      reply_thread rc text html files (split_addresses cc) (split_addresses bcc)

  -- The arguments in the order in which they are looked at.
  abbrev pub reply_checked :
      Bool
      → (ℕ → Option Original)
      → Text
      → Result ReplyError ℕ
      → Result ReplyError Text
      → Result ReplyError Text
      → Result ReplyError Text
      → Result ReplyError (List Attachment)
      → Result ReplyError Reply
  reply_checked connects fetch html (err e) text cc bcc files = err e
  reply_checked connects fetch html (ok uid) (err e) cc bcc files = err e
  reply_checked connects fetch html (ok uid) (ok text) (err e) bcc files = err e
  reply_checked connects fetch html (ok uid) (ok text) (ok cc) (err e) files = err e
  reply_checked connects fetch html (ok uid) (ok text) (ok cc) (ok bcc) (err e) = err e
  reply_checked connects fetch html (ok uid) (ok text) (ok cc) (ok bcc) (ok files) =
      reply_fetched (fetched connects (fetch uid)) text html files cc bcc

  -- `replyMessage`, up to the transports.
  unfoldable pub reply_message : Bool → (ℕ → Option Original) → Call → Result ReplyError Reply
  unfolding message_uid split_addresses thread_of reply_thread
  reply_message connects fetch call =
      reply_checked connects fetch call.html (uid_of (message_uid call.message_id))
        (body_of call.body) (resolved (resolve_field path_match parse_address contacts call.cc))
        (resolved (resolve_field path_match parse_address contacts call.bcc))
        (attached call.attachments)

-- What the tool prints of a message that was sent.
abbrev pub sent_result : Mail → SendResult → Print.SendResult
sent_result m r = record {
  to = join (codes ", ") m.to;
  method = r.method;
  cc = join (codes ", ") m.cc;
  is_encrypted = r.is_encrypted;
  is_signed = r.is_signed;
}

abbrev pub add_warnings : Text → List Text → Text
add_warnings out [] = out
add_warnings out (w ∷ ws) = add_warnings (out ++ (codes "\n" ++ w)) ws

module _ ⦃u : CaseTables⦄ (t : Transport) where
  -- The end of `replyMessage`: the output, and what has left.
  unfoldable pub send_reply : Reply → Result ReplyError Text × List Event
  unfolding try_send_chain join
  send_reply r =
      let (sent, events) = try_send_chain t r.mail in
      elim sent [
        | err e ↦ (err (not_sent e), events)
        | ok s ↦
            (ok (add_warnings (Print.format_send_result (sent_result r.mail s)) r.warnings), events)
      ]
