-- ===== src/Mcp/Reading.antt =====
-- internal/mcp/tools.go: the tools that show mail. The servers, gpg and the files are the record
-- `Mail`.
pub mod Whole
pub mod Hidden
pub mod Blind
pub mod Plain
pub mod Confined
use beadle.Prelude.{
  ℕ, ◌-◌, Bool, true, false, not, ◌&&◌, ◌||◌, List, [], ◌∷◌, ◌++◌, map, Option, none, some, Result,
  ok, err, ◌>>=◌, if◌then◌else◌, is_nil, length, take, ltb, ◌==◌,
}
use beadle.Prelude.Int.{ℤ, pos, negsuc}
use beadle.Utf8.{Bytes}
use beadle.Text.{Text, CaseTables, codes, equal}
use beadle.Text.Decimal.{decimal}
use beadle.Text.Path.{base, drop_slashes}
use beadle.Contacts.Permission.{no_permission, Permission, check_permission, print}
use beadle.Contacts.Book.{Contact, PathMatch}
use beadle.Contacts.Store.{find_by_address}
use beadle.Email.Address.{ParseAddress, extract_email_address}
use beadle.Email.Trust.{
  TrustLevel, trusted, verified, untrusted, unverified, TrustResult, has_pgp_signature,
}
use beadle.Email.Search.{Query, Server, ListResult, SearchError, search_messages}
use beadle.Daemon.Handler.{parse_uint32}
use beadle.Mcp.Messages.{Summary}
use beadle.Mcp.Params.{
  Arguments, ToolError, no_context, not_connected, bad_param, unparseable_sender, denied,
  server_failed, verify_failed, parse_failed, not_written, string_param, int_param, bool_param,
  message_uid,
}
use beadle.Mcp.Format.{
  Message, VerifyResult, MimePart, format_message, format_messages_result, format_verify_result,
  format_trust_result_with_perm, format_mime, format_download_result,
}

-- A summary, and whether the message carries a signature.
pub record Listed : Type 0 where
  pub summary : Summary
  pub has_sig : Bool

-- What the handlers ask of others. `none` and false are errors; `headers_from` is the sender that
-- `ParseMIME` finds, `classify` what `ClassifyTrustDetailed` says of the message.
pub record Mail : Type 0 where
  pub has_context : Bool
  pub connects : Bool
  pub identity_email : Text
  pub contacts : List Contact
  pub repo_slug : Text
  pub path_match : PathMatch
  pub parse_address : ParseAddress
  pub media_type : Text → Text
  pub parse_since : Text → Option ℕ
  pub server : Text → Server Listed
  pub fetch_message : Text → ℕ → Option Message
  pub fetch_raw : Text → ℕ → Option Bytes
  pub pgp_verify : Bytes → Option VerifyResult
  pub headers_from : Bytes → Text
  pub classify : Bytes → TrustResult
  pub mime_parts : Bytes → Option (List MimePart)
  pub extract_part : Bytes → ℕ → Option (MimePart × Bytes)
  pub attachment_dir : Option Text
  pub writes : Text → Bytes → Bool

-- The parameters `count` and `offset`.
abbrev pub positive : ℤ → Result ToolError ℤ
positive (pos n) = if n == 0 then err bad_param else ok (pos n)
positive (negsuc n) = err bad_param

abbrev pub non_negative : ℤ → Result ToolError ℤ
non_negative (pos n) = ok (pos n)
non_negative (negsuc n) = err bad_param

abbrev pub is_none : Option ℕ → Bool
is_none none = true
is_none (some t) = false

module _ ⦃u : CaseTables⦄ (m : Mail) where
  -- `senderPermission`.
  abbrev pub permission_of : Option Contact → Permission
  permission_of none = no_permission
  permission_of (some c) = check_permission c.permissions m.identity_email

  unfoldable pub sender_permission : Text → Permission × Text
  sender_permission from =
      let sender = extract_email_address m.parse_address from in
      if is_nil sender
      then (no_permission, [])
      else (permission_of (find_by_address m.path_match m.contacts sender), sender)

  -- The check before a message is shown.
  abbrev pub may_read : Text → Bool
  may_read from = (sender_permission from).0.read

  abbrev pub refusal : Text → ToolError
  refusal from =
      if is_nil (sender_permission from).1
      then unparseable_sender from
      else denied (sender_permission from).1

  -- `resolveContext` and `withClient`.
  abbrev pub with_context : Result ToolError Text → Result ToolError Text
  with_context r = if m.has_context then r else err no_context

  abbrev pub with_client : {A : Type 0} → Result ToolError A → Result ToolError A
  with_client r = if m.connects then r else err not_connected

  -- The first loop of `renderMessages`: the trust level of a signed message.
  abbrev pub verified_level : TrustLevel → Option Bytes → TrustLevel
  verified_level level none = level
  verified_level level (some raw) = elim (m.pgp_verify raw) [
    | none ↦ level
    | some result ↦ if result.valid then verified else untrusted
  ]

  abbrev pub level_at : Text → TrustLevel → Option ℕ → TrustLevel
  level_at folder level none = level
  level_at folder level (some uid) = verified_level level (m.fetch_raw folder uid)

  abbrev pub verify_listed : Text → Listed → Summary
  verify_listed folder l =
      if l.has_sig
      then record l.summary {
        trust_level = level_at folder l.summary.trust_level (parse_uint32 l.summary.id);
      }
      else l.summary

  -- The second loop.
  abbrev pub redacted : Text
  redacted = codes "[redacted " ++ (0x2014 ∷ codes " no read permission]")

  abbrev pub redact : Summary → Summary
  redact s = if may_read s.from then s else record s { subject = redacted }

  abbrev pub shown : Text → Listed → Summary
  shown folder l = redact (verify_listed folder l)

  -- `renderMessages`; `none` of the format is a panic.
  abbrev pub render_as : ListResult Listed → List Summary → Result ToolError Text
  render_as lr messages =
      elim (format_messages_result m.parse_address
        (record { messages = messages; total = lr.total; degraded_reason = lr.degraded_reason })) [
          | none ↦ err server_failed
          | some t ↦ ok t
        ]

  unfoldable pub render_messages : Text → ListResult Listed → Result ToolError Text
  render_messages folder lr = render_as lr (map (shown folder) lr.messages)

  abbrev pub render_result : Text → Result SearchError (ListResult Listed) → Result ToolError Text
  render_result folder (err e) = err server_failed
  render_result folder (ok lr) = render_messages folder lr

  abbrev pub search_and_render : Arguments → Query → Result ToolError Text
  search_and_render args q = (int_param args (codes "count") (pos 10) >>= positive) >>= λ count.
      (int_param args (codes "offset") (pos 0) >>= non_negative) >>= λ offset.
      let folder = string_param args (codes "folder") (codes "INBOX") in
      with_client (render_result folder (search_messages (m.server folder) q count offset))

  abbrev pub scoped_slug : Arguments → Text
  scoped_slug args = if bool_param args (codes "all_repos") then [] else m.repo_slug

  -- `listMessages`.
  abbrev pub list_query : Arguments → Query
  list_query args = record {
    from = [];
    subject = [];
    since = none;
    text = [];
    repo_slug = scoped_slug args;
    unread_only = bool_param args (codes "unread_only");
  }

  unfoldable pub list_messages : Arguments → Result ToolError Text
  unfolding int_param string_param bool_param search_messages render_messages
  list_messages args = with_context (search_and_render args (list_query args))

  -- `searchMessages`.
  abbrev pub read_since : Text → Result ToolError (Option ℕ)
  read_since since =
      if is_nil since
      then ok none
      else elim (m.parse_since since) [ none ↦ err bad_param | some t ↦ ok (some t) ]

  abbrev pub search_query : Arguments → Option ℕ → Query
  search_query args since = record {
    from = string_param args (codes "from") [];
    subject = string_param args (codes "subject") [];
    since = since;
    text = string_param args (codes "text") [];
    repo_slug = scoped_slug args;
    unread_only = bool_param args (codes "unread_only");
  }

  abbrev pub search_for : Arguments → Query → Result ToolError Text
  search_for args q =
      if is_nil q.from && is_nil q.subject && is_nil q.text && is_none q.since
      then err bad_param
      else search_and_render args q

  unfoldable pub search_mail : Arguments → Result ToolError Text
  unfolding int_param string_param bool_param search_messages render_messages
  search_mail args = with_context (
      read_since (string_param args (codes "since") []) >>= λ since.
      search_for args (search_query args since))
