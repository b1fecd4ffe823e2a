-- ===== src/Mcp/Reading/Whole.antt =====
-- internal/mcp/tools.go: the tools that show one message, its signature, trust and parts, and the one
-- that saves an attachment.
use beadle.Prelude.{
  ℕ, Bool, true, false, ◌&&◌, List, [], ◌∷◌, ◌++◌, reverse, Option, none, some, Result, ok, err,
  ◌>>=◌, if◌then◌else◌, is_nil, length, take, ltb, ◌||◌,
}
use beadle.Prelude.Int.{ℤ, pos, negsuc}
use beadle.Utf8.{Bytes}
use beadle.Text.{Text, CaseTables, codes, equal}
use beadle.Text.Decimal.{decimal}
use beadle.Text.Path.{base, drop_slashes}
use beadle.Contacts.Permission.{print}
use beadle.Email.Trust.{TrustLevel, unverified, has_pgp_signature}
use beadle.Mcp.Params.{
  Arguments, ToolError, bad_param, missing_param, verify_failed, parse_failed, server_failed,
  not_written, no_context, not_connected, string_param, int_param, message_uid,
}
use beadle.Mcp.Format.{
  Message, MimePart, format_message, format_verify_result, format_trust_result_with_perm,
  format_mime, format_download_result,
}
use beadle.Mcp.Reading.{
  Mail, sender_permission, may_read, refusal, with_context, with_client, verified_level,
  non_negative,
}

abbrev pub is_unverified : TrustLevel → Bool
is_unverified unverified = true
is_unverified l = false

abbrev pub fetched_one : {A : Type 0} → Option A → Result ToolError A
fetched_one none = err server_failed
fetched_one (some a) = ok a

-- The body as far as `max_body_length` goes; 0 is no limit.
abbrev pub cut_body : Text → ℕ → Text
cut_body body max_body =
    if ltb 0 max_body && ltb max_body (length body)
    then take max_body body
      ++ (codes "\n[truncated "
          ++ (0x2014 ∷ codes " " ++ (decimal (length body) ++ codes " chars total]")))
    else body

abbrev pub truncated : ℤ → Text → Text
truncated (pos n) body = cut_body body n
truncated (negsuc n) body = body

-- `downloadAttachment`: the file's name, of the attachment's and the message's id.
unfoldable pub attachment_name : Text → ℕ → Text
unfolding base equal
attachment_name filename part_index =
    let name = base filename in
    if is_nil name || equal name (codes ".") then codes "part_" ++ decimal part_index else name

-- `filepath.Join`, of a clean directory and a name in which a slash is at most the last rune.
abbrev pub in_dir : Text → Text → Text
in_dir dir name = dir ++ (codes "/" ++ reverse (drop_slashes (reverse name)))

module _ ⦃u : CaseTables⦄ (m : Mail) where
  -- `readMessage`, for the message that was fetched.
  abbrev pub checked_level : Text → ℕ → Message → TrustLevel
  checked_level folder uid msg =
      if is_unverified msg.trust_level && has_pgp_signature m.media_type msg.raw_content_type []
      then verified_level m msg.trust_level (m.fetch_raw folder uid)
      else msg.trust_level

  unfoldable pub show_message : Text → ℕ → ℤ → Message → Result ToolError Text
  unfolding sender_permission
  show_message folder uid max_body msg =
      if may_read m msg.from
      then ok (
          format_message (record msg {
            trust_level = checked_level folder uid msg;
            body = truncated max_body msg.body;
          }))
      else err (refusal m msg.from)

  -- `readMessage`; `id` is the required `message_id`.
  abbrev pub read_fetched : Arguments → ℕ → ℤ → Result ToolError Text
  read_fetched args uid max_body =
      let folder = string_param args (codes "folder") (codes "INBOX") in
      with_client m (fetched_one (m.fetch_message folder uid) >>= show_message folder uid max_body)

  abbrev pub read_one : Arguments → Option Text → Result ToolError Text
  read_one args id = message_uid id >>= λ uid.
      (int_param args (codes "max_body_length") (pos 0) >>= non_negative) >>= λ max_body.
      read_fetched args uid max_body

  unfoldable pub read_message : Arguments → Option Text → Result ToolError Text
  unfolding int_param string_param message_uid show_message
  read_message args id = with_context m (read_one args id)

  -- `verifySignature`, `showMIME` and `checkTrust`: a tool that shows something of a raw message.
  abbrev pub of_raw :
      Arguments → Option Text → (Bytes → Result ToolError Text) → Result ToolError Text
  of_raw args id show = with_context m (
      message_uid id >>= λ uid.
      let folder = string_param args (codes "folder") (codes "INBOX") in
      with_client m (fetched_one (m.fetch_raw folder uid) >>= show))

  abbrev pub show_signature : Bytes → Result ToolError Text
  show_signature raw = elim (m.pgp_verify raw) [
    | none ↦ err verify_failed
    | some r ↦ ok (format_verify_result r)
  ]

  unfoldable pub verify_signature : Arguments → Option Text → Result ToolError Text
  unfolding string_param message_uid
  verify_signature args id = of_raw args id show_signature

  abbrev pub show_parts : Bytes → Result ToolError Text
  show_parts raw = elim (m.mime_parts raw) [
    | none ↦ err parse_failed
    | some parts ↦ ok (format_mime parts)
  ]

  unfoldable pub show_mime : Arguments → Option Text → Result ToolError Text
  unfolding string_param message_uid
  show_mime args id = of_raw args id show_parts

  abbrev pub show_trust : Bytes → Result ToolError Text
  show_trust raw = ok (
      format_trust_result_with_perm (m.classify raw)
        (print (sender_permission m (m.headers_from raw)).0))

  unfoldable pub check_trust : Arguments → Option Text → Result ToolError Text
  unfolding string_param message_uid sender_permission
  check_trust args id = of_raw args id show_trust

  -- What is written, with the path, and the result.
  abbrev pub Download : Type 0
  Download = Result ToolError Text × List (Text × Bytes)

  abbrev pub save_part : Text → Text → ℕ → MimePart × Bytes → Download
  save_part dir id part_index (part, bytes) =
      let name = attachment_name part.filename part_index in
      let path = in_dir dir (id ++ (codes "_" ++ name)) in
      if m.writes path bytes
      then (ok (format_download_result (codes "saved") name part.size path), (path, bytes) ∷ [])
      else (err not_written, (path, bytes) ∷ [])

  -- `none` is a directory that cannot be found or made.
  abbrev pub save_in : Text → ℕ → MimePart × Bytes → Option Text → Download
  save_in id part_index p none = (err not_written, [])
  save_in id part_index p (some dir) = save_part dir id part_index p

  abbrev pub save_extracted : Text → ℕ → Option (MimePart × Bytes) → Download
  save_extracted id part_index none = (err parse_failed, [])
  save_extracted id part_index (some p) = save_in id part_index p m.attachment_dir

  unfoldable pub save_attachment : Text → ℕ → Option Bytes → Download
  unfolding sender_permission attachment_name
  save_attachment id part_index none = (err server_failed, [])
  save_attachment id part_index (some raw) =
      if may_read m (m.headers_from raw)
      then save_extracted id part_index (m.extract_part raw part_index)
      else (err (refusal m (m.headers_from raw)), [])

  abbrev pub download_part : Arguments → Text → ℤ → Result ToolError ℕ → Download
  download_part args id (negsuc n) uid = (err bad_param, [])
  download_part args id (pos part_index) (err e) = (err e, [])
  download_part args id (pos part_index) (ok uid) =
      if m.connects
      then save_attachment id part_index
          (m.fetch_raw (string_param args (codes "folder") (codes "INBOX")) uid)
      else (err not_connected, [])

  abbrev pub with_index : Arguments → Option Text → Result ToolError ℤ → Download
  with_index args none index = (err missing_param, [])
  with_index args (some id) (err e) = (err e, [])
  with_index args (some id) (ok index) = download_part args id index (message_uid (some id))

  unfoldable pub download_attachment : Arguments → Option Text → Download
  unfolding int_param string_param message_uid save_attachment
  download_attachment args id =
      if m.has_context
      then with_index args id (int_param args (codes "part_index") (negsuc 0))
      else (err no_context, [])
