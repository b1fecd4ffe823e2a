-- ===== src/Mcp/Format.antt =====
-- internal/mcp/format.go and `fmtKV` of table.go: what the tools print, apart from the table of
-- messages. A number is not negative, and a date is given as it is printed.
use beadle.Prelude.{
  ℕ, ◌+◌, ◌-◌, Bool, true, false, not, ◌&&◌, ◌||◌, List, [], ◌∷◌, ◌++◌, map, Option, none, some,
  if◌then◌else◌, is_nil, length, ltb, ◌==◌,
}
use beadle.Text.{Text, codes, equal, join}
use beadle.Text.Decimal.{decimal}
use beadle.Email.Address.{ParseAddress}
use beadle.Email.Trust.{TrustLevel, trusted, verified, untrusted, unverified, TrustResult}
use beadle.Email.Search.{ListResult, status_line}
use beadle.Mcp.Table.{Column, Row, larger, pad, row_prefix, format_table}
use beadle.Mcp.Messages.{Summary, format_messages}
use beadle.Mcp.Params.{mark_status}

-- `fmtKV`. A key is ASCII: its bytes are its runes.
abbrev pub key_width : List (Text × Text) → ℕ
key_width [] = 0
key_width ((k, v) ∷ pairs) = larger (length k + 1) (key_width pairs)

abbrev pub key_line : ℕ → Text × Text → Text
key_line width (k, v) = row_prefix ++ (pad (k ++ codes ":") width ++ (codes "  " ++ v))

unfoldable pub fmt_kv : List (Text × Text) → Text
unfolding join
fmt_kv pairs = join (codes "\n") (map (key_line (key_width pairs)) pairs)

pub record Attachment : Type 0 where
  pub filename : Text
  pub content_type : Text
  pub size : ℕ

-- A `channel.Message`, with the `Content-Type` of its `RawHeaders`.
pub record Message : Type 0 where
  pub from : Text
  pub to : Text
  pub date : Text
  pub subject : Text
  pub body : Text
  pub trust_level : TrustLevel
  pub encryption : Text
  pub attachments : List Attachment
  pub raw_content_type : Text

abbrev pub level_text : TrustLevel → Text
level_text trusted = codes "trusted"
level_text verified = codes "verified"
level_text untrusted = codes "untrusted"
level_text unverified = codes "unverified"

-- A pair that stands only where its condition holds.
abbrev pub pair_if : Bool → Text → Text → List (Text × Text)
pair_if b k v = if b then (k, v) ∷ [] else []

unfoldable pub attachment_lines : ℕ → List Attachment → Text
unfolding decimal
attachment_lines i [] = []
attachment_lines i (a ∷ rest) =
    codes "\n   ["
    ++ (decimal i
        ++ (codes "] "
            ++ (a.filename
                ++ (codes " ("
                    ++ (a.content_type
                        ++ (codes ", "
                            ++ (decimal a.size
                                ++ (codes " bytes)" ++ attachment_lines (i + 1) rest))))))))

-- `formatMessage`.
unfoldable pub format_message : Message → Text
unfolding fmt_kv attachment_lines decimal
format_message m =
    fmt_kv (
      (codes "From", m.from)
      ∷ (codes "To", m.to)
      ∷ (codes "Date", m.date)
      ∷ (codes "Subject", m.subject)
      ∷ (codes "Trust", level_text m.trust_level)
      ∷ (pair_if (not (is_nil m.encryption)) (codes "Crypto") m.encryption
          ++ pair_if (not (is_nil m.attachments)) (codes "Attach")
              (decimal (length m.attachments) ++ codes " file(s)")))
    ++ (attachment_lines 0 m.attachments ++ (codes "\n\n" ++ m.body))

-- `formatMessagesResult`. `SearchMessages` sets `Degraded` exactly where it gives a reason.
unfoldable pub format_messages_result : ParseAddress → ListResult Summary → Option Text
unfolding status_line format_messages
format_messages_result parse_address r =
    let body : Option Text =
      if is_nil r.messages && ltb 0 r.total
      then some (status_line r)
      else if is_nil r.messages
      then some (codes "No messages.")
      else format_messages parse_address r.messages r.total in
    elim body [
      | none ↦ none
      | some t ↦
          if is_nil r.degraded_reason then some t else some (r.degraded_reason ++ (codes "\n" ++ t))
    ]

-- `formatSendResult`, of the fields that it prints.
pub record SendResult : Type 0 where
  pub to : Text
  pub method : Text
  pub cc : Text
  pub is_encrypted : Bool
  pub is_signed : Bool

unfoldable pub format_send_result : SendResult → Text
format_send_result r =
    (codes "sent to " ++ (r.to ++ (codes " via " ++ r.method)))
    ++ ((if is_nil r.cc then [] else codes " cc:" ++ r.cc)
        ++ (if r.is_encrypted
            then codes " [encrypted+signed]"
            else if r.is_signed
            then codes " [signed]"
            else []))

-- `formatVerifyResult`.
pub record VerifyResult : Type 0 where
  pub valid : Bool
  pub key_id : Text
  pub signer : Text
  pub output : Text

abbrev pub dot : Text
dot = b' ' ∷ 0xb7 ∷ b' ' ∷ []

unfoldable pub format_verify_result : VerifyResult → Text
format_verify_result r =
    if r.valid
    then codes "verified"
      ++ ((if is_nil r.key_id then [] else dot ++ (codes "key " ++ r.key_id))
          ++ (if is_nil r.signer then [] else dot ++ r.signer))
    else codes "invalid signature" ++ (dot ++ r.output)

-- `formatTrustResult` and `formatTrustResultWithPerm`.
unfoldable pub format_trust_result : TrustResult → Text
format_trust_result r =
    level_text r.level
    ++ ((if is_nil r.encryption then [] else dot ++ r.encryption)
        ++ (if is_nil r.reason then [] else codes "\n" ++ r.reason))

unfoldable pub format_trust_result_with_perm : TrustResult → Text → Text
unfolding format_trust_result
format_trust_result_with_perm r perm = format_trust_result r ++ (dot ++ (codes "perm:" ++ perm))

-- `formatMIME`.
pub record MimePart : Type 0 where
  pub index : ℕ
  pub content_type : Text
  pub filename : Text
  pub size : ℕ

abbrev pub column : Text → ℕ → Bool → Column
column h w v = record { header = h; min_width = w; is_variable = v }

abbrev pub mime_row : MimePart → Row
mime_row p =
    decimal p.index
    ∷ p.content_type
    ∷ p.filename
    ∷ (if ltb 0 p.size then decimal p.size ++ codes " B" else [])
    ∷ []

unfoldable pub format_mime : List MimePart → Text
unfolding decimal format_table
format_mime parts =
    if is_nil parts
    then codes "No MIME parts."
    else format_table
        (column (codes "#") 1 false
          ∷ column (codes "TYPE") 10 true
          ∷ column (codes "FILE") 4 false
          ∷ column (codes "SIZE") 4 false
          ∷ [])
        (map mime_row parts)

-- `formatFolders`.
unfoldable pub format_folders : List Text → Text
unfolding format_table
format_folders folders =
    if is_nil folders
    then codes "No folders."
    else format_table (column (codes "FOLDER") 10 true ∷ []) (map (λ f. f ∷ []) folders)

-- `formatMoveResult` and `formatMarkResult`, of how many messages the server has changed.
abbrev pub not_found : Text → Text → Text
not_found id done = codes "#" ++ (id ++ (codes " not found " ++ (0x2014 ∷ codes " not " ++ done)))

unfoldable pub format_move_result : Text → Text → ℕ → Text
format_move_result id destination moved =
    if moved == 0
    then not_found id (codes "moved")
    else codes "moved #" ++ (id ++ (b' ' ∷ 0x2192 ∷ b' ' ∷ destination))

unfoldable pub format_mark_result : Text → Bool → ℕ → Text
format_mark_result id seen modified =
    if modified == 0
    then not_found id (codes "marked")
    else codes "marked #" ++ (id ++ (codes " " ++ mark_status seen))

-- `formatBatchMoveResult` and `formatBatchMarkResult`.
abbrev pub shortfall : ℕ → ℕ → Text
shortfall done requested = codes " (" ++ (decimal (requested - done) ++ codes " not found)")

unfoldable pub format_batch_move_result : ℕ → ℕ → Text → Text
unfolding decimal
format_batch_move_result moved requested destination =
    if ltb moved requested
    then codes "moved "
      ++ (decimal moved
          ++ (codes " of "
              ++ (decimal requested
                  ++ (codes " messages to " ++ (destination ++ shortfall moved requested)))))
    else codes "moved " ++ (decimal moved ++ (codes " messages to " ++ destination))

unfoldable pub format_batch_mark_result : ℕ → ℕ → Bool → Text
unfolding decimal
format_batch_mark_result modified requested seen =
    if ltb modified requested
    then codes "marked "
      ++ (decimal modified
          ++ (codes " of "
              ++ (decimal requested
                  ++ (codes " messages " ++ (mark_status seen ++ shortfall modified requested)))))
    else codes "marked " ++ (decimal modified ++ (codes " messages " ++ mark_status seen))

-- `formatDownloadResult`.
unfoldable pub format_download_result : Text → Text → ℕ → Text → Text
unfolding decimal
format_download_result status filename size path =
    status
    ++ (codes ": " ++ (filename ++ (codes " (" ++ (decimal size ++ (codes " bytes)\n" ++ path)))))

-- `formatPollStatus`, of a `PollStatus`; its time is `none` where it is zero.
pub record PollStatus : Type 0 where
  pub interval : Text
  pub active : Bool
  pub unseen : ℕ
  pub last_check : Option Text
  pub consec_fails : ℕ
  pub last_error : Text

abbrev pub pair_of : Text → Option Text → List (Text × Text)
pair_of k none = []
pair_of k (some v) = (k, v) ∷ []

unfoldable pub format_poll_status : PollStatus → Text
unfolding fmt_kv decimal equal
format_poll_status st = fmt_kv (
    (
      codes "Interval",
      if is_nil st.interval || equal st.interval (codes "n") then codes "disabled" else st.interval,
    )
    ∷ (codes "Active", if st.active then codes "yes" else codes "no")
    ∷ (codes "Unseen", decimal st.unseen)
    ∷ (pair_of (codes "Last check") st.last_check
        ++ (pair_if (ltb 0 st.consec_fails) (codes "Failures") (decimal st.consec_fails)
            ++ pair_if (not (is_nil st.last_error)) (codes "Last error") st.last_error)))
