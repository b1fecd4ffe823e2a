-- ===== src/Mcp/Replying/Threaded.antt =====
-- To whom a reply goes, and in which thread it stands (internal/mcp/tools.go, `replyMessage`).
use beadle.Prelude.{
  ℕ, ◌≡◌, ◌⊎◌, inl, inr, refl, ap, Bool, true, false, List, [], ◌∷◌, ◌++◌, Option, none, some,
  Result, ok, err, >>=-eq-ok, ok-injective, is_nil, All, Bool-cases, Result-cases,
}
use beadle.Text.{Text, CaseTables}
use beadle.Contacts.Book.{Contact, PathMatch}
use beadle.Email.Address.{ParseAddress}
use beadle.Email.RepoTag.{RepoTag, reply_subject}
use beadle.Email.Chain.{Attachment}
use beadle.Email.Reply.{ReplyContext, Original, thread_of}
use beadle.Mcp.Params.{ToolError, message_uid}
use beadle.Mcp.Recipients.{Outgoing, SendError, check_recipients, check_refused, split_addresses}
use beadle.Mcp.Recipients.Allowed.{IsWritable, AreKeys, IsSendable, check_recipients-IsSent}
use beadle.Mcp.Replying.{
  ReplyError, Call, Reply, checked, reply_thread, reply_message, uid_of, fetched, reply_checked,
}
use beadle.Mcp.Replying.Behind.{
  IsAnswerAddress, IsBehind, thread_of-IsAnswerAddress, thread_of-subject, threading_of-IsBehind,
}

module _ ⦃u : CaseTables⦄ (path_match : PathMatch) (parse_address : ParseAddress)
    (contacts : List Contact) (identity : Text) (tag : RepoTag) where
  -- A reply to this message that may be sent.
  pub record IsReply (o : Original) (r : Reply) : Type 0 where
    pub address : Text
    pub from_header : IsAnswerAddress parse_address o address
    pub known : is_nil address ≡ false
    pub answered : r.mail.to ≡ address ∷ []
    pub all_writable :
        All
          (IsWritable path_match parse_address contacts identity)
          (r.mail.to ++ (r.mail.cc ++ r.mail.bcc))
    pub encrypted :
        (r.mail.recipient_keys ≡ [])
        ⊎ AreKeys path_match parse_address contacts
            (r.mail.to ++ (r.mail.cc ++ r.mail.bcc))
            r.mail.recipient_keys
    pub titled : r.mail.subject_line ≡ reply_subject o.subject tag
    pub threaded : IsBehind o r.mail

  check_refused-to :
      (refused to copies bcc : List Text) (o : Outgoing)
      → check_refused path_match parse_address contacts refused to copies bcc ≡ ok o
      → o.to ≡ to
  check_refused-to [] to copies bcc o h = rw⁻¹ (ok-injective h) refl
  check_refused-to (t ∷ ts) to copies bcc o h = cc

  check_recipients-to :
      (to copies bcc : List Text) (o : Outgoing)
      → check_recipients path_match parse_address contacts identity to copies bcc ≡ ok o
      → o.to ≡ to
  unfolding check_recipients
  check_recipients-to to copies bcc o h = elim (Bool-cases (is_nil to)) [
    | inl empty ↦ cc (rw empty at h)
    | inr full ↦ check_refused-to _ to copies bcc o (rw full at h)
  ]

  checked-ok :
      (r : Result SendError Outgoing) (o : Outgoing)
      → checked path_match parse_address contacts identity tag r ≡ ok o
      → r ≡ ok o
  checked-ok (err e) o h = cc
  checked-ok (ok p) o h = ap ok (ok-injective h)

  fetched-ok :
      (connects : Bool) (found : Option Original) (rc : ReplyContext)
      → fetched path_match parse_address contacts identity tag connects found ≡ ok rc
      → (o : Original) × (found ≡ some o) × (rc ≡ thread_of parse_address o)
  fetched-ok false found rc h = cc
  fetched-ok true none rc h = cc
  fetched-ok true (some o) rc h = (o, refl, rw⁻¹ (ok-injective h) refl)

  uid_of-ok :
      (r : Result ToolError ℕ) (uid : ℕ)
      → uid_of path_match parse_address contacts identity tag r ≡ ok uid
      → r ≡ ok uid
  uid_of-ok (err e) uid h = cc
  uid_of-ok (ok n) uid h = ap ok (ok-injective h)

  reply_thread-IsReply :
      (orig : Original) (text html : Text) (files : List Attachment) (copies bcc : List Text)
      (r : Reply)
      → reply_thread path_match parse_address contacts identity tag
          (thread_of parse_address orig)
          text
          html
          files
          copies
          bcc
        ≡ ok r
      → IsReply orig r
  unfolding reply_thread
  reply_thread-IsReply orig text html files copies bcc r h =
      let rc = thread_of parse_address orig in
      elim (Bool-cases (is_nil rc.reply_to)) [
        | inl nobody ↦ cc (rw nobody at h)
        | inr somebody ↦
            let to = rc.reply_to ∷ [] in
            let sent = check_recipients path_match parse_address contacts identity to copies bcc in
            let (o, c, e) =
              >>=-eq-ok (checked path_match parse_address contacts identity tag sent) _
                (rw somebody at h) in
            let f = checked-ok sent o c in
            let sendable : IsSendable path_match parse_address contacts identity o =
              rw f at (
                check_recipients-IsSent path_match parse_address contacts identity to copies bcc) in
            rw⁻¹ (ok-injective e) (record {
              address = rc.reply_to;
              from_header = thread_of-IsAnswerAddress parse_address orig;
              known = somebody;
              answered = check_recipients-to to copies bcc o f;
              all_writable = sendable.all_writable;
              encrypted = sendable.encrypted;
              titled = ap (λ s. reply_subject s tag) (thread_of-subject parse_address orig);
              threaded = threading_of-IsBehind parse_address orig _ refl;
            })
      ]

  -- A reply, to the message that was asked for.
  abbrev pub IsAnswer : (ℕ → Option Original) → Result ToolError ℕ → Reply → Type 0
  IsAnswer fetch id r =
      (uid : ℕ) × (o : Original) × (id ≡ ok uid) × (fetch uid ≡ some o) × IsReply o r

  reply_checked-IsAnswer :
      (connects : Bool) (fetch : ℕ → Option Original) (html : Text) (id : Result ToolError ℕ)
      (uid : Result ReplyError ℕ) (text copies bcc : Result ReplyError Text)
      (files : Result ReplyError (List Attachment)) (r : Reply)
      → uid_of path_match parse_address contacts identity tag id ≡ uid
      → reply_checked path_match parse_address contacts identity tag connects fetch html uid text
          copies bcc files
        ≡ ok r
      → IsAnswer fetch id r
  reply_checked-IsAnswer connects fetch html id (err e) text c b f r i h = cc
  reply_checked-IsAnswer connects fetch html id (ok u) (err e) c b f r i h = cc
  reply_checked-IsAnswer connects fetch html id (ok u) (ok t) (err e) b f r i h = cc
  reply_checked-IsAnswer connects fetch html id (ok u) (ok t) (ok c) (err e) f r i h = cc
  reply_checked-IsAnswer connects fetch html id (ok u) (ok t) (ok c) (ok b) (err e) r i h = cc
  reply_checked-IsAnswer connects fetch html id (ok uid) (ok t) (ok c) (ok b) (ok f) r i h =
      elim (Result-cases
        (fetched path_match parse_address contacts identity tag connects (fetch uid))) [
          | inl (e, g) ↦ cc (rw g at h)
          | inr (rc, g) ↦
              let (o, k, same) = fetched-ok connects (fetch uid) rc g in
              (
                uid,
                o,
                uid_of-ok id uid i,
                k,
                reply_thread-IsReply o t html f (split_addresses c) (split_addresses b) r
                    (rw same at (rw g at h)),
              )
        ]

  -- What `reply_message` makes, whatever the server and the call are: it answers the message that the
  -- call names; it goes to the address of the original's Reply-To, or of its sender where that gives
  -- none, and to others; all of them are contacts with the write permission; it is encrypted to
  -- nobody or to all of them; its subject is that of the original behind "Re:", with the repository's
  -- tag; and where the original has an id, it answers that id, which stands in the references behind
  -- those of the original, or behind the original's In-Reply-To where it has none.
  pub reply_message-IsReply :
      (connects : Bool) (fetch : ℕ → Option Original) (call : Call) (r : Reply)
      → reply_message path_match parse_address contacts identity tag connects fetch call ≡ ok r
      → IsAnswer fetch (message_uid call.message_id) r
  unfolding reply_message
  reply_message-IsReply connects fetch call r h =
      reply_checked-IsAnswer connects fetch call.html (message_uid call.message_id) _ _ _ _ _ r refl
        h
