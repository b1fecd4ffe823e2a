-- ===== src/Tests/Answers.antt =====
-- A reply with its quote, and the files that go along.
use beadle.Prelude.{◌≡◌, ◌≤◌, refl, true, false, [], ◌∷◌, none, some, ok, err}
use beadle.Text.{Text, codes, split}
use beadle.Email.RepoTag.{RepoTag}
use beadle.Email.Reply.{Original, quote, quote_body, quoted_text}
use beadle.Email.Reply.Quoted.{IsQuote, quote-IsQuote}
use beadle.Mcp.Params.{Arguments, array, text, string_slice_param}
use beadle.Mcp.Attachments.{Opened, file, read_attachments, max_attachment_size}
use beadle.Mcp.Attachments.Limits.{AreWhole, paths_of, read_attachments-ok}
use beadle.Mcp.Replying.{Call, Reply, reply_message}
use beadle.Mcp.Replying.Threaded.{IsAnswer, reply_message-IsReply}
use beadle.Mcp.Params.{message_uid}
use beadle.Tests.Data.{ascii_tables, star_match, no_parser}
use beadle.Tests.Sending.{friend}

quoted :
    quote_body (codes "Yes.") (codes "Jim") none (codes "a\r\n\r\nb\n\n")
    ≡ codes "Yes.\n\nJim wrote:\n> a\n>\n> b\n"
unfolding quote_body beadle.Email.Reply.attribution_line quote quoted_text
    beadle.Email.Reply.quote_lines beadle.Email.Reply.unix_lines beadle.Email.Reply.trim_newlines
    beadle.Email.Reply.drop_newlines split beadle.Text.cons_first
quoted = refl

has_text : beadle.Prelude.is_nil (quoted_text (codes "a\r\nb")) ≡ false
unfolding quoted_text beadle.Email.Reply.unix_lines beadle.Email.Reply.trim_newlines
    beadle.Email.Reply.drop_newlines
has_text = refl

quote-IsQuote_example :
    IsQuote (quote (codes "a\r\nb")) (split b'\n' (quoted_text (codes "a\r\nb")))
quote-IsQuote_example = quote-IsQuote (codes "a\r\nb") has_text

abbrev tag : RepoTag
tag = record { slug = []; agent = [] }

abbrev question : Original
question = record {
  message_id = codes " <2@x>";
  references = codes "<1@x>";
  in_reply_to = [];
  reply_to = [];
  from = codes "Jim@x.org";
  subject = codes "When?";
  date = none;
  body = codes "now";
}

abbrev call : Call
call = record {
  message_id = some (codes "7");
  body = some (codes "Yes.");
  html = [];
  cc = [];
  bcc = [];
  attachments = ok [];
}

abbrev answer : Reply
answer = record {
  mail = record {
    to = codes "Jim@x.org" ∷ [];
    cc = [];
    bcc = [];
    subject_line = codes "Re: When?";
    body = codes "Yes.\n\nJim@x.org wrote:\n> now\n";
    html = [];
    attachments = [];
    recipient_keys = codes "AB" ∷ [];
    tag = tag;
    threading = record {
      in_reply_to = codes "<2@x>";
      references = codes "<1@x>" ∷ codes "<2@x>" ∷ [];
    };
  };
  warnings = [];
}

answered :
    reply_message star_match no_parser
      (friend ∷ [])
      (codes "me@x.org")
      tag
      true
      (λ uid. some question)
      call
    ≡ ok answer
unfolding reply_message beadle.Email.Address.extract_email_address beadle.Email.Address.fallback
    beadle.Text.contains_any beadle.Contacts.Store.find_by_address beadle.Text.to_lower
    beadle.Contacts.Permission.check_permission beadle.Text.lookup
    beadle.Contacts.Permission.parse_permission beadle.Text.byte_len
    beadle.Mcp.Recipients.encrypt_keys_for
answered = refl

reply_message-IsReply_example :
    IsAnswer star_match no_parser
      (friend ∷ [])
      (codes "me@x.org")
      tag
      (λ uid. some question)
      (message_uid (some (codes "7")))
      answer
reply_message-IsReply_example =
    reply_message-IsReply star_match no_parser (friend ∷ []) (codes "me@x.org") tag true
      (λ uid. some question) call answer answered

abbrev arguments : Arguments
arguments = (codes "attachments", array (text (codes "/a.txt") ∷ [])) ∷ []

abbrev one_file : Text → Opened
one_file path = file 2 (some (1 ∷ 2 ∷ []))

read :
    read_attachments one_file (λ e. []) arguments
    ≡ ok (
        record {
          filename = codes "a.txt";
          content_type = codes "application/octet-stream";
          content = 1 ∷ 2 ∷ [];
        }
        ∷ [])
unfolding read_attachments beadle.Text.equal
read = refl

read_attachments-ok_example :
    AreWhole one_file
      (λ e. [])
      (paths_of one_file (λ e. []) (string_slice_param arguments (codes "attachments")))
      (record {
        filename = codes "a.txt";
        content_type = codes "application/octet-stream";
        content = 1 ∷ 2 ∷ [];
      }
        ∷ [])
    × (2 ≤ max_attachment_size)
read_attachments-ok_example = read_attachments-ok one_file (λ e. []) arguments _ read
