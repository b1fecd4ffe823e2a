-- ===== src/Tests/Replies.antt =====
-- Runs of the repository's tag in subjects and the theorems at concrete subjects.
use beadle.Prelude.{false, All, ◌∷◌, ◌≡◌, refl, true, [], some, ok, arith}
use beadle.Text.{codes, equal, equal_fold, is_space, contains_any, join}
use beadle.Email.RepoTag.{
  RepoTag, cut_at, split_slug, next, scan, reply_prefix, bracket_tagged, subject, skip_blank,
  is_reply,
}
use beadle.Email.RepoTag.Subject.{IsSlug}
use beadle.Email.Headers.{Threading, write_threading, threading_headers, write_tag}
use beadle.Email.Headers.Lines.{IsPrinted, write_threading-IsPrinted}
use beadle.Email.Chain.{Mail, Transport, missing, try_send_chain, tagged_mail}
use beadle.Email.Chain.Signed.{IsProtected, try_send_chain-IsProtected}
use beadle.Tests.Data.{ascii_tables}

abbrev tag : RepoTag
tag = record { slug = codes "a/b"; agent = [] }

tag_split : split_slug tag.slug ≡ some (codes "a", codes "b")
unfolding split_slug cut_at is_space
tag_split = refl

tag_IsSlug : IsSlug tag.slug
tag_IsSlug = ((λ h. ground (arith, tag_split)), refl)

subject_reply : subject tag (codes "RE: Fwd : hi") ≡ codes "RE: Fwd : [a/b] hi"
unfolding subject reply_prefix scan next bracket_tagged
subject_reply = refl

subject_same_owner : subject tag (codes "Re: [A/c] hi") ≡ codes "Re: [A/c] hi"
unfolding subject reply_prefix scan next bracket_tagged split_slug cut_at is_space equal_fold equal
subject_same_owner = refl

subject_phrase : subject tag (codes "[CI/CD] hi") ≡ codes "[a/b] [CI/CD] hi"
unfolding subject reply_prefix scan next bracket_tagged split_slug cut_at is_space equal_fold equal
subject_phrase = refl

blank_reply : is_reply (codes " re: hi") ≡ true
unfolding is_reply skip_blank
blank_reply = refl

plain_hi : skip_blank (codes "hi") ≡ codes "hi"
unfolding skip_blank
plain_hi = refl

abbrev thread : Threading
thread = record { in_reply_to = codes "<b>"; references = codes "<a>" ∷ codes "<b>" ∷ [] }

thread_lines : write_threading thread ≡ ok (codes "In-Reply-To: <b>\r\nReferences: <a> <b>\r\n")
unfolding write_threading contains_any join
thread_lines = refl

tag_line : write_tag tag ≡ ok (codes "X-Beadle-Repo: a/b\r\n")
unfolding write_tag contains_any
tag_line = refl

write_threading-IsPrinted_example :
    IsPrinted (codes "In-Reply-To: <b>\r\nReferences: <a> <b>\r\n") (threading_headers thread)
write_threading-IsPrinted_example =
    write_threading-IsPrinted thread (codes "In-Reply-To: <b>\r\nReferences: <a> <b>\r\n")
      thread_lines

-- A signer is configured, and the mail server refuses the message.
abbrev refused : Transport
refused = record {
  gpg_signer = codes "bot";
  gpg_passphrase = missing;
  smtp_available = true;
  compose = λ how secret m. some m.body;
  smtp_send = λ recipients raw. false;
  resend = λ r. some (codes "id");
}

abbrev letter : Mail
letter = record {
  to = codes "jim@x.org" ∷ [];
  cc = [];
  bcc = [];
  subject_line = codes "hi";
  body = codes "hello";
  html = [];
  attachments = [];
  recipient_keys = [];
  tag = tag;
  threading = thread;
}

try_send_chain-IsProtected_example :
    All (IsProtected refused (tagged_mail letter)) (try_send_chain refused letter).1
try_send_chain-IsProtected_example = try_send_chain-IsProtected refused refl letter
