-- ===== src/Tests/Readings.antt =====
-- Mail of a sender who may be read, and of one who may not.
use beadle.Prelude.{if◌then◌else◌, ◌==◌, ◌≡◌, refl, true, false, [], ◌∷◌, none, some, ok, err}
use beadle.Prelude.Int.{pos}
use beadle.Text.{Text, codes}
use beadle.Email.Trust.{unverified}
use beadle.Mcp.Messages.{Summary}
use beadle.Mcp.Params.{Arguments, whole, string, parse_uids, denied}
use beadle.Mcp.Params.Uids.{Outcome, parse_uids-Outcome}
use beadle.Mcp.Format.{Message, format_batch_mark_result}
use beadle.Mcp.Reading.{Mail}
use beadle.Mcp.Reading.Whole.{read_message, download_attachment}
use beadle.Mcp.Reading.Confined.{AreSaved, download_attachment-AreSaved}
use beadle.Tests.Data.{ascii_tables, star_match, jim, no_parser}

abbrev summary : Text → Text → Summary
summary id from = record {
  id = id;
  from = from;
  date = none;
  subject = codes "pay";
  trust_level = unverified;
  unread = true;
}

abbrev letter : Message
letter = record {
  from = codes "Jim@x.org";
  to = codes "bot@x.org";
  date = codes "today";
  subject = codes "pay";
  body = codes "hello";
  trust_level = unverified;
  encryption = [];
  attachments = [];
  raw_content_type = [];
}

-- Message 1 is from Jim, whom the bot may read, and the others from nobody it knows.
abbrev mail : Mail
mail = record {
  has_context = true;
  connects = true;
  identity_email = codes "bot@x.org";
  contacts = jim ∷ [];
  repo_slug = [];
  path_match = star_match;
  parse_address = no_parser;
  media_type = λ t. t;
  parse_since = λ t. none;
  server = λ folder. record {
    num_messages = some 2;
    uid_search = λ c. some (1 ∷ 2 ∷ []);
    unseen = some 0;
    fetch = λ set. some (
        record { summary = summary (codes "1") (codes "Jim@x.org"); has_sig = false }
        ∷ record { summary = summary (codes "2") (codes "eve@y.org"); has_sig = false }
        ∷ []);
  };
  fetch_message =
      λ folder uid. some (if uid == 1 then letter else record letter { from = codes "eve@y.org" });
  fetch_raw = λ folder uid. some (uid ∷ []);
  pgp_verify = λ raw. none;
  headers_from = λ raw. codes "Jim@x.org";
  classify = λ raw. record {
    level = unverified;
    reason = [];
    encryption = [];
    origin = [];
    has_sig = false;
  };
  mime_parts = λ raw. none;
  extract_part = λ raw i. some (
    record { index = 0; content_type = codes "text/plain"; filename = codes "../a/b"; size = 1 },
    raw,
  );
  attachment_dir = some (codes "/d");
  writes = λ path bytes. true;
}

abbrev cut_at_three : Arguments
cut_at_three = (codes "max_body_length", whole (pos 3)) ∷ []

refused : read_message mail cut_at_three (some (codes "2")) ≡ err (denied (codes "eve@y.org"))
unfolding read_message beadle.Mcp.Params.message_uid beadle.Mcp.Params.int_param
    beadle.Mcp.Params.string_param beadle.Mcp.Reading.Whole.show_message
    beadle.Mcp.Reading.sender_permission beadle.Text.lookup beadle.Text.equal
    beadle.Daemon.Handler.parse_uint32 beadle.Text.parse_digits
    beadle.Email.Address.extract_email_address beadle.Email.Address.fallback
    beadle.Contacts.Store.find_by_address beadle.Contacts.Store.find_from beadle.Text.to_lower
    beadle.Text.trim_space
refused = refl

abbrev part_three : Arguments
part_three = (codes "part_index", whole (pos 3)) ∷ []

download_attachment-AreSaved_example :
    AreSaved mail part_three (codes "7") (download_attachment mail part_three (some (codes "7"))).1
download_attachment-AreSaved_example = download_attachment-AreSaved mail part_three (codes "7")

saved : (download_attachment mail part_three (some (codes "7"))).1 ≡ (codes "/d/7_b", 7 ∷ []) ∷ []
unfolding download_attachment beadle.Mcp.Params.message_uid beadle.Mcp.Params.int_param
    beadle.Mcp.Params.string_param beadle.Mcp.Reading.Whole.save_attachment
    beadle.Mcp.Reading.Whole.attachment_name beadle.Mcp.Reading.sender_permission beadle.Text.lookup
    beadle.Text.equal beadle.Daemon.Handler.parse_uint32 beadle.Text.parse_digits
    beadle.Email.Address.extract_email_address beadle.Email.Address.fallback
    beadle.Contacts.Store.find_by_address beadle.Contacts.Store.find_from
    beadle.Contacts.Permission.check_permission beadle.Contacts.Permission.parse_permission
    beadle.Text.to_lower beadle.Text.trim_space beadle.Text.Path.base beadle.Text.Path.drop_slashes
    beadle.Text.Path.until_slash beadle.Text.byte_len
saved = refl

parsed : parse_uids (codes "3" ∷ codes "5" ∷ codes "03" ∷ []) ≡ ok (3 ∷ 5 ∷ [])
unfolding parse_uids beadle.Mcp.Params.parse_ids beadle.Daemon.Handler.parse_uint32
    beadle.Text.parse_digits beadle.Email.Search.dedup_uids
parsed = refl

parse_uids-Outcome_example :
    Outcome (codes "3" ∷ codes "0" ∷ []) (parse_uids (codes "3" ∷ codes "0" ∷ []))
parse_uids-Outcome_example = parse_uids-Outcome (codes "3" ∷ codes "0" ∷ [])

short : format_batch_mark_result 2 3 true ≡ codes "marked 2 of 3 messages read (1 not found)"
unfolding format_batch_mark_result beadle.Text.Decimal.decimal
short = refl
