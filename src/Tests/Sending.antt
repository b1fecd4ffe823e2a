-- ===== src/Tests/Sending.antt =====
-- Messages to contacts who may be written to, and to one who may not.
use beadle.Prelude.{◌≡◌, refl, [], ◌∷◌, ok}
use beadle.Text.{codes, to_lower, trim_space, equal, split, join}
use beadle.Contacts.Book.{Contact, resolve_addresses, find, matches_contact}
use beadle.Mcp.Recipients.{Outgoing, denied, send_email, check_recipients}
use beadle.Mcp.Recipients.Allowed.{IsSent, send_email-IsSent}
use beadle.Tests.Data.{ascii_tables, star_match, jim, no_parser}

abbrev pub friend : Contact
friend = record jim { permissions = (codes "me@x.org", codes "rw-") ∷ []; gpg_key_id = codes "AB" }

sent :
    send_email star_match no_parser (friend ∷ []) (codes "me@x.org") (codes "boss") [] []
    ≡ ok (record {
      to = codes "Jim@x.org" ∷ [];
      cc = [];
      bcc = [];
      encrypt_keys = codes "AB" ∷ [];
      warning = [];
    })
unfolding send_email resolve_addresses find matches_contact to_lower trim_space equal split join
    beadle.Contacts.Store.find_by_address beadle.Contacts.Store.find_from
    beadle.Contacts.Permission.check_permission beadle.Contacts.Permission.parse_permission
    beadle.Email.Address.extract_email_address beadle.Text.lookup
    beadle.Contacts.Book.resolve_address beadle.Email.Address.fallback beadle.Text.byte_len
    beadle.Mcp.Recipients.encrypt_keys_for
sent = refl

send_email-IsSent_example :
    IsSent star_match no_parser
      (friend ∷ [])
      (codes "me@x.org")
      (send_email star_match no_parser (friend ∷ []) (codes "me@x.org") (codes "boss") [] [])
send_email-IsSent_example =
    send_email-IsSent star_match no_parser (friend ∷ []) (codes "me@x.org") (codes "boss") [] []
