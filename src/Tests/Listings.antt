-- ===== src/Tests/Listings.antt =====
-- The trust of a summary, and messages that are moved.
use beadle.Prelude.{◌≡◌, refl, true, false, [], ◌∷◌, some, ok, take}
use beadle.Text.{Text, codes}
use beadle.Email.Trust.{trusted}
use beadle.Email.Listing.{Mover, format_address, classify_from_headers}
use beadle.Mcp.Params.{Arguments, array, text}
use beadle.Mcp.Moving.{batch_move}
use beadle.Tests.Data.{ascii_tables}

genuine :
    classify_from_headers (codes "X-Pm-Content-Encryption: end-to-end\r\nX-Pm-Origin: internal\r\n")
    ≡ (trusted, false)
unfolding classify_from_headers beadle.Text.has_prefix beadle.Text.lower_rune
genuine = refl

-- The words that make a message trusted count wherever they stand, also in a parameter of the
-- content type, which the sender writes.
forged :
    classify_from_headers (
      codes
        "Content-Type: text/plain; a=\"x-pm-content-encryption: end-to-end x-pm-origin: internal\"\r\n")
    ≡ (trusted, false)
unfolding classify_from_headers beadle.Text.has_prefix beadle.Text.lower_rune
forged = refl

address :
    format_address (record { name = codes "Jim"; mailbox = codes "jim"; host = codes "x.org" })
    ≡ codes "Jim <jim@x.org>"
unfolding format_address
address = refl

-- The server has no message 9.
abbrev mover : Mover
mover = record {
  selects = λ folder. true;
  move = λ source uids destination. some (some (take 2 uids));
  store = λ folder uids seen. some [];
}

abbrev three : Arguments
three =
    (codes "message_ids", array (text (codes "3") ∷ text (codes "5") ∷ text (codes "9") ∷ [])) ∷ []

moved :
    batch_move true true mover three ≡ ok (codes "moved 2 of 3 messages to Archive (1 not found)")
unfolding batch_move beadle.Text.equal
moved = refl
