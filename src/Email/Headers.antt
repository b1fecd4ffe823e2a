-- ===== src/Email/Headers.antt =====
-- The headers that tie a message to its thread (internal/email/compose.go) and to its repository
-- (internal/email/repotag.go), as a map for the Resend API and as lines for a raw message.
pub mod Lines
use beadle.Prelude.{
  Bool, true, false, ◌&&◌, ◌||◌, List, [], ◌∷◌, ◌++◌, Result, ok, err, if◌then◌else◌, is_nil,
}
use beadle.Text.{Text, codes, contains_any, join}
use beadle.Email.RepoTag.{RepoTag}

pub record Threading : Type 0 where
  pub in_reply_to : Text
  pub references : List Text

pub data HeaderError : Type 0 where
  has_line_break : HeaderError

-- A map of headers, its keys distinct.
abbrev pub Headers : Type 0
Headers = List (Text × Text)

-- One line of a raw message: the format "%s: %s\r\n".
abbrev pub header_line : Text → Text → Text
header_line key value = key ++ (codes ": " ++ (value ++ codes "\r\n"))

-- An entry, or a line, that is left out where the value is empty.
abbrev pub entry_if : Text → Text → Headers
entry_if key value = if is_nil value then [] else (key, value) ∷ []

abbrev pub line_if : Text → Text → Text
line_if key value = if is_nil value then [] else header_line key value

abbrev pub breaks_line : Text → Bool
breaks_line s = contains_any s (codes "\r\n")

abbrev pub refs : Threading → Text
refs t = join (codes " ") t.references

-- `Threading.writeHeaders`: what it appends.
unfoldable pub write_threading : Threading → Result HeaderError Text
write_threading t =
    if is_nil t.in_reply_to && is_nil t.references
    then ok []
    else if breaks_line t.in_reply_to || breaks_line (refs t)
    then err has_line_break
    else ok (line_if (codes "In-Reply-To") t.in_reply_to ++ line_if (codes "References") (refs t))

-- `Threading.headers`.
unfoldable pub threading_headers : Threading → Result HeaderError Headers
threading_headers t =
    if is_nil t.in_reply_to && is_nil t.references
    then ok []
    else if breaks_line t.in_reply_to || breaks_line (refs t)
    then err has_line_break
    else ok (entry_if (codes "In-Reply-To") t.in_reply_to ++ entry_if (codes "References") (refs t))

-- `RepoTag.writeHeaders`: what it appends.
unfoldable pub write_tag : RepoTag → Result HeaderError Text
write_tag t =
    if is_nil t.slug
    then ok []
    else if breaks_line t.slug || breaks_line t.agent
    then err has_line_break
    else ok (header_line (codes "X-Beadle-Repo") t.slug ++ line_if (codes "X-Beadle-Agent") t.agent)

-- `RepoTag.headers`.
unfoldable pub tag_headers : RepoTag → Result HeaderError Headers
tag_headers t =
    if is_nil t.slug
    then ok []
    else if breaks_line t.slug || breaks_line t.agent
    then err has_line_break
    else ok ((codes "X-Beadle-Repo", t.slug) ∷ entry_if (codes "X-Beadle-Agent") t.agent)
