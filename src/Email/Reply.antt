-- ===== src/Email/Reply.antt =====
-- internal/email/reply.go: what a reply takes from the message that it answers, and the quote. A date
-- is given as it is printed, or as `none` where it is zero.
pub mod Quoted
use beadle.Prelude.{
  Bool, true, false, not, ◌&&◌, ◌||◌, List, [], ◌∷◌, ◌++◌, reverse, Option, none, some,
  if◌then◌else◌, is_nil, ◌==◌,
}
use beadle.Text.{Text, codes, equal, fields, member, split, trim_space}
use beadle.Email.Address.{ParseAddress, extract_email_address}

-- A `ReplyContext`.
pub record ReplyContext : Type 0 where
  pub message_id : Text
  pub references : List Text
  pub reply_to : Text
  pub from : Text
  pub subject : Text
  pub date : Option Text
  pub body : Text
  pub quotable : Bool

-- The headers that `FetchThread` reads, and the body that `ParseMIME` finds.
pub record Original : Type 0 where
  pub message_id : Text
  pub references : Text
  pub in_reply_to : Text
  pub reply_to : Text
  pub from : Text
  pub subject : Text
  pub date : Option Text
  pub body : Text

-- `buildReferences`.
abbrev pub parent_chain : Text → Text → List Text
parent_chain references in_reply_to =
    if not (is_nil (trim_space references))
    then fields references
    else if not (is_nil (trim_space in_reply_to))
    then fields in_reply_to
    else []

unfoldable pub build_references : Text → Text → Text → List Text
unfolding trim_space fields
build_references references in_reply_to message_id =
    let id = trim_space message_id in
    if is_nil id
    then parent_chain references in_reply_to
    else parent_chain references in_reply_to ++ id ∷ []

-- `extractionFailed`, of internal/email/mime.go.
unfoldable pub extraction_failed : Text → Bool
unfolding member
extraction_failed body = member body (
    codes "(parse error)"
    ∷ codes "(read error)"
    ∷ codes "(mime parse error)"
    ∷ codes "(not multipart)"
    ∷ codes "(no text body)"
    ∷ [])

-- `FetchThread`, behind fetching and parsing.
unfoldable pub thread_of : ParseAddress → Original → ReplyContext
unfolding build_references extraction_failed trim_space
thread_of parse_address o =
    let reply_to = extract_email_address parse_address o.reply_to in
    let message_id = trim_space o.message_id in
    record {
      message_id = message_id;
      references = build_references o.references o.in_reply_to message_id;
      reply_to = if is_nil reply_to then extract_email_address parse_address o.from else reply_to;
      from = trim_space o.from;
      subject = o.subject;
      date = o.date;
      body = if extraction_failed o.body then [] else o.body;
      quotable = not (extraction_failed o.body);
    }

-- `attributionLine`.
unfoldable pub attribution_line : Text → Option Text → Text
attribution_line from none =
    if is_nil from then codes "Quoting the original message:" else from ++ codes " wrote:"
attribution_line from (some date) =
    codes "On "
    ++ (date
        ++ (codes ", "
            ++ (if is_nil from
                then codes "the original message read:"
                else from ++ codes " wrote:")))

-- `strings.ReplaceAll(s, "\r\n", "\n")`.
unfoldable pub unix_lines : Text → Text
unix_lines [] = []
unix_lines (c ∷ []) = c ∷ []
unix_lines (c ∷ d ∷ s) =
    let joined = unix_lines s in
    let rest = unix_lines (d ∷ s) in if c == b'\r' && d == b'\n' then b'\n' ∷ joined else c ∷ rest

-- `strings.TrimRight(s, "\n")`.
unfoldable pub drop_newlines : Text → Text
drop_newlines [] = []
drop_newlines (c ∷ s) = let rest = drop_newlines s in if c == b'\n' then rest else c ∷ s

unfoldable pub trim_newlines : Text → Text
unfolding drop_newlines
trim_newlines s = reverse (drop_newlines (reverse s))

-- The loop of `QuoteBody`.
abbrev pub quote_line : Text → Text
quote_line line = if is_nil line then codes ">" else codes "> " ++ line

unfoldable pub quote_lines : List Text → Text
quote_lines [] = []
quote_lines (line ∷ lines) = quote_line line ++ (codes "\n" ++ quote_lines lines)

-- The original as it is quoted.
unfoldable pub quoted_text : Text → Text
unfolding unix_lines trim_newlines
quoted_text original = trim_newlines (unix_lines original)

unfoldable pub quote : Text → Text
unfolding quoted_text quote_lines split
quote original =
    let body = quoted_text original in if is_nil body then [] else quote_lines (split b'\n' body)

-- `QuoteBody`.
unfoldable pub quote_body : Text → Text → Option Text → Text → Text
unfolding attribution_line quote
quote_body new_text from date original =
    new_text ++ (codes "\n\n" ++ (attribution_line from date ++ (codes "\n" ++ quote original)))
