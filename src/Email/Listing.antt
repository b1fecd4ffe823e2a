-- ===== src/Email/Listing.antt =====
-- internal/email/imap.go: the summaries of a listing, with the trust that the fetched header lines
-- give, and the commands that move and mark messages. The header lines are those of X-Pm-Origin,
-- X-Pm-Content-Encryption and Content-Type.
use beadle.Prelude.{
  ℕ, Bool, false, not, ◌&&◌, List, [], ◌∷◌, ◌++◌, Option, none, some, if◌then◌else◌, is_nil, any,
  length,
}
use beadle.Text.{Text, CaseTables, codes, contains, equal, to_lower}
use beadle.Text.Decimal.{decimal}
use beadle.Email.Trust.{TrustLevel, trusted, unverified}

pub record Address : Type 0 where
  pub name : Text
  pub mailbox : Text
  pub host : Text

-- `formatAddress`.
unfoldable pub format_address : Address → Text
format_address a =
    let addr = a.mailbox ++ (codes "@" ++ a.host) in
    if is_nil a.name then addr else a.name ++ (codes " <" ++ (addr ++ codes ">"))

-- A message as FETCH gives it; `envelope` is none where it is missing.
pub record Envelope : Type 0 where
  pub from : List Address
  pub date : Option Text
  pub subject : Text

pub record Fetched : Type 0 where
  pub uid : ℕ
  pub envelope : Option Envelope
  pub flags : List Text
  pub header_lines : Text

pub record MessageSummary : Type 0 where
  pub id : Text
  pub from : Text
  pub date : Option Text
  pub subject : Text
  pub trust_level : TrustLevel
  pub has_sig : Bool
  pub unread : Bool

module _ ⦃u : CaseTables⦄ where
  -- `classifyFromHeaders`: the level, and whether there is a signature.
  unfoldable pub classify_from_headers : Text → TrustLevel × Bool
  unfolding to_lower contains
  classify_from_headers block =
      let lower = to_lower block in
      if contains lower (codes "x-pm-content-encryption: end-to-end")
        && contains lower (codes "x-pm-origin: internal")
      then (trusted, false)
      else (unverified, contains lower (codes "multipart/signed"))

  abbrev pub first_from : List Address → Text
  first_from [] = []
  first_from (a ∷ rest) = format_address a

  abbrev pub summarize : Fetched → Envelope → MessageSummary
  summarize f e =
      let (level, has_sig) = classify_from_headers f.header_lines in
      record {
        id = decimal f.uid;
        from = first_from e.from;
        date = e.date;
        subject = e.subject;
        trust_level = level;
        has_sig = has_sig;
        unread = not (any (equal (codes "\\Seen")) f.flags);
      }

  -- The loop of `fetchSummaries`.
  abbrev pub add_summary : Fetched → Option Envelope → List MessageSummary → List MessageSummary
  add_summary f none rest = rest
  add_summary f (some e) rest = summarize f e ∷ rest

  unfoldable pub fetch_summaries : List Fetched → List MessageSummary
  unfolding classify_from_headers format_address decimal equal
  fetch_summaries [] = []
  fetch_summaries (f ∷ fs) = add_summary f f.envelope (fetch_summaries fs)

-- What a server answers to SELECT, MOVE and STORE: the messages it says it has moved, none where it
-- names none, and the messages it has marked.
pub record Mover : Type 0 where
  pub selects : Text → Bool
  pub move : Text → List ℕ → Text → Option (Option (List ℕ))
  pub store : Text → List ℕ → Bool → Option (List ℕ)

-- `numSetLen`.
abbrev pub num_set_len : Option (List ℕ) → ℕ
num_set_len none = 0
num_set_len (some uids) = length uids

module _ (s : Mover) where
  -- `MoveMessages`; `none` is an error.
  abbrev pub moved_count : Option (Option (List ℕ)) → Option ℕ
  moved_count none = none
  moved_count (some set) = some (num_set_len set)

  unfoldable pub move_messages : Text → List ℕ → Text → Option ℕ
  move_messages source [] destination = some 0
  move_messages source (u ∷ us) destination =
      if s.selects source then moved_count (s.move source (u ∷ us) destination) else none

  -- `MoveMessage`.
  unfoldable pub move_message : Text → ℕ → Text → Option ℕ
  unfolding move_messages
  move_message source uid destination = move_messages source (uid ∷ []) destination

  -- `SetSeenBatch`.
  abbrev pub stored_count : Option (List ℕ) → Option ℕ
  stored_count none = none
  stored_count (some msgs) = some (length msgs)

  unfoldable pub set_seen_batch : Text → List ℕ → Bool → Option ℕ
  set_seen_batch folder [] seen = some 0
  set_seen_batch folder (u ∷ us) seen =
      if s.selects folder then stored_count (s.store folder (u ∷ us) seen) else none

  -- `SetSeen`.
  unfoldable pub set_seen : Text → ℕ → Bool → Option ℕ
  unfolding set_seen_batch
  set_seen folder uid seen = set_seen_batch folder (uid ∷ []) seen
