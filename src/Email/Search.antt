-- ===== src/Email/Search.antt =====
-- internal/email/imap.go: which messages of a folder a listing or a search fetches, and what it says
-- of them. The IMAP server is the record `Server`.
pub mod Pages
pub mod Unread
use beadle.Prelude.{
  ℕ, zero, suc, ◌+◌, ◌-◌, Bool, true, false, not, ◌&&◌, ◌||◌, List, [], ◌∷◌, ◌++◌, Option, none,
  some, Result, ok, err, if◌then◌else◌, any, is_nil, length, take, ltb, leb, ◌==◌,
}
use beadle.Prelude.Int.{ℤ, pos, negsuc}
use beadle.Text.{Text, codes}
use beadle.Text.Decimal.{decimal}

-- A `SearchQuery`; its time is `none` where it is zero.
pub record Query : Type 0 where
  pub from : Text
  pub subject : Text
  pub since : Option ℕ
  pub text : Text
  pub repo_slug : Text
  pub unread_only : Bool

-- What the code sets of an `imap.SearchCriteria`; an arm of its `Or` is one header field.
pub record Criteria : Type 0 where
  pub not_seen : Bool
  pub either : List ((Text × Text) × (Text × Text))
  pub header : List (Text × Text)
  pub sent_since : Option ℕ
  pub text : List Text

abbrev pub no_criteria : Criteria
no_criteria = record { not_seen = false; either = []; header = []; sent_since = none; text = [] }

-- `searchCriteria`.
abbrev is_zero_time : Option ℕ → Bool
is_zero_time none = true
is_zero_time (some t) = false

abbrev field_if : Text → Text → List (Text × Text)
field_if name value = if is_nil value then [] else (name, value) ∷ []

unfoldable pub is_empty_query : Query → Bool
is_empty_query q =
    is_nil q.repo_slug
    && not q.unread_only
    && is_nil q.from
    && is_nil q.subject
    && is_zero_time q.since
    && is_nil q.text

abbrev pub criteria_of : Query → Criteria
criteria_of q = record {
  not_seen = q.unread_only;
  either =
      if is_nil q.repo_slug
      then []
      else (
        (codes "X-Beadle-Repo", q.repo_slug),
        (codes "Subject", codes "[" ++ (q.repo_slug ++ codes "]")),
      )
        ∷ [];
  header = field_if (codes "From") q.from ++ field_if (codes "Subject") q.subject;
  sent_since = q.since;
  text = if is_nil q.text then [] else q.text ∷ [];
}

unfoldable pub search_criteria : Query → Option Criteria
unfolding is_empty_query
search_criteria q = if is_empty_query q then none else some (criteria_of q)

-- A set of messages by their UIDs, or by a range of sequence numbers, both ends included.
pub data NumSet : Type 0 where
  uids : List ℕ → NumSet
  recent : ℕ → ℕ → NumSet

-- `clampCount`.
abbrev pub clamp_count : ℕ → ℕ → ℕ
clamp_count count num_messages = if ltb num_messages count then num_messages else count

-- `recencySet`.
abbrev pub max_int32 : ℕ
max_int32 = 0x7fffffff

abbrev pub range_start : ℕ → ℕ → ℕ
range_start num_messages width = if ltb width num_messages then num_messages - width + 1 else 1

unfoldable pub recency_set : ℕ → ℕ → NumSet
recency_set num_messages count =
    recent (range_start num_messages (if ltb max_int32 count then max_int32 else count))
      num_messages

-- `xs[start:end]`.
unfoldable pub slice : ℕ → ℕ → List ℕ → List ℕ
slice start zero xs = []
slice start (suc end) [] = []
slice zero (suc end) (x ∷ xs) = x ∷ slice zero end xs
slice (suc start) (suc end) (x ∷ xs) = slice start end xs

-- `window`. A start below zero is moved to zero, where the subtraction stops.
unfoldable pub window : List ℕ → ℕ → ℕ → List ℕ
unfolding slice
window all count offset =
    let end = length all - offset in
    if leb (length all) offset || count == 0 then [] else slice (end - count) end all

-- `selectUIDs`: the page, or `none` where it is empty, and the number of all matches.
unfoldable pub select_uids : List ℕ → ℕ → ℕ → Option NumSet × ℕ
unfolding window
select_uids all count offset =
    let page = window all count offset in
    (if is_nil page then none else some (uids page), length all)

-- What the server answers to SELECT, SEARCH, STATUS and FETCH.
pub record Server (Summary : Type 0) : Type 0 where
  pub num_messages : Option ℕ
  pub uid_search : Criteria → Option (List ℕ)
  pub unseen : Option ℕ
  pub fetch : NumSet → Option (List Summary)

pub data SearchError : Type 0 where
  negative_offset not_selected search_failed fetch_failed no_status : SearchError

-- A set to fetch, the number of matches, and the reason why it does not answer the query, or "".
abbrev pub Found : Type 0
Found = Option NumSet × ℕ × Text

abbrev pub degraded_listing : Text
degraded_listing = codes "search unavailable; showing recent mail instead"

abbrev pub found : Option NumSet × ℕ → Found
found (set, total) = (set, total, [])

module _ {Summary : Type 0} (s : Server Summary) (num_messages : ℕ) (q : Query)
    (count offset : ℕ) where
  -- `searchFallback`.
  abbrev pub after_retry : Option (List ℕ) → Result SearchError Found
  after_retry none = err search_failed
  after_retry (some all) = ok (found (select_uids all count offset))

  abbrev pub retry : Option Criteria → Result SearchError Found
  retry none = err search_failed
  retry (some c) = after_retry (s.uid_search c)

  unfoldable pub search_fallback : Result SearchError Found
  unfolding search_criteria select_uids recency_set
  search_fallback =
      if q.unread_only
      then (if is_nil q.repo_slug
          then err search_failed
          else retry (search_criteria (record q { repo_slug = [] })))
      else ok (
        some (recency_set num_messages (clamp_count count num_messages)),
        num_messages,
        degraded_listing,
      )

  -- `listSet`.
  abbrev pub after_search : Option (List ℕ) → Result SearchError Found
  after_search none = search_fallback
  after_search (some all) = ok (found (select_uids all count offset))

  abbrev pub with_criteria : Option Criteria → Result SearchError Found
  with_criteria none =
      if offset == 0
      then ok (some (recency_set num_messages (clamp_count count num_messages)), num_messages, [])
      else after_search (s.uid_search no_criteria)
  with_criteria (some c) = after_search (s.uid_search c)

  unfoldable pub list_set : Result SearchError Found
  unfolding search_fallback
  list_set = with_criteria (search_criteria q)

-- A `ListResult`.
pub record ListResult (Summary : Type 0) : Type 0 where
  pub messages : List Summary
  pub total : ℕ
  pub degraded_reason : Text

module _ {Summary : Type 0} (s : Server Summary) (q : Query) where
  -- `SearchMessages`.
  abbrev pub fetched : ℕ → Text → Option (List Summary) → Result SearchError (ListResult Summary)
  fetched total reason none = err fetch_failed
  fetched total reason (some ms) =
      ok (record { messages = ms; total = total; degraded_reason = reason })

  abbrev pub fetch_set : Result SearchError Found → Result SearchError (ListResult Summary)
  fetch_set (err e) = err e
  fetch_set (ok (none, total, reason)) =
      ok (record { messages = []; total = total; degraded_reason = reason })
  fetch_set (ok (some set, total, reason)) = fetched total reason (s.fetch set)

  abbrev pub search_page : ℕ → ℤ → ℕ → Result SearchError (ListResult Summary)
  search_page num_messages (negsuc n) offset =
      ok (record { messages = []; total = 0; degraded_reason = [] })
  search_page num_messages (pos count) offset =
      if num_messages == 0 || count == 0
      then ok (record { messages = []; total = 0; degraded_reason = [] })
      else fetch_set (list_set s num_messages q count offset)

  abbrev pub search_selected : Option ℕ → ℤ → ℕ → Result SearchError (ListResult Summary)
  search_selected none count offset = err not_selected
  search_selected (some num_messages) count offset = search_page num_messages count offset

  unfoldable pub search_messages : ℤ → ℤ → Result SearchError (ListResult Summary)
  unfolding list_set
  search_messages count (negsuc n) = err negative_offset
  search_messages count (pos offset) = search_selected s.num_messages count offset

abbrev pub scope : Text → Bool → Query
scope slug unread = record {
  from = [];
  subject = [];
  since = none;
  text = [];
  repo_slug = slug;
  unread_only = unread;
}

module _ {Summary : Type 0} (s : Server Summary) where
  -- `ListMessages`.
  unfoldable pub list_messages : ℤ → Bool → Text → Result SearchError (ListResult Summary)
  unfolding search_messages
  list_messages count unread slug = search_messages s (scope slug unread) count (pos 0)

  -- `Status` and `UnreadCount`.
  abbrev pub status : Result SearchError ℕ
  status = elim s.unseen [ none ↦ err no_status | some n ↦ ok n ]

  abbrev pub count_found : Option (List ℕ) → Result SearchError ℕ
  count_found none = status
  count_found (some all) = ok (if ltb max_int32 (length all) then max_int32 else length all)

  abbrev pub count_selected : Criteria → Option ℕ → Result SearchError ℕ
  count_selected c none = err not_selected
  count_selected c (some n) = count_found (s.uid_search c)

  unfoldable pub unread_count : Text → Result SearchError ℕ
  unread_count slug =
      if is_nil slug then status else count_selected (criteria_of (scope slug true)) s.num_messages

-- `StatusLine`.
unfoldable pub status_line : {Summary : Type 0} → ListResult Summary → Text
status_line r =
    if is_nil r.messages && ltb 0 r.total
    then codes "showing 0 of "
      ++ (decimal r.total
          ++ (codes " messages (page past end " ++ 0x2014 ∷ codes " reduce offset)"))
    else codes "showing "
      ++ (decimal (length r.messages) ++ (codes " of " ++ (decimal r.total ++ codes " messages")))

-- `DedupUIDs`.
unfoldable pub dedup_from : List ℕ → List ℕ → List ℕ
dedup_from seen [] = []
dedup_from seen (u ∷ us) =
    let skipped = dedup_from seen us in
    let taken = dedup_from (u ∷ seen) us in if any (λ v. v == u) seen then skipped else u ∷ taken

unfoldable pub dedup_uids : List ℕ → List ℕ
unfolding dedup_from
dedup_uids us = dedup_from [] us
