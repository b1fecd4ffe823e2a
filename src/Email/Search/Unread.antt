-- ===== src/Email/Search/Unread.antt =====
-- A listing of unread mail never shows read mail (internal/email/imap.go).
use mathlib.Core.Path.{subst}
use beadle.Prelude.{
  ℕ, ◌≡◌, ◌⊎◌, inl, inr, refl, sym, Bool, true, false, ◌||◌, List, [], ◌∷◌, Option, none, some,
  Result, ok, err, ap, if◌then◌else◌, is_nil, length, Bool-cases, ◌==◌, arith,
}
use beadle.Prelude.Int.{ℤ, pos, negsuc}
use beadle.Email.Search.{
  Query, Criteria, criteria_of, search_criteria, is_empty_query, uids, window, select_uids, Server,
  SearchError, search_failed, Found, found, search_fallback, list_set, after_retry, after_search,
  ListResult, fetched, fetch_set, search_selected, search_messages,
}

module _ {Summary : Type 0} (s : Server Summary) where
  -- What was found is a page of a search for unseen messages.
  pub record IsUnreadPage (count offset : ℕ) (f : Found) : Type 0 where
    pub criteria : Criteria
    pub all : List ℕ
    pub not_seen : criteria.not_seen ≡ true
    pub searched : s.uid_search criteria ≡ some all
    pub is_page : f ≡ found (select_uids all count offset)

  -- What comes of a search for unseen messages, where an error stays one.
  abbrev pub IsUnreadResult : ℕ → ℕ → Result SearchError Found → Type 0
  IsUnreadResult count offset (err e) = Unit
  IsUnreadResult count offset (ok f) = IsUnreadPage count offset f

  search_criteria-unread :
      (q : Query) → q.unread_only ≡ true → search_criteria q ≡ some (criteria_of q)
  unfolding search_criteria is_empty_query
  search_criteria-unread q h = ground arith

  module _ (q : Query) (unread : q.unread_only ≡ true) (num_messages count offset : ℕ) where
    after_retry-IsUnreadResult :
        (c : Criteria) (answer : Option (List ℕ))
        → c.not_seen ≡ true
        → s.uid_search c ≡ answer
        → IsUnreadResult count offset (after_retry s num_messages q count offset answer)
    after_retry-IsUnreadResult c none h k = tt
    after_retry-IsUnreadResult c (some all) h k = record {
      criteria = c;
      all = all;
      not_seen = h;
      searched = k;
      is_page = refl;
    }

    unscoped : Criteria
    unscoped = criteria_of (record q { repo_slug = [] })

    -- Without a repository there is no retry, and no result.
    search_fallback-eq : search_fallback s num_messages q count offset ≡ (
        if is_nil q.repo_slug
        then err search_failed
        else after_retry s num_messages q count offset (s.uid_search unscoped))
    unfolding search_fallback unscoped
    search_fallback-eq = rw unread refl

    either_way :
        (b : Bool) (r : Result SearchError Found)
        → IsUnreadResult count offset r
        → IsUnreadResult count offset (if b then err search_failed else r)
    either_way true r h = tt
    either_way false r h = h

    search_fallback-IsUnreadResult :
        IsUnreadResult count offset (search_fallback s num_messages q count offset)
    unfolding unscoped
    search_fallback-IsUnreadResult = rw search_fallback-eq (
        either_way (is_nil q.repo_slug) _
          (after_retry-IsUnreadResult unscoped (s.uid_search unscoped) unread refl))

    after_search-IsUnreadResult :
        (answer : Option (List ℕ))
        → s.uid_search (criteria_of q) ≡ answer
        → IsUnreadResult count offset (after_search s num_messages q count offset answer)
    after_search-IsUnreadResult none k = search_fallback-IsUnreadResult
    after_search-IsUnreadResult (some all) k = record {
      criteria = criteria_of q;
      all = all;
      not_seen = unread;
      searched = k;
      is_page = refl;
    }

    list_set-IsUnreadResult : IsUnreadResult count offset (list_set s num_messages q count offset)
    unfolding list_set
    list_set-IsUnreadResult =
        rw (search_criteria-unread q unread)
          (after_search-IsUnreadResult (s.uid_search (criteria_of q)) refl)

  -- The messages of a result are none, or were fetched by their UIDs, a page of what a search for
  -- unseen messages gave, whose size is the total.
  pub record IsFetchedUnread (r : ListResult Summary) : Type 0 where
    pub criteria : Criteria
    pub all : List ℕ
    pub count : ℕ
    pub offset : ℕ
    pub not_seen : criteria.not_seen ≡ true
    pub searched : s.uid_search criteria ≡ some all
    pub is_fetched :
        (r.messages ≡ []) ⊎ (s.fetch (uids (window all count offset)) ≡ some r.messages)
    pub is_total : r.total ≡ length all
    pub is_answer : r.degraded_reason ≡ []

  abbrev pub IsUnreadList : Result SearchError (ListResult Summary) → Type 0
  IsUnreadList (err e) = Unit
  IsUnreadList (ok r) = ((r.messages ≡ []) × (r.total ≡ 0)) ⊎ IsFetchedUnread r

  module _ (q : Query) (c : Criteria) (all : List ℕ) (count offset : ℕ)
      (not_seen : c.not_seen ≡ true) (searched : s.uid_search c ≡ some all) where
    fetched-IsUnreadList :
        (answer : Option (List Summary))
        → s.fetch (uids (window all count offset)) ≡ answer
        → IsUnreadList (fetched s q (length all) [] answer)
    fetched-IsUnreadList none e = tt
    fetched-IsUnreadList (some ms) e = inr (record {
      criteria = c;
      all = all;
      count = count;
      offset = offset;
      not_seen = not_seen;
      searched = searched;
      is_fetched = inr e;
      is_total = refl;
      is_answer = refl;
    })

    fetch_page-IsUnreadList :
        (page : List ℕ)
        → window all count offset ≡ page
        → IsUnreadList
            (fetch_set s q (ok (if is_nil page then none else some (uids page), length all, [])))
    fetch_page-IsUnreadList [] e = inr (record {
      criteria = c;
      all = all;
      count = count;
      offset = offset;
      not_seen = not_seen;
      searched = searched;
      is_fetched = inl refl;
      is_total = refl;
      is_answer = refl;
    })
    fetch_page-IsUnreadList (u ∷ us) e =
        fetched-IsUnreadList (s.fetch (uids (u ∷ us))) (ap (λ page. s.fetch (uids page)) e)

    fetch_found-IsUnreadList :
        IsUnreadList (fetch_set s q (ok (found (select_uids all count offset))))
    unfolding select_uids
    fetch_found-IsUnreadList = fetch_page-IsUnreadList (window all count offset) refl

  fetch_set-IsUnreadList :
      (q : Query) (count offset : ℕ) (r : Result SearchError Found)
      → IsUnreadResult count offset r
      → IsUnreadList (fetch_set s q r)
  fetch_set-IsUnreadList q count offset (err e) h = tt
  fetch_set-IsUnreadList q count offset (ok f) h =
      subst (λ g. IsUnreadList (fetch_set s q (ok g))) (sym h.is_page)
        (fetch_found-IsUnreadList q h.criteria h.all count offset h.not_seen h.searched)

  search_selected-IsUnreadList :
      (q : Query) (folder : Option ℕ) (count : ℤ) (offset : ℕ)
      → q.unread_only ≡ true
      → IsUnreadList (search_selected s q folder count offset)
  search_selected-IsUnreadList q none count offset h = tt
  search_selected-IsUnreadList q (some m) (negsuc n) offset h = inl (refl, refl)
  search_selected-IsUnreadList q (some m) (pos n) offset h = elim (Bool-cases (m == 0 || n == 0)) [
    | inl nothing ↦ rw nothing (inl (refl, refl))
    | inr asked ↦
        rw asked (fetch_set-IsUnreadList q n offset _ (list_set-IsUnreadResult q h m n offset))
  ]

  -- For a query for unread mail, whatever the server answers to it: what is returned without an error
  -- is empty with the total 0, or a page of what a search for unseen messages has given, empty or
  -- fetched by UIDs, with the number of all it gave as the total and without a notice. A search that
  -- fails never falls back to recent mail.
  pub search_messages-IsUnreadList :
      (q : Query) (count offset : ℤ)
      → q.unread_only ≡ true
      → IsUnreadList (search_messages s q count offset)
  unfolding search_messages
  search_messages-IsUnreadList q count (negsuc n) h = tt
  search_messages-IsUnreadList q count (pos n) h =
      search_selected-IsUnreadList q s.num_messages count n h
