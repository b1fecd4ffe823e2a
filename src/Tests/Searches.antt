-- ===== src/Tests/Searches.antt =====
-- Searches of a folder whose server refuses those for a repository, and the theorems at them.
use beadle.Prelude.{
  ℕ, ◌≡◌, refl, List, [], ◌∷◌, true, false, some, none, ok, if◌then◌else◌, is_nil, arith,
}
use beadle.Prelude.Int.{pos}
use beadle.Text.{codes}
use beadle.Email.Search.{Server, NumSet, uids, recent, scope, search_messages, dedup_uids}
use beadle.Email.Search.Pages.{pages, pages_all}
use beadle.Email.Search.Unread.{IsUnreadList, search_messages-IsUnreadList}

abbrev found_uids : List ℕ
found_uids = 3 ∷ 5 ∷ 8 ∷ 9 ∷ 12 ∷ []

abbrev fetch_uids : NumSet → List ℕ
fetch_uids (uids us) = us
fetch_uids (recent a b) = a ∷ b ∷ []

abbrev server : Server ℕ
server = record {
  num_messages = some 9;
  uid_search = λ c. if is_nil c.either then some found_uids else none;
  unseen = some 5;
  fetch = λ set. some (fetch_uids set);
}

-- The search without the repository answers, and gives the newest page but one.
retried :
    search_messages server (scope (codes "a/b") true) (pos 2) (pos 2)
    ≡ ok (record { messages = 5 ∷ 8 ∷ []; total = 5; degraded_reason = [] })
unfolding search_messages
retried = refl

-- Mail that need not be unread is replaced by recent mail, with a notice.
floored :
    search_messages server (scope (codes "a/b") false) (pos 2) (pos 2)
    ≡ ok (record {
      messages = 8 ∷ 9 ∷ [];
      total = 9;
      degraded_reason = codes "search unavailable; showing recent mail instead";
    })
unfolding search_messages
floored = refl

deduped : dedup_uids (3 ∷ 5 ∷ 3 ∷ 5 ∷ 7 ∷ []) ≡ 3 ∷ 5 ∷ 7 ∷ []
unfolding dedup_uids
deduped = refl

search_messages-IsUnreadList_example :
    IsUnreadList server (search_messages server (scope (codes "a/b") true) (pos 2) (pos 2))
search_messages-IsUnreadList_example =
    search_messages-IsUnreadList server (scope (codes "a/b") true) (pos 2) (pos 2) refl

pages_all_example : pages found_uids 2 3 ≡ found_uids
pages_all_example = pages_all found_uids 2 3 (omega arith)
