-- ===== src/Email/Poller/Marker.antt =====
-- What the callbacks of the poller (internal/email/poller.go) are told.
use beadle.Prelude.{ℕ, ◌<◌, ◌≡◌, refl, List, [], ◌∷◌, ◌++◌, arith}
use beadle.Text.{Text}
use beadle.Email.Poller.{
  Poller, new_poller, Answer, failed, counted, Notice, count, new_mail, poll, polls,
}

-- The last count that the observer was given, or the one before.
abbrev pub last_count_or : ℕ → List Notice → ℕ
last_count_or n [] = n
last_count_or n (count m ∷ ns) = last_count_or m ns
last_count_or n (new_mail m ∷ ns) = last_count_or n ns

last_count_or-append :
    (n : ℕ) (xs ys : List Notice)
    → last_count_or n (xs ++ ys) ≡ last_count_or (last_count_or n xs) ys
last_count_or-append n [] ys = refl
last_count_or-append n (count m ∷ xs) ys = last_count_or-append m xs ys
last_count_or-append n (new_mail m ∷ xs) ys = last_count_or-append n xs ys

last_count-poll :
    (now : ℕ) (a : Answer) (p : Poller)
    → last_count_or p.last_seen (poll now a p).1 ≡ (poll now a p).0.last_seen
unfolding poll
last_count-poll now (failed msg) p = refl
last_count-poll now (counted n) p = ground arith

last_count-polls_from :
    (answers : List (ℕ × Answer)) (p : Poller)
    → last_count_or p.last_seen (polls answers p).1 ≡ (polls answers p).0.last_seen
unfolding polls
last_count-polls_from [] p = refl
last_count-polls_from ((now, a) ∷ answers) p =
    rw (last_count_or-append p.last_seen (poll now a p).1)
      (rw (last_count-poll now a p) (last_count-polls_from answers (poll now a p).0))

-- However the polls of a new poller succeed and fail, the last count that the observer was given,
-- or 0 if it was given none, is the count that the poller holds, also when the count went down.
pub last_count-polls :
    (answers : List (ℕ × Answer))
    → last_count_or 0 (polls answers new_poller).1 ≡ (polls answers new_poller).0.last_seen
last_count-polls answers = last_count-polls_from answers new_poller

-- Mail that waits when the poller starts is announced as new when the first poll fails and the
-- second counts it, at the full count; without the failure it is not announced.
pub announce_after_failure :
    (t₁ t₂ : ℕ) (msg : Text) (n : ℕ)
    → 0 < n
    → ((polls ((t₁, failed msg) ∷ (t₂, counted n) ∷ []) new_poller).1 ≡ count n ∷ new_mail n ∷ [])
      × ((polls ((t₂, counted n) ∷ []) new_poller).1 ≡ count n ∷ [])
unfolding polls poll
announce_after_failure t₁ t₂ msg n h = ground arith
