-- ===== src/Email/Poller.antt =====
-- internal/email/poller.go, with the intervals of config.go: the background check for new mail. A
-- method returns the new state; a poll also returns the calls of the callbacks, in order.
pub mod Interval
pub mod Marker
use beadle.Prelude.{
  ℕ, ◌+◌, ◌-◌, ◌*◌, ◌%◌, Bool, true, false, not, ◌&&◌, ◌||◌, List, [], ◌∷◌, ◌++◌, Option, none,
  some, Result, ok, err, if◌then◌else◌, is_nil, ltb, ◌==◌,
}
use beadle.Text.{Text, codes, equal, lookup}

-- `validPollIntervals`, in seconds.
abbrev pub valid_poll_intervals : List (Text × ℕ)
valid_poll_intervals =
    (codes "1m", 60)
    ∷ (codes "2m", 120)
    ∷ (codes "3m", 180)
    ∷ (codes "5m", 300)
    ∷ (codes "10m", 600)
    ∷ (codes "15m", 900)
    ∷ (codes "30m", 1800)
    ∷ (codes "1h", 3600)
    ∷ (codes "2h", 7200)
    ∷ []

-- "" and "n" both mean disabled.
abbrev pub is_disabled : Text → Bool
is_disabled s = is_nil s || equal s (codes "n")

-- `ValidPollInterval`.
unfoldable pub valid_poll_interval : Text → Bool
valid_poll_interval s =
    if is_disabled s
    then true
    else elim (lookup s valid_poll_intervals) [ none ↦ false | some d ↦ true ]

-- `Config.PollDuration`, on the `PollInterval` of the configuration.
unfoldable pub poll_duration : Text → Option ℕ
poll_duration s = if is_disabled s then none else lookup s valid_poll_intervals

-- `looping` is that `stopCh` is not nil, and `last_check` is none at the zero time.
pub record Poller : Type 0 where
  pub interval : ℕ
  pub raw : Text
  pub last_seen : ℕ
  pub last_check : Option ℕ
  pub looping : Bool
  pub consec_fails : ℕ
  pub last_error : Text

-- `NewPoller`.
abbrev pub new_poller : Poller
new_poller = record {
  interval = 0;
  raw = [];
  last_seen = 0;
  last_check = none;
  looping = false;
  consec_fails = 0;
  last_error = [];
}

pub data PollerError : Type 0 where
  config_failed : Text → PollerError
  invalid_interval : Text → PollerError

-- `startLoop`: from now on the loop polls at this interval.
unfoldable pub start_loop : Poller → Poller
start_loop p = record p { looping = true }

-- `Stop`.
unfoldable pub stop : Poller → Poller
stop p = record p { looping = false }

-- `Start`, with the `PollInterval` of the configuration, or the error of loading it.
unfoldable pub start : Result Text Text → Poller → Poller × Option PollerError
unfolding start_loop
start (err x) p = (p, some (config_failed x))
start (ok s) p = elim (poll_duration s) [
  | some d ↦ (start_loop (record p { interval = d; raw = s }), none)
  | none ↦ if not (is_disabled s) then (p, some (invalid_interval s)) else (p, none)
]

-- The entry of the map, 0 where there is none.
abbrev interval_of : Text → ℕ
interval_of s = elim (lookup s valid_poll_intervals) [ none ↦ 0 | some d ↦ d ]

-- `SetInterval`.
unfoldable pub set_interval : Text → Poller → Poller × Option PollerError
unfolding start_loop stop
set_interval s p =
    if not (valid_poll_interval s)
    then (p, some (invalid_interval s))
    else let q = stop p in
      if is_disabled s
      then (record q { interval = 0; raw = s }, none)
      else (start_loop (record q { interval = interval_of s; raw = s }), none)

-- What one poll meets: an error of the configuration, the dialer or the mail server, or a count.
pub data Answer : Type 0 where
  failed : Text → Answer
  counted : ℕ → Answer

-- A call of `onCount` or `onNewMail`.
pub data Notice : Type 0 where
  count : ℕ → Notice
  new_mail : ℕ → Notice

-- `notify`.
unfoldable pub notify : Bool → ℕ → ℕ → List Notice
notify first prev unseen =
    (if not (unseen == prev) then count unseen ∷ [] else [])
    ++ (if not first && ltb prev unseen then new_mail (unseen - prev) ∷ [] else [])

-- `recordFailure`, at a time.
unfoldable pub record_failure : ℕ → Text → Poller → Poller
record_failure now msg p = record p {
  last_check = some now;
  consec_fails = (p.consec_fails + 1) % 4294967296;
  last_error = msg;
}

abbrev pub is_zero_time : Option ℕ → Bool
is_zero_time none = true
is_zero_time (some t) = false

-- `poll`, at a time.
unfoldable pub poll : ℕ → Answer → Poller → Poller × List Notice
unfolding record_failure notify
poll now (failed msg) p = (record_failure now msg p, [])
poll now (counted unseen) p = (
  record p { last_seen = unseen; consec_fails = 0; last_error = []; last_check = some now },
  notify (is_zero_time p.last_check) p.last_seen unseen,
)

-- Polls in a row.
unfoldable pub polls : List (ℕ × Answer) → Poller → Poller × List Notice
polls [] p = (p, [])
polls ((now, answer) ∷ answers) p =
    let (q, notices) = poll now answer p in let (r, more) = polls answers q in (r, notices ++ more)
