-- ===== src/Tests/Mail.antt =====
-- Runs of the handler, the trust levels and the poller, and their theorems.
use beadle.Prelude.{◌≤◌, ◌<◌, ◌≡◌, refl, true, [], ◌∷◌, arith}
use beadle.Prelude.Int.{pos}
use beadle.Text.{
  to_lower, trim_space, equal, contains_any, byte_len, has_suffix, trim_suffix, lookup,
}
use beadle.Contacts.Permission.{check_permission, parse_permission}
use beadle.Contacts.Store.{find_by_address}
use beadle.Email.Address.{extract_email_address, fallback}
use beadle.Email.Poller.{new_poller, failed, counted, count, new_mail, polls}
use beadle.Email.Poller.Marker.{announce_after_failure}
use beadle.Daemon.Handler.{
  handle, check_contact, act, parse_uint32, verify_trust, is_loopback_host, worker_capacity,
  new_workers,
}
use beadle.Daemon.Handler.Authorized.{IsAuthorized, is_work, handle-IsAuthorized}
use beadle.Daemon.Handler.Capacity.{start, step, deliver, Reach-capacity}
use beadle.Tests.Data.{ascii_tables, handler, order, idle}

order_works : is_work (handle handler order idle).0 ≡ true
unfolding handle check_contact act verify_trust is_loopback_host find_by_address
    extract_email_address check_permission parse_permission parse_uint32 to_lower trim_space equal
    contains_any byte_len has_suffix trim_suffix lookup fallback
order_works = refl

handle-IsAuthorized_example : IsAuthorized handler order
handle-IsAuthorized_example = handle-IsAuthorized handler order idle order_works

Reach-capacity_example :
    ((handle handler order (new_workers (pos 1))).1.busy ≤ worker_capacity (pos 1))
    × (0 < worker_capacity (pos 1))
Reach-capacity_example =
    Reach-capacity handler (pos 1) (step start (deliver (new_workers (pos 1)) order))

announce_after_failure_example :
    ((polls ((1, failed []) ∷ (2, counted 3) ∷ []) new_poller).1 ≡ count 3 ∷ new_mail 3 ∷ [])
    × ((polls ((2, counted 3) ∷ []) new_poller).1 ≡ count 3 ∷ [])
announce_after_failure_example = announce_after_failure 1 2 [] 3 (omega arith)
