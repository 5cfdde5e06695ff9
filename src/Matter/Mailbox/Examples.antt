-- ===== src/Matter/Mailbox/Examples.antt =====
-- The mailbox of bridge/src/matter/export_plane.rs with two concrete calls.
use thatsmatter.Base.{◌≡◌, refl, true, false, [], ◌∷◌, none, some, contains}
use thatsmatter.Matter.Plane.{new}
use thatsmatter.Matter.Window.{open_window, close_window}
use thatsmatter.Matter.Mailbox.{WindowRequest, Shared, idle, Reach, here, next, posts, takes}
use thatsmatter.Matter.Mailbox.Once.{Distinct, alive, requests_once, timeout_discards}

abbrev first_open : WindowRequest
first_open = record { call = 0; op = open_window 300 }

-- The stack thread has taken the first call's request.
abbrev taken : Shared
taken = record {
  plane = new 0;
  window_request = none;
  executing = some first_open;
  replies = [];
  waiting = 0 ∷ [];
  calls = 1;
}

reached : Reach (idle (new 0)) taken
unfolding thatsmatter.Matter.Mailbox.post thatsmatter.Matter.Mailbox.take_request
reached = next (next here (posts (open_window 300) refl refl)) (takes first_open refl refl refl)

requests_once_example : Distinct (alive taken)
requests_once_example = requests_once reached

timeout_discards_example :
    (t : Shared) × Reach taken t
    × (contains t.waiting 1 ≡ true)
    × ((u : Shared) → Reach t u → contains (alive u) 1 ≡ false)
timeout_discards_example = timeout_discards first_open close_window reached refl refl refl
