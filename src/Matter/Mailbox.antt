-- ===== src/Matter/Mailbox.antt =====
-- The mailbox of bridge/src/matter/export_plane.rs through which the control plane's threads ask
-- the stack thread to open or close the pairing window: `request_open_window`,
-- `post_window_request` and `drain_window_request`, as interleaved steps. A call is its number,
-- which stands for the channel that its reply comes on.
pub mod Once
mod Examples
use thatsmatter.Base.{
  ℕ, ◌+◌, ◌≡◌, Bool, true, List, [], ◌∷◌, ◌++◌, map, Option, none, some, arith, ◌==◌, if◌then◌else◌,
  filter, not, Result, ok, err, contains,
}
use thatsmatter.Matter.Plane.{ExportPlane}
use thatsmatter.Matter.Window.{
  WindowOp, open_window, close_window, WindowError, StackOps, clamp_pairing_timeout,
  execute_window_op,
}

pub record WindowRequest : Type 0 where
  pub call : ℕ
  pub op : WindowOp

-- How a call of `post_window_request` ends: with the stack thread's reply, or without one.
pub data PostError : Type 0 where
  in_flight timed_out : PostError
  refused_by_stack : WindowError → PostError

unfoldable pub open_op : (timeout_secs : ℕ) → WindowOp
open_op timeout_secs = open_window (clamp_pairing_timeout timeout_secs)

-- The first half of `post_window_request`, under the lock.
unfoldable pub post :
    WindowRequest → Option WindowRequest → Result PostError (Unit {0}) × Option WindowRequest
post request (some other) = (err in_flight, some other)
post request none = (ok tt, some request)

-- The branch of `post_window_request` that has waited in vain, under the lock.
unfoldable pub give_up : Option WindowRequest → Option WindowRequest
give_up (some request) = none
give_up none = none

-- `window_request.lock().take()` of `drain_window_request`.
unfoldable pub take_request : Option WindowRequest → Option WindowRequest × Option WindowRequest
take_request slot = (slot, none)

-- `executing` is the request that the stack thread has taken, `replies` are the results that it has
-- sent, and `waiting` the calls that have posted a request and not returned.
pub record Shared : Type 0 where
  pub plane : ExportPlane
  pub window_request : Option WindowRequest
  pub executing : Option WindowRequest
  pub replies : List (ℕ × Result WindowError (Unit {0}))
  pub waiting : List ℕ
  pub calls : ℕ

abbrev pub without : ℕ → List ℕ → List ℕ
without call = filter (λ c. not (c == call))

abbrev pub idle : ExportPlane → Shared
idle plane = record {
  plane = plane;
  window_request = none;
  executing = none;
  replies = [];
  waiting = [];
  calls = 0;
}

pub data Step (s : Shared) (t : Shared) : Type 0 where
  posts :
      (op : WindowOp)
      → (post (record { call = s.calls; op = op }) s.window_request).0 ≡ ok tt
      → t ≡ record s {
        window_request = (post (record { call = s.calls; op = op }) s.window_request).1;
        waiting = s.calls ∷ s.waiting;
        calls = s.calls + 1;
      }
      → Step s t
  -- A request is in the mailbox already: the call returns at once.
  bounces :
      (op : WindowOp)
      → (post (record { call = s.calls; op = op }) s.window_request).0 ≡ err in_flight
      → t ≡ record s { calls = s.calls + 1 }
      → Step s t
  takes :
      (request : WindowRequest)
      → s.executing ≡ none
      → (take_request s.window_request).0 ≡ some request
      → t
        ≡ record s { window_request = (take_request s.window_request).1; executing = some request }
      → Step s t
  -- `now` and `later` are the clock, `ops` the answers of the Matter stack.
  replies :
      (request : WindowRequest) (now later : ℕ) (ops : StackOps)
      → s.executing ≡ some request
      → t ≡ record s {
        plane = (execute_window_op now later ops request.op s.plane).plane;
        executing = none;
        replies =
            (request.call, (execute_window_op now later ops request.op s.plane).result) ∷ s.replies;
      }
      → Step s t
  returns :
      (call : ℕ) (result : Result WindowError (Unit {0}))
      → contains s.waiting call ≡ true
      → contains (map (λ r. r.0) s.replies) call ≡ true
      → t ≡ record s { waiting = without call s.waiting }
      → Step s t
  -- Ten seconds have passed, or the sender of the channel is gone.
  times_out :
      (call : ℕ)
      → contains s.waiting call ≡ true
      → t ≡ record s { window_request = give_up s.window_request; waiting = without call s.waiting }
      → Step s t

pub data Reach (s : Shared) : Shared → Type 0 where
  here : Reach s s
  next : {t u : Shared} → Reach s t → Step t u → Reach s u
