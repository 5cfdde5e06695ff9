-- ===== src/Matter/Window/Decisions.antt =====
-- What opening and closing the pairing window of bridge/src/matter/export_plane.rs decide.
use thatsmatter.Base.{ℕ, ◌+◌, ◌≤◌, ◌<◌, ◌≡◌, ◌≢◌, refl, Bool, true, false, List, [], arith, ok, any}
use thatsmatter.Matter.Plane.{ExportPlane}
use thatsmatter.Matter.Window.{
  clamp_pairing_timeout, pairing_open, apply_fabric_sample, WindowOp, open_window, close_window,
  StackCall, close_comm_window, StackOps, execute_window_op,
}

pub clamp_pairing_timeout_bounds :
    (t : ℕ) → (180 ≤ clamp_pairing_timeout t) × (clamp_pairing_timeout t ≤ 900)
unfolding clamp_pairing_timeout
clamp_pairing_timeout_bounds t = (omega arith, omega arith)

abbrev pub closes : List StackCall → Bool
closes = any (elim [ close_comm_window ↦ true | _ ↦ false ])

module _ (now later : ℕ) (ops : StackOps) (plane : ExportPlane) where
  -- The stack's window is closed only by a close, and only while the bridge tracks a window of its
  -- own; an open never closes, and one that comes while the window is open changes nothing at all.
  window_calls :
      (op : WindowOp)
      → ((closes (execute_window_op now later ops op plane).calls ≡ true)
          → (op ≡ close_window) × (pairing_open now plane ≡ true))
        × ((t : ℕ)
            → op ≡ open_window t
            → pairing_open now plane ≡ true
            → execute_window_op now later ops op plane
              ≡ record { plane = plane; result = ok tt; calls = [] })
  unfolding execute_window_op
  window_calls (open_window timeout) = (λ c. absurd (ground arith), λ t e o. ground arith)
  window_calls close_window = (λ c. (refl, ground arith), λ t e o. cc)

  -- A failed request leaves the deadline as it was.
  window_failed :
      (op : WindowOp)
      → (execute_window_op now later ops op plane).result ≢ ok tt
      → (execute_window_op now later ops op plane).plane.window_deadline ≡ plane.window_deadline
  unfolding execute_window_op
  window_failed op h = ground arith

  -- An open that succeeds while no window is tracked leaves the window open until its timeout, if
  -- the deadline is a 64-bit number: a sample of the fabrics in between that counts no more than
  -- the open did keeps it open, and one that counts more closes it.
  opened_window :
      (timeout count t : ℕ)
      → pairing_open now plane ≡ false
      → (execute_window_op now later ops (open_window timeout) plane).result ≡ ok tt
      → t < later + timeout
      → later + timeout ≤ 18446744073709551615
      → ((count ≤ ops.count_after)
          → pairing_open t (
              apply_fabric_sample t count
                (execute_window_op now later ops (open_window timeout) plane).plane)
            ≡ true)
        × ((ops.count_after < count)
            → pairing_open t (
                apply_fabric_sample t count
                  (execute_window_op now later ops (open_window timeout) plane).plane)
              ≡ false)
  unfolding execute_window_op apply_fabric_sample
  opened_window timeout count t h r early fits = (λ c. ground arith, λ c. ground arith)
