-- ===== src/Matter/Window.antt =====
-- The pairing window of bridge/src/matter/export_plane.rs and the timeout of
-- bridge/src/matter/backend.rs. A time is in seconds; the calls of the Matter stack, which
-- `execute_window_op` takes as closures, are `StackOps`, and the calls made come back as a list.
pub mod Decisions
pub mod Keeps
mod Examples
use Prim.Native.Nat.{min, max}
use thatsmatter.Base.{
  ℕ, ◌+◌, ◌≤◌, ◌≡◌, refl, Bool, true, false, not, ◌&&◌, ◌||◌, List, [], ◌∷◌, ◌++◌, Option, none,
  some, arith, ltb, leb, ◌==◌, if◌then◌else◌, Result, ok, err,
}
use thatsmatter.Base.Text.{Text, codes, to_ascii_lowercase, has_substring}
use thatsmatter.Matter.Plane.{ExportPlane}

unfoldable pub clamp_pairing_timeout : ℕ → ℕ
clamp_pairing_timeout timeout_secs = min (max timeout_secs 180) 900

abbrev pub startup_pairing_timeout_secs : ℕ
startup_pairing_timeout_secs = 900

-- `saturating_add` of 64-bit numbers.
abbrev pub saturating_add : ℕ → ℕ → ℕ
saturating_add a b = min (a + b) 18446744073709551615

unfoldable pub pairing_open : ℕ → ExportPlane → Bool
pairing_open now plane = not (plane.window_deadline == 0) && ltb now plane.window_deadline

unfoldable pub note_startup_commissioning_state : ℕ → ℕ → ExportPlane → ExportPlane
note_startup_commissioning_state now fabric_count plane = record plane {
  fabric_count = fabric_count;
  window_deadline =
      if fabric_count == 0 then saturating_add now startup_pairing_timeout_secs else 0;
}

unfoldable pub establish_fabric_baseline : ℕ → ExportPlane → ExportPlane
establish_fabric_baseline count plane = record plane { fabric_count = count }

-- `now` is the clock at the expiry test.
unfoldable pub apply_fabric_sample : ℕ → ℕ → ExportPlane → ExportPlane
apply_fabric_sample now count plane =
    let deadline = if ltb plane.fabric_count count then 0 else plane.window_deadline in
    record plane {
      fabric_count = count;
      window_deadline = if not (deadline == 0) && leb deadline now then 0 else deadline;
    }

unfoldable pub mark_window_closed : ExportPlane → ExportPlane
mark_window_closed plane = record plane { window_deadline = 0 }

unfoldable pub mark_window_opened : ℕ → ℕ → ℕ → ExportPlane → ExportPlane
unfolding establish_fabric_baseline
mark_window_opened now timeout_secs fabric_count plane =
    record (establish_fabric_baseline fabric_count plane) {
      window_deadline = saturating_add now timeout_secs;
    }

pub data WindowOp : Type 0 where
  open_window : ℕ → WindowOp
  close_window : WindowOp

pub data WindowError : Type 0 where
  another_active : WindowError
  open_failed close_failed : Text → WindowError

pub data StackCall : Type 0 where
  count_fabrics close_comm_window : StackCall
  open_basic_comm_window : ℕ → StackCall

-- What the stack answers: the fabric counts before and after an open, and the results.
pub record StackOps : Type 0 where
  pub count_before : ℕ
  pub count_after : ℕ
  pub opened : Result Text (Unit {0})
  pub closed : Result Text Bool

unfoldable pub is_comm_window_busy : Text → Bool
unfolding to_ascii_lowercase
is_comm_window_busy e =
    let lower = to_ascii_lowercase e in
    has_substring lower (codes "busy")
    || (has_substring lower (codes "already") && has_substring lower (codes "open"))

pub record WindowResult : Type 0 where
  pub plane : ExportPlane
  pub result : Result WindowError (Unit {0})
  pub calls : List StackCall

-- The open attempt on a plane whose baseline is set; `later` is the clock when it has succeeded.
open_attempt : ℕ → ℕ → ℕ → Result Text (Unit {0}) → ExportPlane → WindowResult
unfolding mark_window_opened is_comm_window_busy
open_attempt later timeout_secs count (ok _) plane = record {
  plane = mark_window_opened later timeout_secs count plane;
  result = ok tt;
  calls = count_fabrics ∷ open_basic_comm_window timeout_secs ∷ count_fabrics ∷ [];
}
open_attempt later timeout_secs count (err e) plane = record {
  plane = plane;
  result = if is_comm_window_busy e then err another_active else err (open_failed e);
  calls = count_fabrics ∷ open_basic_comm_window timeout_secs ∷ [];
}

close_attempt : Result Text Bool → ExportPlane → WindowResult
unfolding mark_window_closed
close_attempt (ok was_open) plane = record {
  plane = mark_window_closed plane;
  result = ok tt;
  calls = close_comm_window ∷ [];
}
close_attempt (err e) plane = record {
  plane = plane;
  result = err (close_failed e);
  calls = close_comm_window ∷ [];
}

unfoldable pub execute_window_op : ℕ → ℕ → StackOps → WindowOp → ExportPlane → WindowResult
unfolding pairing_open establish_fabric_baseline open_attempt close_attempt mark_window_closed
execute_window_op now later ops (open_window timeout_secs) plane =
    if pairing_open now plane
    then record { plane = plane; result = ok tt; calls = [] }
    else open_attempt later timeout_secs ops.count_after ops.opened
        (establish_fabric_baseline ops.count_before plane)
execute_window_op now later ops close_window plane =
    if pairing_open now plane
    then close_attempt ops.closed plane
    else record { plane = mark_window_closed plane; result = ok tt; calls = [] }
