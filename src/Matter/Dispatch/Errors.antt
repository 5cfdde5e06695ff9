-- ===== src/Matter/Dispatch/Errors.antt =====
-- Commands of controllers, from their dispatch to the queue, in bridge/src/matter/export_plane.rs.
use thatsmatter.Base.{
  ℕ, ◌≡◌, refl, Bool, true, false, not, List, none, some, Option-cases, inl, inr, Result, ok, err,
}
use thatsmatter.Catalog.Model.{CommandKind}
use thatsmatter.Matter.Ids.{AttrId}
use thatsmatter.Matter.WindowCovering.{
  ErrorCode, endpoint_not_found, command_not_found, validate_lift_percent100ths,
  percent100ths_to_ha_position,
}
use thatsmatter.Matter.Slot.{SlotKind, ExportSlot, kind_on}
use thatsmatter.Matter.Plane.{ExportPlane, slot_at}
use thatsmatter.Matter.Plane.Slots.{slot_at-endpoint}
use thatsmatter.Matter.Apply.Refused.{
  Queued, Applied, refused, accepted, on_off-Applied, cover-Applied,
}
use thatsmatter.Matter.Dispatch.{
  Invocation, to_on_off, to_window_covering, Invoked, OnOffCommand, off, on, toggle, CoverCommand,
  up_or_open, down_or_close, stop_motion, go_to_lift_percentage, reported, set, handle_on_off,
  handle_cover, apply_motion_command, go_to, invoke_slot, invoke,
}

-- An invocation fails with nothing changed, or succeeds with one command more for the export of its
-- endpoint.
pub data Outcome (ep : ℕ) (plane : ExportPlane) (r : Invoked) : Type 0 where
  failed : (e : ErrorCode) → r ≡ (plane, err e) → Outcome ep plane r
  done : (attrs : List AttrId) → r.1 ≡ ok attrs → Queued ep plane r.0 → Outcome ep plane r

reported-Outcome :
    (ep : ℕ) (plane : ExportPlane) (attrs : List AttrId) (r : ExportPlane × Bool)
    → Applied ep plane r
    → Outcome ep plane (reported attrs r)
unfolding reported
reported-Outcome ep plane attrs (p, true) (refused e) = cc
reported-Outcome ep plane attrs (p, true) (accepted t q) = done attrs refl q
reported-Outcome ep plane attrs (p, false) (refused e) = failed endpoint_not_found (cc)
reported-Outcome ep plane attrs (p, false) (accepted t q) = cc

module _ (ep : ℕ) (plane : ExportPlane) (s : ExportSlot) (here : s.matter_endpoint ≡ ep) where
  set-Outcome : (value : Bool) → Outcome ep plane (set s value plane)
  unfolding set
  set-Outcome value = rw here (reported-Outcome ep plane _ _ (on_off-Applied ep value plane))

  handle_on_off-Outcome : (c : OnOffCommand) → Outcome ep plane (handle_on_off c s plane)
  unfolding handle_on_off
  handle_on_off-Outcome off = set-Outcome false
  handle_on_off-Outcome on = set-Outcome true
  handle_on_off-Outcome toggle = set-Outcome (not (kind_on s.kind))
  handle_on_off-Outcome _ = failed command_not_found refl

  motion-Outcome : (kind : CommandKind) → Outcome ep plane (apply_motion_command kind s plane)
  unfolding apply_motion_command
  motion-Outcome kind = rw here (reported-Outcome ep plane _ _ (cover-Applied ep kind none plane))

  go_to-Outcome : (r : Result ErrorCode ℕ) → Outcome ep plane (go_to r s plane)
  unfolding go_to
  go_to-Outcome (err e) = failed e refl
  go_to-Outcome (ok percent) = rw here (
      reported-Outcome ep plane _ _ (
        cover-Applied ep CommandKind.cover_position (some (percent100ths_to_ha_position percent))
          plane))

  handle_cover-Outcome : (c : CoverCommand) → Outcome ep plane (handle_cover c s plane)
  unfolding handle_cover
  handle_cover-Outcome up_or_open = motion-Outcome CommandKind.cover_open
  handle_cover-Outcome down_or_close = motion-Outcome CommandKind.cover_close
  handle_cover-Outcome stop_motion = motion-Outcome CommandKind.cover_stop
  handle_cover-Outcome (go_to_lift_percentage p) = go_to-Outcome (validate_lift_percent100ths p)
  handle_cover-Outcome _ = failed command_not_found refl

  invoke_slot-Outcome : (i : Invocation) (k : SlotKind) → Outcome ep plane (invoke_slot i s k plane)
  unfolding invoke_slot
  invoke_slot-Outcome (to_on_off c) (SlotKind.on_off b) = handle_on_off-Outcome c
  invoke_slot-Outcome (to_window_covering c) (SlotKind.cover b) = handle_cover-Outcome c
  invoke_slot-Outcome _ _ = failed command_not_found refl

-- Whatever a controller invokes, and at whatever endpoint: either the invocation fails and the
-- plane is exactly as before, or it succeeds and the queue for Home Assistant has one command more,
-- at its end, for the export whose slot serves the endpoint.
pub invoke-Outcome :
    (ep : ℕ) (i : Invocation) (plane : ExportPlane) → Outcome ep plane (invoke ep i plane)
unfolding invoke
invoke-Outcome ep i plane = elim (Option-cases (slot_at ep plane.slots)) [
  | inl x ↦ rw x (failed endpoint_not_found refl)
  | inr (s, x) ↦
      rw x (invoke_slot-Outcome ep plane s (slot_at-endpoint ep plane.slots s x) i s.kind)
]
