-- ===== src/Matter/Dispatch.antt =====
-- The data-model handler of `ExportPlane` and the cluster handlers of its slots, in
-- bridge/src/matter/export_plane.rs: what a controller's read, write or command reaches. The slot
-- of a handler is that of the snapshot taken at dispatch; the attributes that a command notifies
-- come with its result.
pub mod Errors
pub mod Metadata
pub mod Exact
pub mod Conforming
mod Examples
use thatsmatter.Base.{
  ℕ, ◌≤◌, ◌≡◌, refl, Bool, true, false, not, ◌&&◌, List, [], ◌∷◌, Option, none, some, arith, ◌==◌,
  if◌then◌else◌, leb, Result, ok, err,
}
use thatsmatter.Base.Text.{Text}
use thatsmatter.Catalog.Model.{Uuid, DeviceType, CommandKind}
use thatsmatter.Matter.Ids.{
  ClusterId, desc, bridged_info, boolean_state, window_covering, other, AttrId,
  current_position_lift, target_position_lift, operational_status,
}
use thatsmatter.Matter.WindowCovering
use thatsmatter.Matter.WindowCovering.{
  ErrorCode, endpoint_not_found, attribute_not_found, cluster_not_found, command_not_found,
  CoverType, EndProductType, cover_type, end_product_type, accept_mode_write,
  validate_lift_percent100ths, ha_position_to_percent100ths, percent100ths_to_ha_position,
  occupancy_bitmap,
}
use thatsmatter.Matter.Slot.{
  SlotKind, ExportSlot, kind_on, kind_closed, kind_occupied, kind_position, kind_target,
  kind_moving, node_label,
}
use thatsmatter.Matter.Plane.{ExportPlane, slot_at, aggregator_endpoint_id}
use thatsmatter.Matter.Apply.{apply_controller_on_off, apply_controller_cover}

-- `BridgedEndpointMatcher`.
unfoldable pub matches : Option ℕ → Bool
matches none = true
matches (some endpoint) = leb aggregator_endpoint_id endpoint

-- What the handler of a slot's cluster serves.
pub data Serving : Type 0 where
  descriptor : ℕ → Serving
  basic_information : ℕ → Uuid → Text → Serving
  on_off_state : ℕ → Bool → Serving
  contact_state : ℕ → Bool → Serving
  occupancy_state : ℕ → ℕ → Serving
  covering :
      ℕ
      → (type_ : CoverType) (end_product : EndProductType) (current target status mode : ℕ)
      → Serving

is_garage : DeviceType → Bool
is_garage DeviceType.garage = true
is_garage _ = false

serve_functional : ClusterId → ExportSlot → SlotKind → Result ErrorCode Serving
unfolding is_garage
serve_functional ClusterId.on_off slot (SlotKind.on_off on) =
    ok (on_off_state slot.versions.functional on)
serve_functional boolean_state slot (SlotKind.contact closed) =
    ok (contact_state slot.versions.functional closed)
serve_functional ClusterId.occupancy slot (SlotKind.motion occupied) =
    ok (occupancy_state slot.versions.functional (occupancy_bitmap occupied))
serve_functional window_covering slot (SlotKind.cover c) = ok (
    covering slot.versions.functional (cover_type (is_garage slot.source.type_))
      (end_product_type (is_garage slot.source.type_)) (ha_position_to_percent100ths c.position)
      (ha_position_to_percent100ths c.target)
      (WindowCovering.operational_status c.position c.target c.moving) WindowCovering.mode)
serve_functional cluster slot k = err cluster_not_found

serve_slot : ClusterId → ExportSlot → Result ErrorCode Serving
unfolding serve_functional
serve_slot desc slot = ok (descriptor slot.versions.desc)
serve_slot bridged_info slot =
    ok (basic_information slot.versions.bridged_info slot.export_id (node_label slot))
serve_slot cluster slot = serve_functional cluster slot slot.kind

serve_aggregator : ClusterId → ℕ → Result ErrorCode Serving
serve_aggregator desc dataver = ok (descriptor dataver)
serve_aggregator cluster dataver = err cluster_not_found

serve_found : ClusterId → Option ExportSlot → Result ErrorCode Serving
unfolding serve_slot
serve_found cluster none = err endpoint_not_found
serve_found cluster (some slot) = serve_slot cluster slot

unfoldable pub read : ℕ → ClusterId → ExportPlane → Result ErrorCode Serving
unfolding serve_aggregator serve_found
read endpoint cluster plane =
    if endpoint == aggregator_endpoint_id
    then serve_aggregator cluster plane.aggregator_dataver
    else serve_found cluster (slot_at endpoint plane.slots)

-- A write of the `Mode` bits; no other attribute can be written.
write_slot : ClusterId → ℕ → SlotKind → Result ErrorCode (Unit {0})
write_slot window_covering value (SlotKind.cover c) = accept_mode_write value
write_slot cluster value k = err attribute_not_found

write_found : ClusterId → ℕ → Option ExportSlot → Result ErrorCode (Unit {0})
unfolding write_slot
write_found cluster value none = err endpoint_not_found
write_found cluster value (some slot) = write_slot cluster value slot.kind

unfoldable pub write : ℕ → ClusterId → ℕ → ExportPlane → Result ErrorCode (Unit {0})
unfolding write_found
write endpoint cluster value plane = write_found cluster value (slot_at endpoint plane.slots)

-- The commands of the two clusters that take any.
pub data OnOffCommand : Type 0 where
  off on toggle off_with_effect on_with_recall_global_scene on_with_timed_off : OnOffCommand

pub data CoverCommand : Type 0 where
  up_or_open down_or_close stop_motion go_to_lift_value go_to_tilt_value go_to_tilt_percentage :
      CoverCommand
  go_to_lift_percentage : ℕ → CoverCommand

pub data Invocation : Type 0 where
  to_on_off : OnOffCommand → Invocation
  to_window_covering : CoverCommand → Invocation
  to_other : Invocation

-- What an invocation leaves: the plane, and the attributes notified or the error.
abbrev pub Invoked : Type 0
Invoked = ExportPlane × Result ErrorCode (List AttrId)

reported : List AttrId → ExportPlane × Bool → Invoked
reported attrs (plane, true) = (plane, ok attrs)
reported attrs (plane, false) = (plane, err endpoint_not_found)

set : ExportSlot → Bool → ExportPlane → Invoked
unfolding reported
set slot value plane =
    reported (AttrId.on_off ∷ []) (apply_controller_on_off slot.matter_endpoint value plane)

handle_on_off : OnOffCommand → ExportSlot → ExportPlane → Invoked
unfolding set
handle_on_off off slot plane = set slot false plane
handle_on_off on slot plane = set slot true plane
handle_on_off toggle slot plane = set slot (not (kind_on slot.kind)) plane
handle_on_off _ slot plane = (plane, err command_not_found)

abbrev position_attrs : List AttrId
position_attrs = current_position_lift ∷ target_position_lift ∷ operational_status ∷ []

apply_motion_command : CommandKind → ExportSlot → ExportPlane → Invoked
unfolding reported
apply_motion_command kind slot plane =
    reported position_attrs (apply_controller_cover slot.matter_endpoint kind none plane)

go_to : Result ErrorCode ℕ → ExportSlot → ExportPlane → Invoked
unfolding reported
go_to (err e) slot plane = (plane, err e)
go_to (ok percent) slot plane = reported position_attrs (
    apply_controller_cover slot.matter_endpoint CommandKind.cover_position
      (some (percent100ths_to_ha_position percent)) plane)

handle_cover : CoverCommand → ExportSlot → ExportPlane → Invoked
unfolding apply_motion_command go_to
handle_cover up_or_open slot plane = apply_motion_command CommandKind.cover_open slot plane
handle_cover down_or_close slot plane = apply_motion_command CommandKind.cover_close slot plane
handle_cover stop_motion slot plane = apply_motion_command CommandKind.cover_stop slot plane
handle_cover (go_to_lift_percentage percent100ths) slot plane =
    go_to (validate_lift_percent100ths percent100ths) slot plane
handle_cover _ slot plane = (plane, err command_not_found)

invoke_slot : Invocation → ExportSlot → SlotKind → ExportPlane → Invoked
unfolding handle_on_off handle_cover
invoke_slot (to_on_off c) slot (SlotKind.on_off _) plane = handle_on_off c slot plane
invoke_slot (to_window_covering c) slot (SlotKind.cover _) plane = handle_cover c slot plane
invoke_slot i slot k plane = (plane, err command_not_found)

invoke_found : Invocation → Option ExportSlot → ExportPlane → Invoked
unfolding invoke_slot
invoke_found i none plane = (plane, err endpoint_not_found)
invoke_found i (some slot) plane = invoke_slot i slot slot.kind plane

unfoldable pub invoke : ℕ → Invocation → ExportPlane → Invoked
unfolding invoke_found
invoke endpoint i plane = invoke_found i (slot_at endpoint plane.slots) plane
