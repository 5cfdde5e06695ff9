-- ===== src/Matter/Apply.antt =====
-- The steps of `ExportPlane` of bridge/src/matter/export_plane.rs that Home Assistant and the
-- controllers make on one slot, and the draining of the queue and of the reports.
pub mod Echo
pub mod Refused
pub mod Shown
use Prim.Native.Nat.{min}
use thatsmatter.Base.{
  ℕ, zero, suc, ◌+◌, ◌≤◌, ◌≡◌, refl, Bool, true, false, ◌&&◌, ◌||◌, List, [], ◌∷◌, ◌++◌, map,
  Option, none, some, arith, ◌==◌, if◌then◌else◌, length, contains,
}
use thatsmatter.Catalog.Model.{Uuid, Export, HaStateValue, CommandKind, CommandRequest}
use thatsmatter.Matter.Ids.{ClusterId, desc, bridged_info, boolean_state, window_covering, AttrId}
use thatsmatter.Matter.OnOffMap.{
  ha_state_is_on, on_off_command, primary_state, state_on, on_off_from_states,
}
use thatsmatter.Matter.WindowCovering.{
  ValueReads, CoverHaState, ha_cover_from_state, state_value_from_ha_on,
}
use thatsmatter.Matter.Slot.{
  SlotKind, Pending, ExportSlot, next_version, kind_target, store_on, store_closed, store_occupied,
  apply_cover_ha, cover_command_open, cover_command_close, cover_command_stop,
  cover_command_position, mark_functional_changed, functional_cluster_id,
}
use thatsmatter.Matter.Plane.{ExportPlane, slot_at, slot_for, write_first, aggregator_endpoint_id}

unfoldable pub primary_ha_on : {V : Type 0} → Export → List (HaStateValue V) → Option Bool
primary_ha_on e states = state_on (primary_state e states)

-- A store of a value that may be unknown.
store_known : (Bool → SlotKind → SlotKind × Bool) → Option Bool → SlotKind → SlotKind × Bool
store_known store none k = (k, false)
store_known store (some value) k = store value k

module _ {V : Type 0} (reads : ValueReads V) where
  cover_known : Option (HaStateValue V) → SlotKind → SlotKind × Bool
  cover_known none k = (k, false)
  cover_known (some st) k = apply_cover_ha (ha_cover_from_state reads st) k

  -- The new kind of a slot, and whether it changed.
  unfoldable pub apply_kind : Export → List (HaStateValue V) → SlotKind → SlotKind × Bool
  unfolding store_known cover_known primary_ha_on state_value_from_ha_on
  apply_kind e states (SlotKind.on_off on) =
      store_known store_on (on_off_from_states e states) (SlotKind.on_off on)
  apply_kind e states (SlotKind.contact closed) =
      store_known (λ on. store_closed (state_value_from_ha_on on)) (primary_ha_on e states)
        (SlotKind.contact closed)
  apply_kind e states (SlotKind.motion occupied) =
      store_known store_occupied (primary_ha_on e states) (SlotKind.motion occupied)
  apply_kind e states (SlotKind.cover c) = cover_known (primary_state e states) (SlotKind.cover c)

  -- A slot with Home Assistant's states applied, and whether it changed.
  unfoldable pub apply_slot : List (HaStateValue V) → ExportSlot → ExportSlot × Bool
  unfolding apply_kind mark_functional_changed
  apply_slot states slot =
      let (kind, changed) = apply_kind slot.source states slot.kind in
      let stored : ExportSlot = record slot { kind = kind } in
      if changed then (mark_functional_changed stored, true) else (stored, false)

  apply_found : Uuid → List (HaStateValue V) → Option ExportSlot → ExportPlane → ExportPlane × ℕ
  unfolding write_first
  apply_found export_id states none plane =
      (plane, if contains plane.known export_id then length states else 0)
  apply_found export_id states (some slot) plane =
      let (slot', changed) = apply_slot states slot in
      (
        record plane {
          slots = write_first (λ s. s.export_id == export_id) slot' plane.slots;
          changed = plane.changed || changed;
        },
        length states,
      )

  unfoldable pub apply_state : Uuid → List (HaStateValue V) → ExportPlane → ExportPlane × ℕ
  unfolding apply_found
  apply_state export_id states plane =
      apply_found export_id states (slot_for export_id plane.slots) plane

-- A write to a slot by its endpoint, with a command for Home Assistant.
abbrev pub command_at : ℕ → ExportSlot → CommandRequest → ExportPlane → ExportPlane
command_at matter_endpoint slot command plane = record plane {
  slots = write_first (λ s. s.matter_endpoint == matter_endpoint) slot plane.slots;
  commands = plane.commands ++ command ∷ [];
}

bump_functional : ExportSlot → ExportSlot
bump_functional slot = record slot {
  versions = record slot.versions { functional = next_version slot.versions.functional };
}

-- The slot after a controller's on or off: the version moves if the value did.
on_off_slot : Bool → ExportSlot → ExportSlot
unfolding bump_functional
on_off_slot on slot =
    let (kind, changed) = store_on on slot.kind in
    let stored : ExportSlot = record slot { kind = kind } in
    if changed then bump_functional stored else stored

on_off_found : ℕ → Bool → Option ExportSlot → ExportPlane → ExportPlane × Bool
unfolding on_off_slot
on_off_found matter_endpoint on none plane = (plane, false)
on_off_found matter_endpoint on (some slot) plane = elim slot.kind [
  | SlotKind.on_off _ ↦ (
    command_at matter_endpoint (on_off_slot on slot) (on_off_command slot.export_id on) plane,
    true,
  )
  | _ ↦ (plane, false)
]

unfoldable pub apply_controller_on_off : ℕ → Bool → ExportPlane → ExportPlane × Bool
unfolding on_off_found
apply_controller_on_off matter_endpoint on plane =
    on_off_found matter_endpoint on (slot_at matter_endpoint plane.slots) plane

-- `unwrap_or`.
abbrev or_target : Option ℕ → ℕ → ℕ
or_target none target = target
or_target (some p) target = p

-- The kind after a cover command; `none` is a command for another device.
cover_kind : CommandKind → Option ℕ → SlotKind → Option SlotKind
cover_kind CommandKind.cover_open p k = some (cover_command_open k)
cover_kind CommandKind.cover_close p k = some (cover_command_close k)
cover_kind CommandKind.cover_stop p k = some (cover_command_stop k)
cover_kind CommandKind.cover_position p k =
    some (cover_command_position (or_target p (kind_target k)) k)
cover_kind _ p k = none

-- The position that goes with the command, read after the slot is written.
command_position : CommandKind → Option ℕ → SlotKind → Option ℕ
command_position CommandKind.cover_position p k = some (min (or_target p (kind_target k)) 100)
command_position _ p k = none

unfoldable pub cover_request : Uuid → CommandKind → Option ℕ → CommandRequest
cover_request export_id kind position = record {
  export_id = export_id;
  kind = kind;
  on = none;
  level = none;
  position = position;
}

cover_written :
    ℕ → CommandKind → Option ℕ → ExportSlot → Option SlotKind → ExportPlane → ExportPlane × Bool
unfolding bump_functional command_position cover_request
cover_written matter_endpoint kind p slot none plane = (plane, false)
cover_written matter_endpoint kind p slot (some k) plane = (
  command_at matter_endpoint (bump_functional (record slot { kind = k }))
      (cover_request slot.export_id kind (command_position kind p k)) plane,
  true,
)

cover_found : ℕ → CommandKind → Option ℕ → Option ExportSlot → ExportPlane → ExportPlane × Bool
unfolding cover_written cover_kind
cover_found matter_endpoint kind p none plane = (plane, false)
cover_found matter_endpoint kind p (some slot) plane = elim slot.kind [
  | SlotKind.cover c ↦ cover_written matter_endpoint kind p slot (cover_kind kind p slot.kind) plane
  | _ ↦ (plane, false)
]

unfoldable pub apply_controller_cover :
    ℕ → CommandKind → Option ℕ → ExportPlane → ExportPlane × Bool
unfolding cover_found
apply_controller_cover matter_endpoint kind p plane =
    cover_found matter_endpoint kind p (slot_at matter_endpoint plane.slots) plane

unfoldable pub take_commands : ExportPlane → ExportPlane × List CommandRequest
take_commands plane = (record plane { commands = [] }, plane.commands)
