-- ===== src/Matter/Plane.antt =====
-- `ExportPlane` of bridge/src/matter/export_plane.rs: the slot table with the counters that the
-- control plane and the stack thread share. A lock or an atomic is its value, a method is one step;
-- `changed` is the permit of the `Notify`, and the request to open or close the pairing window is
-- in Window.
pub mod Layout
pub mod Slots
pub mod Members
pub mod Bridged
use Prim.Native.Nat.{min}
use thatsmatter.Base.{
  ℕ, zero, suc, ◌+◌, ◌%◌, ◌≤◌, ◌<◌, ◌≡◌, refl, Bool, true, false, not, ◌&&◌, ◌||◌, List, [], ◌∷◌,
  ◌++◌, map, Option, none, some, arith, ltb, leb, ◌==◌, if◌then◌else◌, length, any, filter, find,
  contains,
}
use thatsmatter.Catalog.Model.{Uuid, Export, HaStateValue, CommandKind, CommandRequest}
use thatsmatter.Matter.Ids.{ClusterId, desc, bridged_info, boolean_state, window_covering, AttrId}
use thatsmatter.Matter.OnOffMap.{
  ha_state_is_on, on_off_command, primary_state, state_on, on_off_from_states,
  is_matter_bridged_export,
}
use thatsmatter.Matter.WindowCovering.{
  ValueReads, CoverHaState, ha_cover_from_state, state_value_from_ha_on,
}
use thatsmatter.Matter.Slot.{
  SlotKind, Pending, Versions, ExportSlot, next_version, kind_target, store_on, store_closed,
  store_occupied, apply_cover_ha, cover_command_open, cover_command_close, cover_command_stop,
  cover_command_position, same_surface, mark_functional_changed, functional_cluster_id,
}
use thatsmatter.Matter.Rebuild.{rebuild}

abbrev pub aggregator_endpoint_id : ℕ
aggregator_endpoint_id = 1

abbrev pub endpoint_max : ℕ
endpoint_max = 65535

pub record ExportPlane : Type 0 where
  pub slots : List ExportSlot
  pub known : List Uuid
  pub commands : List CommandRequest
  pub config_requested : ℕ
  pub config_applied : ℕ
  pub aggregator_dataver : ℕ
  pub window_deadline : ℕ
  pub fabric_count : ℕ
  pub changed : Bool

-- `fetch_add(1)` on a 64-bit counter.
abbrev pub next_generation : ℕ → ℕ
next_generation g = (g + 1) % 18446744073709551616

unfoldable pub new : ℕ → ExportPlane
new random = record {
  slots = [];
  known = [];
  commands = [];
  config_requested = 0;
  config_applied = 0;
  aggregator_dataver = random;
  window_deadline = 0;
  fabric_count = 0;
  changed = false;
}

-- The slots are sorted by endpoint, where the binary search finds the slot of an endpoint.
unfoldable pub slot_at : ℕ → List ExportSlot → Option ExportSlot
slot_at matter_endpoint = find (λ s. s.matter_endpoint == matter_endpoint)

unfoldable pub slot_for : Uuid → List ExportSlot → Option ExportSlot
slot_for export_id = find (λ s. s.export_id == export_id)

-- A write to the slot that a search finds.
unfoldable pub write_first : (ExportSlot → Bool) → ExportSlot → List ExportSlot → List ExportSlot
write_first p new [] = []
write_first p new (s ∷ slots) =
    let rest = write_first p new slots in if p s then new ∷ slots else s ∷ rest

-- The endpoints of the node: root, aggregator, and one for each slot.
unfoldable pub node_endpoints : List ExportSlot → List ℕ
node_endpoints slots = 0 ∷ aggregator_endpoint_id ∷ map (λ s. s.matter_endpoint) slots

unfoldable pub endpoint_ids : ExportPlane → List ℕ
endpoint_ids plane = map (λ s. s.matter_endpoint) plane.slots

-- `sort_by_key(|e| (e.endpoint_id.unwrap_or(EndptId::MAX), e.export_id))`.
abbrev pub sort_key : Export → ℕ
sort_key e = elim e.endpoint_id [ none ↦ endpoint_max | some p ↦ p ]

unfoldable pub key_le : Export → Export → Bool
key_le a b =
    ltb (sort_key a) (sort_key b) || (sort_key a == sort_key b && leb a.export_id b.export_id)

unfoldable pub insert_by_key : Export → List Export → List Export
unfolding key_le
insert_by_key e [] = e ∷ []
insert_by_key e (x ∷ xs) =
    let rest = insert_by_key e xs in if key_le e x then e ∷ x ∷ xs else x ∷ rest

unfoldable pub sort_by_key : List Export → List Export
unfolding insert_by_key
sort_by_key [] = []
sort_by_key (x ∷ xs) = insert_by_key x (sort_by_key xs)

-- `export.endpoint_id.and_then(|id| id.checked_add(1))`.
unfoldable pub matter_endpoint_of : Export → Option ℕ
matter_endpoint_of e = elim e.endpoint_id [
  | none ↦ none
  | some p ↦ if leb endpoint_max p then none else some (p + 1)
]

-- The endpoint that an export gets, if it gets one beside those that are taken.
unfoldable pub usable_endpoint : Export → List ℕ → Option ℕ
unfolding matter_endpoint_of
usable_endpoint e taken = elim (matter_endpoint_of e) [
  | none ↦ none
  | some m ↦ if leb m aggregator_endpoint_id || contains taken m then none else some m
]

-- The loop over the sorted exports.
unfoldable pub build_slots :
    (Uuid → Versions) → List ExportSlot → List Export → List ℕ → List ExportSlot
unfolding usable_endpoint
build_slots random previous [] taken = []
build_slots random previous (e ∷ es) taken = elim (usable_endpoint e taken) [
  | none ↦ build_slots random previous es taken
  | some m ↦
      rebuild e m (slot_for e.export_id previous) (random e.export_id)
      ∷ build_slots random previous es (m ∷ taken)
]

unfoldable pub same_surfaces : List ExportSlot → List ExportSlot → Bool
same_surfaces [] [] = true
same_surfaces [] (b ∷ bs) = false
same_surfaces (a ∷ as_) [] = false
same_surfaces (a ∷ as_) (b ∷ bs) = same_surface a b && same_surfaces as_ bs

unfoldable pub owes_report : ExportSlot → Bool
owes_report s = s.pending.functional || s.pending.node_label || s.pending.descriptor

unfoldable pub rebuilt_slots : (Uuid → Versions) → List Export → List ExportSlot → List ExportSlot
unfolding build_slots sort_by_key
rebuilt_slots random exports previous =
    build_slots random previous (sort_by_key (filter is_matter_bridged_export exports)) []

unfoldable pub set_exports : (Uuid → Versions) → List Export → ExportPlane → ExportPlane
unfolding rebuilt_slots same_surfaces owes_report
set_exports random exports plane =
    let slots = rebuilt_slots random exports plane.slots in
    let surface_changed = not (same_surfaces plane.slots slots) in
    record plane {
      slots = slots;
      known = map (λ e. e.export_id) exports;
      aggregator_dataver =
          if surface_changed
          then next_version plane.aggregator_dataver
          else plane.aggregator_dataver;
      config_requested =
          if surface_changed
          then next_generation plane.config_requested
          else plane.config_requested;
      changed = plane.changed || surface_changed || any owes_report slots;
    }
