-- ===== src/Matter/Slot.antt =====
-- `SlotKind` and `ExportSlot` of bridge/src/matter/export_plane.rs: one bridged endpoint and its
-- Matter-side state. An atomic is its value; a method that stores returns the new slot. The
-- `UniqueID`, a rendering of the export id, is the id.
pub mod Cover
use Prim.Native.Nat.{min}
use thatsmatter.Base.{
  ℕ, zero, suc, ◌+◌, ◌-◌, ◌%◌, ◌^◌, ◌≤◌, ◌≡◌, refl, Bool, true, false, not, ◌&&◌, ◌||◌, List, [],
  ◌∷◌, Option, none, some, arith, ltb, leb, ◌==◌, if◌then◌else◌, bool_ne,
}
use thatsmatter.Base.Text.{Text, len, utf8_len, text_eq}
use thatsmatter.Catalog.Model.{Uuid, DeviceType, Export}
use thatsmatter.Matter.Ids.{ClusterId, boolean_state, window_covering}
use thatsmatter.Matter.NodeLabel.{clamp_utf8}
use thatsmatter.Matter.WindowCovering.{CoverHaState, CoverMotion, stopped, opening, closing}

-- The device type ids that a slot advertises first.
unfoldable pub concrete_dtype : DeviceType → ℕ
concrete_dtype DeviceType.light = 0x0100
concrete_dtype DeviceType.on_off_switch = 0x010a
concrete_dtype DeviceType.on_off_plug = 0x010a
concrete_dtype DeviceType.outlet = 0x010a
concrete_dtype DeviceType.contact = 0x0015
concrete_dtype DeviceType.motion = 0x0107
concrete_dtype DeviceType.cover = 0x0202
concrete_dtype DeviceType.garage = 0x0202

pub record CoverState : Type 0 where
  pub position : ℕ
  pub target : ℕ
  pub moving : Bool

pub data SlotKind : Type 0 where
  on_off : Bool → SlotKind
  cover : CoverState → SlotKind
  contact : Bool → SlotKind
  motion : Bool → SlotKind

-- The bits of `pending_reports`.
pub record Pending : Type 0 where
  pub functional : Bool
  pub node_label : Bool
  pub descriptor : Bool

pub record Versions : Type 0 where
  pub desc : ℕ
  pub bridged_info : ℕ
  pub functional : ℕ

pub record ExportSlot : Type 0 where
  pub export_id : Uuid
  pub matter_endpoint : ℕ
  pub name : Text
  pub kind : SlotKind
  pub source : Export
  pub versions : Versions
  pub pending : Pending

-- `fetch_add(1)` on a 32-bit counter.
abbrev pub next_version : ℕ → ℕ
next_version v = (v + 1) % 4294967296

abbrev pub kind_on : SlotKind → Bool
kind_on (SlotKind.on_off on) = on
kind_on _ = false

abbrev pub kind_closed : SlotKind → Bool
kind_closed (SlotKind.contact closed) = closed
kind_closed _ = false

abbrev pub kind_occupied : SlotKind → Bool
kind_occupied (SlotKind.motion occupied) = occupied
kind_occupied _ = false

abbrev pub kind_position : SlotKind → ℕ
kind_position (SlotKind.cover c) = c.position
kind_position _ = 0

abbrev pub kind_target : SlotKind → ℕ
kind_target (SlotKind.cover c) = c.target
kind_target _ = 0

abbrev pub kind_moving : SlotKind → Bool
kind_moving (SlotKind.cover c) = c.moving
kind_moving _ = false

-- The stores: the new kind, and whether the value changed.
unfoldable pub store_on : Bool → SlotKind → SlotKind × Bool
store_on value (SlotKind.on_off on) = (SlotKind.on_off value, bool_ne on value)
store_on value k = (k, false)

unfoldable pub store_closed : Bool → SlotKind → SlotKind × Bool
store_closed value (SlotKind.contact closed) = (SlotKind.contact value, bool_ne closed value)
store_closed value k = (k, false)

unfoldable pub store_occupied : Bool → SlotKind → SlotKind × Bool
store_occupied value (SlotKind.motion occupied) = (SlotKind.motion value, bool_ne occupied value)
store_occupied value k = (k, false)

-- `position.swap(p)` if there is a position: the new value, and whether it changed.
swap_position : Option ℕ → ℕ → ℕ × Bool
swap_position none cur = (cur, false)
swap_position (some p) cur = (p, not (cur == p))

unfoldable pub apply_motion : CoverMotion → Option ℕ → CoverState → CoverState × Bool
unfolding swap_position
apply_motion opening position c =
    let (p, moved) = swap_position position c.position in
    let aim = leb c.target c.position && not (c.target == 100) in
    (
      record { position = p; target = if aim then 100 else c.target; moving = true },
      not c.moving || aim || moved,
    )
apply_motion closing position c =
    let (p, moved) = swap_position position c.position in
    let aim = leb c.position c.target && not (c.target == 0) in
    (
      record { position = p; target = if aim then 0 else c.target; moving = true },
      not c.moving || aim || moved,
    )
apply_motion stopped position c =
    let (p, moved) = swap_position position c.position in
    let (t, aimed) = swap_position position c.target in
    (record { position = p; target = t; moving = false }, c.moving || moved || aimed)

on_cover : CoverState × Bool → SlotKind × Bool
on_cover (c, changed) = (SlotKind.cover c, changed)

unfoldable pub apply_cover_ha : CoverHaState → SlotKind → SlotKind × Bool
unfolding apply_motion on_cover
apply_cover_ha ha (SlotKind.cover c) = on_cover (apply_motion ha.motion ha.position c)
apply_cover_ha ha k = (k, false)

unfoldable pub cover_command_open : SlotKind → SlotKind
cover_command_open (SlotKind.cover c) = SlotKind.cover (record c { target = 100; moving = true })
cover_command_open k = k

unfoldable pub cover_command_close : SlotKind → SlotKind
cover_command_close (SlotKind.cover c) = SlotKind.cover (record c { target = 0; moving = true })
cover_command_close k = k

unfoldable pub cover_command_stop : SlotKind → SlotKind
cover_command_stop (SlotKind.cover c) =
    SlotKind.cover (record c { target = c.position; moving = false })
cover_command_stop k = k

unfoldable pub cover_command_position : ℕ → SlotKind → SlotKind
cover_command_position ha_position (SlotKind.cover c) =
    SlotKind.cover (record c { target = min ha_position 100; moving = true })
cover_command_position ha_position k = k

abbrev pub node_label_max_bytes : ℕ
node_label_max_bytes = 32

unfoldable pub node_label : ExportSlot → Text
node_label slot = clamp_utf8 slot.name node_label_max_bytes

unfoldable pub functional_cluster_id : SlotKind → ClusterId
functional_cluster_id (SlotKind.on_off on) = ClusterId.on_off
functional_cluster_id (SlotKind.contact closed) = boolean_state
functional_cluster_id (SlotKind.motion occupied) = ClusterId.occupancy
functional_cluster_id (SlotKind.cover c) = window_covering

-- `surface()`, and its `!=`.
unfoldable pub same_surface : ExportSlot → ExportSlot → Bool
same_surface a b =
    a.matter_endpoint == b.matter_endpoint
    && a.export_id == b.export_id
    && concrete_dtype a.source.type_ == concrete_dtype b.source.type_

unfoldable pub mark_functional_changed : ExportSlot → ExportSlot
mark_functional_changed slot = record slot {
  versions = record slot.versions { functional = next_version slot.versions.functional };
  pending = record slot.pending { functional = true };
}
