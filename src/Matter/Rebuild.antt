-- ===== src/Matter/Rebuild.antt =====
-- `rebuild` and `rebuild_kind` of bridge/src/matter/export_plane.rs: the slot of an export, with
-- what its previous slot carries over. `random` are the data versions that a new slot draws.
use thatsmatter.Base.{ℕ, ◌≡◌, true, false, Option, none, some, arith, if◌then◌else◌}
use thatsmatter.Base.Text.{text_eq}
use thatsmatter.Catalog.Model.{DeviceType, Export}
use thatsmatter.Matter.Slot.{
  CoverState, SlotKind, Versions, ExportSlot, next_version, kind_on, kind_closed, kind_occupied,
  node_label, same_surface,
}

-- `previous.map(f).unwrap_or(d)`.
abbrev pub from_previous : {A B : Type 0} → (A → B) → B → Option A → B
from_previous f d none = d
from_previous f d (some a) = f a

abbrev pub kept_cover : SlotKind → CoverState
kept_cover (SlotKind.cover c) = c
kept_cover _ = record { position = 100; target = 100; moving = false }

unfoldable pub rebuild_kind : DeviceType → Option SlotKind → SlotKind
rebuild_kind DeviceType.contact previous =
    SlotKind.contact (from_previous kind_closed true previous)
rebuild_kind DeviceType.motion previous =
    SlotKind.motion (from_previous kind_occupied false previous)
rebuild_kind DeviceType.cover previous =
    SlotKind.cover
      (from_previous kept_cover (record { position = 100; target = 100; moving = false }) previous)
rebuild_kind DeviceType.garage previous =
    SlotKind.cover
      (from_previous kept_cover (record { position = 100; target = 100; moving = false }) previous)
rebuild_kind _ previous = SlotKind.on_off (from_previous kind_on false previous)

abbrev pub slot_kind_of : Option ExportSlot → Option SlotKind
slot_kind_of none = none
slot_kind_of (some s) = some s.kind

-- The slot before its name and surface are compared with the previous one's.
unfoldable pub carried : Export → ℕ → Option ExportSlot → Versions → ExportSlot
unfolding rebuild_kind
carried e matter_endpoint previous random = record {
  export_id = e.export_id;
  matter_endpoint = matter_endpoint;
  name = e.name;
  kind = rebuild_kind e.type_ (slot_kind_of previous);
  source = e;
  versions = from_previous (λ p. p.versions) random previous;
  pending =
      from_previous (λ p. p.pending)
        (record { functional = false; node_label = false; descriptor = false }) previous;
}

unfoldable pub note_label : Option ExportSlot → ExportSlot → ExportSlot
note_label none slot = slot
note_label (some p) slot = if text_eq (node_label p) (node_label slot) then slot else (record slot {
  versions = record slot.versions { bridged_info = next_version slot.versions.bridged_info };
  pending = record slot.pending { node_label = true };
})

unfoldable pub note_surface : Option ExportSlot → ExportSlot → ExportSlot
note_surface none slot = slot
note_surface (some p) slot = if same_surface p slot then slot else (record slot {
  versions = record slot.versions { desc = next_version slot.versions.desc };
  pending = record slot.pending { descriptor = true };
})

unfoldable pub rebuild : Export → ℕ → Option ExportSlot → Versions → ExportSlot
unfolding carried note_label note_surface
rebuild e matter_endpoint previous random =
    note_surface previous (note_label previous (carried e matter_endpoint previous random))

module _ (e : Export) (matter_endpoint : ℕ) (previous : Option ExportSlot) (random : Versions) where
  -- What a rebuilt slot is, whatever came before it.
  pub rebuild_identity :
      ((rebuild e matter_endpoint previous random).export_id ≡ e.export_id)
      × ((rebuild e matter_endpoint previous random).matter_endpoint ≡ matter_endpoint)
      × ((rebuild e matter_endpoint previous random).source ≡ e)
      × ((rebuild e matter_endpoint previous random).name ≡ e.name)
      × ((rebuild e matter_endpoint previous random).kind
          ≡ rebuild_kind e.type_ (slot_kind_of previous))
  unfolding rebuild
  rebuild_identity = ground arith
