-- ===== src/Matter/Apply/Refused.antt =====
-- Controllers' writes of bridge/src/matter/export_plane.rs: what one that is refused and one that
-- is accepted do to the plane.
use thatsmatter.Base.{
  ℕ, ◌≡◌, refl, Bool, true, false, [], ◌∷◌, ◌++◌, Option, none, some, Option-cases, inl, inr,
}
use thatsmatter.Catalog.Model.{CommandKind, CommandRequest}
use thatsmatter.Matter.OnOffMap.{on_off_command}
use thatsmatter.Matter.Slot.{SlotKind, ExportSlot}
use thatsmatter.Matter.Plane.{ExportPlane, slot_at}
use thatsmatter.Matter.Apply.{
  apply_controller_on_off, on_off_found, apply_controller_cover, cover_found, cover_written,
  cover_kind, cover_request, command_position,
}

-- One command more in the queue, for the export of the slot at the endpoint.
pub record Queued (ep : ℕ) (plane plane' : ExportPlane) : Type 0 where
  pub slot : ExportSlot
  pub command : CommandRequest
  pub found : slot_at ep plane.slots ≡ some slot
  pub for_export : command.export_id ≡ slot.export_id
  pub queue : plane'.commands ≡ plane.commands ++ command ∷ []

-- A write is refused with nothing changed, or accepted with one command more.
pub data Applied (ep : ℕ) (plane : ExportPlane) (r : ExportPlane × Bool) : Type 0 where
  refused : r ≡ (plane, false) → Applied ep plane r
  accepted : r.1 ≡ true → Queued ep plane r.0 → Applied ep plane r

on_off_found-Applied :
    (ep : ℕ) (on : Bool) (plane : ExportPlane) (s : ExportSlot) (k : SlotKind)
    → slot_at ep plane.slots ≡ some s
    → s.kind ≡ k
    → Applied ep plane (on_off_found ep on (some s) plane)
unfolding on_off_found on_off_command
on_off_found-Applied ep on plane s (SlotKind.on_off b) found e =
    rw (e, on_off_found)
      (accepted refl (record {
        slot = s;
        command = on_off_command s.export_id on;
        found = found;
        for_export = refl;
        queue = refl;
      }))
on_off_found-Applied ep on plane s _ found e = rw (e, on_off_found) (refused refl)

pub on_off-Applied :
    (ep : ℕ) (on : Bool) (plane : ExportPlane)
    → Applied ep plane (apply_controller_on_off ep on plane)
unfolding apply_controller_on_off
on_off-Applied ep on plane = elim (Option-cases (slot_at ep plane.slots)) [
  | inl x ↦ rw x (refused refl)
  | inr (s, x) ↦ rw x (on_off_found-Applied ep on plane s s.kind x refl)
]

cover_written-Applied :
    (ep : ℕ) (kind : CommandKind) (p : Option ℕ) (plane : ExportPlane) (s : ExportSlot)
    (k : Option SlotKind)
    → slot_at ep plane.slots ≡ some s
    → Applied ep plane (cover_written ep kind p s k plane)
unfolding cover_written
cover_written-Applied ep kind p plane s none found = refused refl
cover_written-Applied ep kind p plane s (some k) found = accepted refl (record {
  slot = s;
  command = cover_request s.export_id kind (command_position kind p k);
  found = found;
  for_export = refl;
  queue = refl;
})

cover_found-Applied :
    (ep : ℕ) (kind : CommandKind) (p : Option ℕ) (plane : ExportPlane) (s : ExportSlot)
    (k : SlotKind)
    → slot_at ep plane.slots ≡ some s
    → s.kind ≡ k
    → Applied ep plane (cover_found ep kind p (some s) plane)
unfolding cover_found
cover_found-Applied ep kind p plane s (SlotKind.cover c) found e =
    rw (e, cover_found) (cover_written-Applied ep kind p plane s (cover_kind kind p s.kind) found)
cover_found-Applied ep kind p plane s _ found e = rw (e, cover_found) (refused refl)

pub cover-Applied :
    (ep : ℕ) (kind : CommandKind) (p : Option ℕ) (plane : ExportPlane)
    → Applied ep plane (apply_controller_cover ep kind p plane)
unfolding apply_controller_cover
cover-Applied ep kind p plane = elim (Option-cases (slot_at ep plane.slots)) [
  | inl x ↦ rw x (refused refl)
  | inr (s, x) ↦ rw x (cover_found-Applied ep kind p plane s s.kind x refl)
]
