-- ===== src/Matter/Apply/Echo.antt =====
-- Home Assistant's states in bridge/src/matter/export_plane.rs: what they store and what they
-- report.
use thatsmatter.Base.{
  ◌≡◌, ◌≢◌, refl, Bool, true, false, List, Option, none, some, arith, ◌==◌, length, Option-cases,
  Bool-cases, inl, inr, not, ◌↔◌, contains,
}
use thatsmatter.Catalog.Model.{Uuid, Export, HaStateValue}
use thatsmatter.Matter.OnOffMap.{on_off_from_states, primary_state}
use thatsmatter.Matter.WindowCovering.{
  ValueReads, CoverHaState, stopped, ha_cover_from_state, state_value_from_ha_on,
}
use thatsmatter.Matter.Slot.{
  SlotKind, ExportSlot, next_version, store_on, store_closed, store_occupied,
}
use thatsmatter.Matter.Slot.Cover.{store_changes}
use thatsmatter.Matter.Plane.{ExportPlane, slot_for}
use thatsmatter.Matter.Plane.Slots.{find-write_first, find-write_first_other, slot_for-id}
use thatsmatter.Matter.Apply.{
  apply_slot, apply_kind, store_known, cover_known, primary_ha_on, apply_state,
}

-- A pair of a new kind and a flag that says whether it is new.
abbrev Tells : SlotKind → SlotKind × Bool → Type 0
Tells k r = (r.1 ≡ false) ↔ (r.0 ≡ k)

store_known-Tells :
    (store : Bool → SlotKind → SlotKind × Bool) (o : Option Bool) (k : SlotKind)
    → ((v : Bool) → Tells k (store v k))
    → Tells k (store_known store o k)
unfolding store_known
store_known-Tells store none k h = (λ e. refl, λ e. refl)
store_known-Tells store (some v) k h = h v

cover_known-Tells :
    {V : Type 0} (reads : ValueReads V) (o : Option (HaStateValue V)) (k : SlotKind)
    → Tells k (cover_known reads o k)
unfolding cover_known
cover_known-Tells reads none k = (λ e. refl, λ e. refl)
cover_known-Tells reads (some st) k = (store_changes k true (ha_cover_from_state reads st)).3

abbrev at_rest : CoverHaState
at_rest = record { position = none; motion = stopped }

pub apply_kind-Tells :
    {V : Type 0} (reads : ValueReads V) (states : List (HaStateValue V)) (e : Export) (k : SlotKind)
    → Tells k (apply_kind reads e states k)
unfolding apply_kind
apply_kind-Tells reads states e (SlotKind.on_off on) =
    store_known-Tells store_on (on_off_from_states e states) (SlotKind.on_off on)
      (λ v. (store_changes (SlotKind.on_off on) v at_rest).0)
apply_kind-Tells reads states e (SlotKind.contact closed) =
    store_known-Tells (λ on. store_closed (state_value_from_ha_on on)) (primary_ha_on e states)
      (SlotKind.contact closed) (λ v. (store_changes (SlotKind.contact closed) (not v) at_rest).1)
apply_kind-Tells reads states e (SlotKind.motion occupied) =
    store_known-Tells store_occupied (primary_ha_on e states) (SlotKind.motion occupied)
      (λ v. (store_changes (SlotKind.motion occupied) v at_rest).2)
apply_kind-Tells reads states e (SlotKind.cover c) =
    cover_known-Tells reads (primary_state e states) (SlotKind.cover c)

module _ {V : Type 0} (reads : ValueReads V) (states : List (HaStateValue V)) where
  -- A slot into which states are applied is as it was, or its kind is another, its functional
  -- version has moved, and it owes a report.
  apply_slot_lem :
      (slot : ExportSlot)
      → (((apply_slot reads states slot).1 ≡ false) → ((apply_slot reads states slot).0 ≡ slot))
        × (((apply_slot reads states slot).1 ≡ true)
            → ((apply_slot reads states slot).0.kind ≢ slot.kind)
              × ((apply_slot reads states slot).0.pending.functional ≡ true)
              × ((apply_slot reads states slot).0.versions.functional
                  ≡ next_version slot.versions.functional))
  unfolding apply_slot
  apply_slot_lem slot =
      let tells = apply_kind-Tells reads states slot.source slot.kind in
      elim (Bool-cases (apply_kind reads slot.source states slot.kind).1) [
        | inl moved ↦ rw moved (λ x. cc, λ x. (λ same. cc (moved, tells.1 same), refl, refl))
        | inr still ↦ rw (still, tells.0 still) (λ x. refl, λ x. cc)
      ]

  apply_slot-id : (slot : ExportSlot) → (apply_slot reads states slot).0.export_id ≡ slot.export_id
  unfolding apply_slot
  apply_slot-id slot = ground arith

  -- Applying states raises no command for Home Assistant and leaves the counters and the window,
  -- and for an export that is not bridged the whole plane; the count returned is that of the states
  -- if the export is known, and 0 if it is neither known nor bridged.
  pub apply_state_lem :
      (id : Uuid) (plane : ExportPlane)
      → ((apply_state reads id states plane).0 ≡ record plane {
        slots = (apply_state reads id states plane).0.slots;
        changed = (apply_state reads id states plane).0.changed;
      })
        × ((slot_for id plane.slots ≡ none) → (apply_state reads id states plane).0 ≡ plane)
        × ((slot_for id plane.slots ≡ none)
            → (contains plane.known id ≡ false)
            → (apply_state reads id states plane).1 ≡ 0)
        × ((contains plane.known id ≡ true) → (apply_state reads id states plane).1 ≡ length states)
  unfolding apply_state
  apply_state_lem id plane = elim (Option-cases (slot_for id plane.slots)) [
    | inl x ↦ rw x (refl, λ h. refl, λ h k. rw k refl, λ h. rw h refl)
    | inr (s, x) ↦ rw x (refl, λ h. cc, λ h k. cc, λ h. refl)
  ]

  -- The slot of the export holds what its states say, and no other slot changes.
  pub apply_state-slot :
      (id : Uuid) (plane : ExportPlane) (slot : ExportSlot)
      → slot_for id plane.slots ≡ some slot
      → (slot_for id (apply_state reads id states plane).0.slots
          ≡ some (apply_slot reads states slot).0)
        × ((other : Uuid)
            → other ≢ id
            → slot_for other (apply_state reads id states plane).0.slots
              ≡ slot_for other plane.slots)
  unfolding apply_state slot_for
  apply_state-slot id plane slot x =
      let own = slot_for-id id plane.slots slot x in
      let new_own = apply_slot-id slot in
      rw x (
        find-write_first (λ s. s.export_id == id) slot (apply_slot reads states slot).0 plane.slots
            x (ground arith),
        λ other far.
            find-write_first_other (λ s. s.export_id == id) (λ s. s.export_id == other) slot
              (apply_slot reads states slot).0 plane.slots x (ground arith) (ground arith),
      )
