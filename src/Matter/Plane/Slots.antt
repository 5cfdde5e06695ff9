-- ===== src/Matter/Plane/Slots.antt =====
-- Searches and writes in the slot table of bridge/src/matter/export_plane.rs.
use thatsmatter.Base.{
  ℕ, ◌≡◌, ap, Bool, true, false, List, [], ◌∷◌, some, arith, find, Bool-cases, inl, inr,
}
use thatsmatter.Matter.Slot.{ExportSlot}
use thatsmatter.Matter.Plane.{slot_at, slot_for, write_first}

module _ (p : ExportSlot → Bool) where
  -- Writing back what was found changes nothing.
  pub write_first_found :
      (s : ExportSlot) (slots : List ExportSlot)
      → find p slots ≡ some s
      → write_first p s slots ≡ slots
  unfolding write_first
  write_first_found s [] h = cc
  write_first_found s (x ∷ slots) h = elim (Bool-cases (p x)) [
    | inl here ↦ rw here (ground arith)
    | inr there ↦ rw there (ap (◌∷◌ x) (write_first_found s slots (ground arith)))
  ]

  pub find-write_first :
      (s t : ExportSlot) (slots : List ExportSlot)
      → find p slots ≡ some s
      → p t ≡ true
      → find p (write_first p t slots) ≡ some t
  unfolding write_first
  find-write_first s t [] h q = cc
  find-write_first s t (x ∷ slots) h q = ground (arith, find-write_first s t slots)

  -- A search that neither the old nor the new slot answers finds what it found.
  pub find-write_first_other :
      (r : ExportSlot → Bool) (s t : ExportSlot) (slots : List ExportSlot)
      → find p slots ≡ some s
      → r s ≡ false
      → r t ≡ false
      → find r (write_first p t slots) ≡ find r slots
  unfolding write_first
  find-write_first_other r s t [] h a b = cc
  find-write_first_other r s t (x ∷ slots) h a b = elim (Bool-cases (p x)) [
    | inl here ↦ let e : x ≡ s = ground arith in rw (here, e) (ground arith)
    | inr there ↦ rw there (ground (arith, find-write_first_other r s t slots (ground arith) a b))
  ]

pub slot_at-endpoint :
    (ep : ℕ) (slots : List ExportSlot) (s : ExportSlot)
    → slot_at ep slots ≡ some s
    → s.matter_endpoint ≡ ep
unfolding slot_at
slot_at-endpoint ep [] s h = cc
slot_at-endpoint ep (x ∷ slots) s h = ground (arith, slot_at-endpoint ep slots s)

pub slot_for-id :
    (id : ℕ) (slots : List ExportSlot) (s : ExportSlot)
    → slot_for id slots ≡ some s
    → s.export_id ≡ id
unfolding slot_for
slot_for-id id [] s h = cc
slot_for-id id (x ∷ slots) s h = ground (arith, slot_for-id id slots s)
