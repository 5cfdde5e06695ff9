-- ===== src/Matter/Reports/Drain.antt =====
-- Draining the reports of bridge/src/matter/export_plane.rs.
use thatsmatter.Base.{◌≡◌, refl, List, [], ◌∷◌, map}
use thatsmatter.Matter.Slot.{ExportSlot}
use thatsmatter.Matter.Plane.{ExportPlane}
use thatsmatter.Matter.Reports.{slot_reports, clear_pending, all_reports, drain_reports}

slot_reports-clear : (s : ExportSlot) → slot_reports (clear_pending s) ≡ []
unfolding slot_reports clear_pending
slot_reports-clear s = refl

all_reports-clear : (slots : List ExportSlot) → all_reports (map clear_pending slots) ≡ []
unfolding all_reports
all_reports-clear [] = refl
all_reports-clear (s ∷ slots) = rw (slot_reports-clear s, all_reports-clear slots) refl

-- A second drain right after the first reports nothing, and the drain leaves the queue, the
-- counters, and of each slot all but the pending bits.
pub drain_reports_twice :
    (plane : ExportPlane)
    → ((drain_reports (drain_reports plane).0).1 ≡ [])
      × ((drain_reports plane).0 ≡ record plane { slots = map clear_pending plane.slots })
unfolding drain_reports
drain_reports_twice plane = (all_reports-clear plane.slots, refl)
