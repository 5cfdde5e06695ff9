-- ===== src/Matter/Slot/Cover.antt =====
-- The stores of a slot of bridge/src/matter/export_plane.rs, and the range of a cover.
use thatsmatter.Base.{ℕ, ◌≤◌, ◌≡◌, Bool, false, some, arith, ◌↔◌, Option-cases, inl, inr}
use thatsmatter.Matter.WindowCovering.{CoverHaState}
use thatsmatter.Matter.Slot.{
  SlotKind, store_on, store_closed, store_occupied, apply_cover_ha, cover_command_open,
  cover_command_close, cover_command_stop, cover_command_position,
}

-- Every store of Home Assistant's state into a slot reports a change exactly when the slot's state
-- changed.
pub store_changes :
    (k : SlotKind) (value : Bool) (ha : CoverHaState)
    → (((store_on value k).1 ≡ false) ↔ ((store_on value k).0 ≡ k))
      × (((store_closed value k).1 ≡ false) ↔ ((store_closed value k).0 ≡ k))
      × (((store_occupied value k).1 ≡ false) ↔ ((store_occupied value k).0 ≡ k))
      × (((apply_cover_ha ha k).1 ≡ false) ↔ ((apply_cover_ha ha k).0 ≡ k))
unfolding store_on store_closed store_occupied apply_cover_ha
store_changes k value ha = (ground arith, ground arith, ground arith, ground arith)

-- A cover whose position and target are percentages.
abbrev pub InRange : SlotKind → Type 0
InRange (SlotKind.cover c) = (c.position ≤ 100) × (c.target ≤ 100)
InRange _ = Unit

apply-InRange :
    (k : SlotKind) (ha : CoverHaState)
    → ((q : ℕ) → ha.position ≡ some q → q ≤ 100)
    → InRange k
    → InRange (apply_cover_ha ha k).0
unfolding apply_cover_ha
apply-InRange k ha h r = elim (Option-cases ha.position) [
  | inl x ↦ ground arith
  | inr (q, x) ↦ ground (arith, h q)
]

-- Home Assistant's reports in range and all commands keep a cover's position and target at most
-- 100.
cover-InRange :
    (k : SlotKind) (ha : CoverHaState) (p : ℕ)
    → ((q : ℕ) → ha.position ≡ some q → q ≤ 100)
    → InRange k
    → InRange (apply_cover_ha ha k).0
      × InRange (cover_command_open k)
      × InRange (cover_command_close k)
      × InRange (cover_command_stop k)
      × InRange (cover_command_position p k)
unfolding apply_cover_ha cover_command_open cover_command_close cover_command_stop
    cover_command_position
cover-InRange k ha p h r =
    (apply-InRange k ha h r, ground arith, ground arith, ground arith, ground arith)
