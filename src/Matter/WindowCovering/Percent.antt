-- ===== src/Matter/WindowCovering/Percent.antt =====
-- The two scales of a cover's position: Home Assistant's 0 to 100, where 100 is open, and Matter's
-- 0 to 10000, where 0 is open.
use Prim.Native.Nat.{min}
use thatsmatter.Base.{ℕ, ◌+◌, ◌≤◌, ◌<◌, ◌≡◌, Bool, true, some, arith, ◌↔◌}
use thatsmatter.Catalog.Model.{HaStateValue}
use thatsmatter.Matter.WindowCovering.{
  ha_position_to_percent100ths, percent100ths_to_ha_position, operational_status, ValueReads,
  ha_cover_from_state,
}

-- A position that goes to Matter's scale comes back as it was, clamped to 100; a percentage that
-- goes to Home Assistant's scale comes back rounded up to the next 100, and both are in range.
pub percent_round_trip :
    (p q : ℕ)
    → q ≤ 10000
    → (percent100ths_to_ha_position (ha_position_to_percent100ths p) ≡ min p 100)
      × (ha_position_to_percent100ths p ≤ 10000)
      × (percent100ths_to_ha_position q ≤ 100)
      × (q ≤ ha_position_to_percent100ths (percent100ths_to_ha_position q))
      × (ha_position_to_percent100ths (percent100ths_to_ha_position q) < q + 100)
unfolding ha_position_to_percent100ths percent100ths_to_ha_position
percent_round_trip p q h = (omega arith, omega arith, omega arith, omega arith, omega arith)

-- What Home Assistant reports of a cover is in range, whatever the attributes hold.
pub cover_position-le :
    {V : Type 0} (reads : ValueReads V) (value : HaStateValue V) (p : ℕ)
    → (ha_cover_from_state reads value).position ≡ some p
    → p ≤ 100
unfolding ha_cover_from_state
cover_position-le reads value p h = ground arith

-- Both fields of the status say "opening" exactly when the cover moves and its target is a greater
-- percentage closed, and "closing" exactly when it moves and the target is a smaller one.
pub operational_status-direction :
    (position target : ℕ) (moving : Bool)
    → ((operational_status position target moving ≡ 5) ↔ ((moving ≡ true) × (position < target)))
      × ((operational_status position target moving ≡ 10) ↔ ((moving ≡ true) × (target < position)))
unfolding operational_status
operational_status-direction position target moving = ground arith
