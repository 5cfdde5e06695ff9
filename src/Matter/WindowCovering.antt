-- ===== src/Matter/WindowCovering.antt =====
-- bridge/src/matter/clusters/window_covering.rs, boolean_state.rs and occupancy.rs: the mappings
-- between Home Assistant's values and the clusters' attributes. The bit sets of rs-matter are
-- numbers.
pub mod Percent
use Prim.Native.Nat.{min}
use thatsmatter.Base.{
  ℕ, zero, suc, ◌+◌, ◌-◌, ◌*◌, ◌/◌, ◌%◌, ◌≡◌, refl, Bool, true, false, not, ◌&&◌, ◌||◌, List, [],
  ◌∷◌, Option, none, some, arith, ltb, leb, ◌==◌, if◌then◌else◌, find, Result, ok, err,
}
use thatsmatter.Base.Text.{Text, codes, text_eq, trim, to_ascii_lowercase}
use thatsmatter.Catalog.Model.{HaStateValue}

unfoldable pub ha_position_to_percent100ths : ℕ → ℕ
ha_position_to_percent100ths ha_position = (100 - min ha_position 100) * 100

-- `as u8` keeps the low byte.
unfoldable pub percent100ths_to_ha_position : ℕ → ℕ
percent100ths_to_ha_position percent100ths = ((10000 - min percent100ths 10000) / 100) % 256

pub data ErrorCode : Type 0 where
  constraint_error endpoint_not_found attribute_not_found cluster_not_found command_not_found :
      ErrorCode

unfoldable pub validate_lift_percent100ths : ℕ → Result ErrorCode ℕ
validate_lift_percent100ths percent100ths =
    if ltb 10000 percent100ths then err constraint_error else ok percent100ths

-- Two-bit fields: bits 0 and 1 global, bits 2 and 3 lift; 1 opens, 2 closes.
unfoldable pub operational_status : ℕ → ℕ → Bool → ℕ
operational_status position target moving =
    if not moving || position == target
    then 0
    else if ltb position target
    then 1 + 1 * 4
    else 2 + 2 * 4

pub data CoverType : Type 0 where
  shutter roller_shade : CoverType

pub data EndProductType : Type 0 where
  roller_shutter roller_shade : EndProductType

unfoldable pub cover_type : Bool → CoverType
cover_type is_garage = if is_garage then CoverType.shutter else CoverType.roller_shade

unfoldable pub end_product_type : Bool → EndProductType
end_product_type is_garage =
    if is_garage then EndProductType.roller_shutter else EndProductType.roller_shade

-- A mode is the number of its bits.
abbrev pub mode : ℕ
mode = 0

unfoldable pub accept_mode_write : ℕ → Result ErrorCode (Unit {0})
accept_mode_write value = if value == 0 then ok tt else err constraint_error

pub data CoverMotion : Type 0 where
  stopped opening closing : CoverMotion

pub record CoverHaState : Type 0 where
  pub position : Option ℕ
  pub motion : CoverMotion

-- `str::parse::<u64>`: decimal digits behind an optional plus, and an error on overflow.
parse_digits : ℕ → Text → Option ℕ
parse_digits n [] = some n
parse_digits n (c ∷ s) =
    let next = n * 10 + (c - b'0') in
    if leb b'0' c && leb c b'9' && ltb next 18446744073709551616 then parse_digits next s else none

parse_unsigned : Text → Option ℕ
parse_unsigned [] = none
parse_unsigned (c ∷ s) = parse_digits 0 (c ∷ s)

parse_u64 : Text → Option ℕ
unfolding parse_digits parse_unsigned
parse_u64 [] = none
parse_u64 (c ∷ s) = if c == b'+' then parse_unsigned s else parse_unsigned (c ∷ s)

-- serde_json's readings of a value; `as_f64` is followed by the cast to `u64`.
pub record ValueReads (V : Type 0) : Type 0 where
  pub as_u64 : V → Option ℕ
  pub as_f64_to_u64 : V → Option ℕ
  pub as_str : V → Option Text

-- `or_else`.
abbrev or_else : {A : Type 0} → Option A → Option A → Option A
or_else none o = o
or_else (some a) o = some a

parsed_str : Option Text → Option ℕ
unfolding parse_u64
parsed_str none = none
parsed_str (some s) = parse_u64 s

module _ {V : Type 0} (reads : ValueReads V) where
  numeric : Option (Text × V) → Option ℕ
  unfolding parsed_str
  numeric none = none
  numeric (some (k, v)) =
      or_else (or_else (reads.as_u64 v) (reads.as_f64_to_u64 v)) (parsed_str (reads.as_str v))

  motion_of : Text → CoverMotion
  motion_of w =
      if text_eq w (codes "opening")
      then opening
      else if text_eq w (codes "closing")
      then closing
      else stopped

  position_of : Text → Option ℕ
  position_of w =
      if text_eq w (codes "open")
      then some 100
      else if text_eq w (codes "closed")
      then some 0
      else none

  at_most_100 : Option ℕ → Option ℕ
  at_most_100 none = none
  at_most_100 (some n) = some (min n 100)

  unfoldable pub ha_cover_from_state : HaStateValue V → CoverHaState
  unfolding numeric motion_of position_of at_most_100
  ha_cover_from_state value =
      let w = to_ascii_lowercase (trim value.state) in
      record {
        position =
            or_else
              (at_most_100
                (numeric (find (λ a. text_eq a.0 (codes "current_position")) value.attributes)))
              (position_of w);
        motion = motion_of w;
      }

-- boolean_state.rs: a contact is closed when Home Assistant's sensor is not on.
unfoldable pub state_value_from_ha_on : Bool → Bool
state_value_from_ha_on ha_on = not ha_on

-- occupancy.rs: bit 0 is Occupied.
unfoldable pub occupancy_bitmap : Bool → ℕ
occupancy_bitmap occupied = if occupied then 1 else 0
