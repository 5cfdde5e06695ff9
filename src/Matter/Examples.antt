-- ===== src/Matter/Examples.antt =====
-- The Matter plane of bridge/src/matter/export_plane.rs and its clusters on concrete exports.
use thatsmatter.Base.{ℕ, ◌≤◌, ◌<◌, ◌≡◌, ◌≢◌, refl, true, false, List, [], ◌∷◌, none, some, arith}
use thatsmatter.Base.Text.{codes}
use thatsmatter.Catalog.Model.{Uuid, DeviceType, Export, HaStateValue}
use thatsmatter.Catalog.Examples.{lamp, lamp_body, all_good, plain, no_files, grown}
use thatsmatter.Catalog.Store.{list}
use thatsmatter.Catalog.Methods.Calls.{create_call, after_all, after_all-IsWellFormed}
use thatsmatter.Matter.Plane.Bridged.{Bridges, set_exports-Bridges}
use thatsmatter.Base.Map
use thatsmatter.Matter.Slot.{SlotKind, ExportSlot, Versions}
use thatsmatter.Matter.WindowCovering.{
  ValueReads, CoverHaState, CoverMotion, percent100ths_to_ha_position, ha_position_to_percent100ths,
}
use thatsmatter.Matter.WindowCovering.Percent.{percent_round_trip}
use thatsmatter.Matter.NodeLabel.{clamp_utf8, IsCut, clamp_utf8-IsCut}
use thatsmatter.Matter.Plane.{ExportPlane, new, set_exports, slot_for}
use thatsmatter.Matter.Plane.Layout.{Rising, set_exports-Rising}
use thatsmatter.Matter.Apply.{apply_slot, apply_state}
use thatsmatter.Matter.Apply.Shown.{Shown, Marked, apply_state-Shown}
use thatsmatter.Matter.Dispatch.{invoke, to_on_off, OnOffCommand}
use thatsmatter.Matter.Dispatch.Errors.{Outcome, invoke-Outcome}

abbrev pub versions : Uuid → Versions
versions id = record { desc = 1; bridged_info = 2; functional = 3 }

abbrev other_versions : Uuid → Versions
other_versions id = record { desc = 11; bridged_info = 12; functional = 13 }

abbrev blind : Export
blind = record lamp {
  export_id = 8;
  type_ = DeviceType.cover;
  primary_entity_id = codes "cover.blind";
  endpoint_id = some 1;
}

-- The exports of the catalog, out of the order of their endpoints.
abbrev pub exports : List Export
exports = lamp ∷ blind ∷ record lamp { export_id = 9; endpoint_id = some 3 } ∷ []

abbrev pub bridge : ExportPlane
bridge = set_exports versions exports (new 0)

-- JSON values that are numbers.
abbrev pub numbers : ValueReads ℕ
numbers = record { as_u64 = λ n. some n; as_f64_to_u64 = λ n. none; as_str = λ n. none }

abbrev lamp_on : HaStateValue ℕ
lamp_on = record { entity_id = codes "light.lamp"; state = codes "on"; attributes = [] }

abbrev blind_open : HaStateValue ℕ
blind_open = record {
  entity_id = codes "cover.blind";
  state = codes "opening";
  attributes = (codes "current_position", 120) ∷ [];
}

abbrev pub lamp_slot : ExportSlot
lamp_slot = record {
  export_id = 7;
  matter_endpoint = 4;
  name = codes "Lamp";
  kind = SlotKind.on_off false;
  source = lamp;
  versions = versions 7;
  pending = record { functional = false; node_label = false; descriptor = false };
}

set_exports-Rising_example : Rising 1 bridge.slots
set_exports-Rising_example = set_exports-Rising versions exports (new 0)

invoke-Outcome_example : Outcome 4 bridge (invoke 4 (to_on_off OnOffCommand.toggle) bridge)
invoke-Outcome_example = invoke-Outcome 4 (to_on_off OnOffCommand.toggle) bridge

abbrev lit : ExportPlane
lit = record (new 0) {
  slots = lamp_slot ∷ record lamp_slot { export_id = 9; matter_endpoint = 9 } ∷ [];
}

apply_state-Shown_example :
    (slot' : ExportSlot) × (slot_for 7 (apply_state numbers 7 (lamp_on ∷ []) lit).0.slots
      ≡ some slot')
    × Shown numbers lamp (lamp_on ∷ []) (SlotKind.on_off false) slot'.kind
    × Marked lamp_slot slot'
    × ((other : Uuid)
        → other ≢ 7
        → slot_for other (apply_state numbers 7 (lamp_on ∷ []) lit).0.slots
          ≡ slot_for other lit.slots)
unfolding slot_for new
apply_state-Shown_example = apply_state-Shown numbers (lamp_on ∷ []) 7 lit lamp_slot refl

-- The endpoint of the lamp is on then.
lamp_lit :
    slot_for 7 (apply_state numbers 7 (lamp_on ∷ []) lit).0.slots
    ≡ some (record lamp_slot {
      kind = SlotKind.on_off true;
      versions = record (versions 7) { functional = 4 };
      pending = record lamp_slot.pending { functional = true };
    })
unfolding slot_for new apply_state apply_slot thatsmatter.Matter.OnOffMap.on_off_from_states
    thatsmatter.Matter.OnOffMap.state_on thatsmatter.Matter.OnOffMap.primary_state
    thatsmatter.Matter.OnOffMap.ha_state_is_on thatsmatter.Matter.Slot.store_on
lamp_lit = refl

abbrev half_open : SlotKind
half_open = SlotKind.cover (record { position = 50; target = 50; moving = false })

abbrev rising : CoverHaState
rising = record { position = some 60; motion = CoverMotion.opening }

percent_round_trip_example :
    (percent100ths_to_ha_position (ha_position_to_percent100ths 130) ≡ 100)
    × (ha_position_to_percent100ths 130 ≤ 10000)
    × (percent100ths_to_ha_position 2550 ≤ 100)
    × (2550 ≤ ha_position_to_percent100ths (percent100ths_to_ha_position 2550))
    × (ha_position_to_percent100ths (percent100ths_to_ha_position 2550) < 2650)
percent_round_trip_example = percent_round_trip 130 2550 (omega arith)

clamp_utf8-IsCut_example :
    IsCut (0x4e2d ∷ 0x4e2d ∷ 0x4e2d ∷ []) (clamp_utf8 (0x4e2d ∷ 0x4e2d ∷ 0x4e2d ∷ []) 7) 7
clamp_utf8-IsCut_example = clamp_utf8-IsCut (0x4e2d ∷ 0x4e2d ∷ 0x4e2d ∷ []) 7

set_exports-Bridges_example :
    Bridges
      (record lamp { endpoint_id = some 1 })
      2
      (slot_for 7 bridge.slots)
      (set_exports versions (list grown) bridge).slots
unfolding after_all Map.get thatsmatter.Catalog.Methods.Calls.after
    thatsmatter.Catalog.Methods.create thatsmatter.Catalog.Methods.create_store
    thatsmatter.Catalog.Store.validate_export_fields thatsmatter.Catalog.Store.new
    thatsmatter.Catalog.Store.alloc_endpoint thatsmatter.Catalog.Alloc.alloc_search
    thatsmatter.Catalog.Store.used_endpoints thatsmatter.Catalog.Alloc.collect_set Map.values
    thatsmatter.Catalog.Alloc.alloc_loop thatsmatter.Catalog.Alloc.alloc_fuel
    thatsmatter.Catalog.Persist.persist Map.insert
    thatsmatter.Matter.OnOffMap.is_matter_bridged_export
set_exports-Bridges_example =
    set_exports-Bridges versions grown bridge (record lamp { endpoint_id = some 1 }) 1
      (after_all-IsWellFormed plain (codes "Home") no_files
        ((all_good, create_call lamp_body 1) ∷ []))
      refl refl refl (omega arith)
