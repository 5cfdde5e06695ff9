-- ===== src/Matter/Reports.antt =====
-- The reports that slots owe controllers and the data versions, in
-- bridge/src/matter/export_plane.rs.
pub mod Drain
use thatsmatter.Base.{
  ℕ, ◌+◌, ◌≡◌, refl, Bool, true, false, ◌&&◌, List, [], ◌∷◌, ◌++◌, map, Option, none, some, arith,
  ◌==◌, if◌then◌else◌,
}
use thatsmatter.Matter.Ids.{
  ClusterId, desc, bridged_info, boolean_state, window_covering, AttrId, state_value,
  current_position_lift, target_position_lift, operational_status, device_type_list, cluster_eq,
}
use thatsmatter.Matter.Slot.{
  SlotKind, Pending, Versions, ExportSlot, next_version, functional_cluster_id,
}
use thatsmatter.Matter.Plane.{ExportPlane, aggregator_endpoint_id}

pub record Report : Type 0 where
  pub endpoint : ℕ
  pub cluster : ClusterId
  pub attr : AttrId

functional_reports : ℕ → SlotKind → List Report
functional_reports ep (SlotKind.on_off on) =
    record { endpoint = ep; cluster = ClusterId.on_off; attr = AttrId.on_off } ∷ []
functional_reports ep (SlotKind.contact closed) =
    record { endpoint = ep; cluster = boolean_state; attr = state_value } ∷ []
functional_reports ep (SlotKind.motion occupied) =
    record { endpoint = ep; cluster = ClusterId.occupancy; attr = AttrId.occupancy } ∷ []
functional_reports ep (SlotKind.cover c) =
    record { endpoint = ep; cluster = window_covering; attr = current_position_lift }
    ∷ record { endpoint = ep; cluster = window_covering; attr = target_position_lift }
    ∷ record { endpoint = ep; cluster = window_covering; attr = operational_status }
    ∷ []

unfoldable pub slot_reports : ExportSlot → List Report
unfolding functional_reports
slot_reports slot =
    (if slot.pending.functional then functional_reports slot.matter_endpoint slot.kind else [])
    ++ (if slot.pending.node_label
        then record {
          endpoint = slot.matter_endpoint;
          cluster = bridged_info;
          attr = AttrId.node_label;
        }
          ∷ []
        else [])
    ++ (if slot.pending.descriptor
        then record { endpoint = slot.matter_endpoint; cluster = desc; attr = device_type_list }
          ∷ []
        else [])

unfoldable pub clear_pending : ExportSlot → ExportSlot
clear_pending slot = record slot {
  pending = record { functional = false; node_label = false; descriptor = false };
}

unfoldable pub all_reports : List ExportSlot → List Report
all_reports [] = []
all_reports (s ∷ slots) = slot_reports s ++ all_reports slots

unfoldable pub drain_reports : ExportPlane → ExportPlane × List Report
unfolding all_reports
drain_reports plane =
    (record plane { slots = map clear_pending plane.slots }, all_reports plane.slots)

-- `is_none_or(|e| e == id)`.
hits_endpoint : Option ℕ → ℕ → Bool
hits_endpoint none id = true
hits_endpoint (some e) id = e == id

hits_cluster : Option ClusterId → ClusterId → Bool
hits_cluster none id = true
hits_cluster (some c) id = cluster_eq c id

bump_if : Bool → ℕ → ℕ
bump_if hit version = if hit then next_version version else version

unfoldable pub bump_slot : Option ℕ → Option ClusterId → ExportSlot → ExportSlot
unfolding hits_endpoint hits_cluster bump_if
bump_slot endpoint cluster slot =
    if hits_endpoint endpoint slot.matter_endpoint
    then (record slot {
      versions = record {
        desc = bump_if (hits_cluster cluster desc) slot.versions.desc;
        bridged_info = bump_if (hits_cluster cluster bridged_info) slot.versions.bridged_info;
        functional =
            bump_if (hits_cluster cluster (functional_cluster_id slot.kind))
              slot.versions.functional;
      };
    })
    else slot

unfoldable pub bump_dataver : Option ℕ → Option ClusterId → ExportPlane → ExportPlane
unfolding bump_slot
bump_dataver endpoint cluster plane = record plane {
  aggregator_dataver =
      bump_if (hits_endpoint endpoint aggregator_endpoint_id && hits_cluster cluster desc)
        plane.aggregator_dataver;
  slots = map (bump_slot endpoint cluster) plane.slots;
}
