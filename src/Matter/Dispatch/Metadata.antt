-- ===== src/Matter/Dispatch/Metadata.antt =====
-- The node that a controller is told of: the endpoints with their device types and clusters, of
-- bridge/src/matter/export_plane.rs, with the cluster declarations of bridge/src/matter/clusters/
-- and the device types of bridge/src/matter/device_types.rs. The root endpoint and three device
-- types are rs-matter's: `Declared`.
use thatsmatter.Base.{ℕ, Bool, false, ◌&&◌, List, [], ◌∷◌, map, any, find, Option, none, some, ◌==◌}
use thatsmatter.Catalog.Model.{DeviceType}
use thatsmatter.Matter.Ids.{
  ClusterId, desc, bridged_info, boolean_state, window_covering, cluster_eq,
}
use thatsmatter.Matter.Slot.{SlotKind, ExportSlot}
use thatsmatter.Matter.Plane.{ExportPlane, aggregator_endpoint_id}
use thatsmatter.Matter.Dispatch.{
  off, on, toggle, off_with_effect, on_with_recall_global_scene, on_with_timed_off, up_or_open,
  down_or_close, stop_motion, go_to_lift_value, go_to_tilt_value, go_to_tilt_percentage,
  go_to_lift_percentage, Invocation, to_on_off, to_window_covering, to_other,
}

pub record MatterDeviceType : Type 0 where
  pub dtype : ℕ
  pub drev : ℕ

-- The commands of a cluster, by their numbers in the Matter specification of that cluster.
pub record Cluster : Type 0 where
  pub id : ClusterId
  pub commands : List ℕ

pub record Endpoint : Type 0 where
  pub id : ℕ
  pub device_types : List MatterDeviceType
  pub clusters : List Cluster

pub record Declared : Type 0 where
  pub root_endpoint : Endpoint
  pub dev_type_aggregator : MatterDeviceType
  pub dev_type_bridged_node : MatterDeviceType
  pub dev_type_on_off_light : MatterDeviceType

abbrev pub dev_type_on_off_plug_in_unit : MatterDeviceType
dev_type_on_off_plug_in_unit = record { dtype = 0x010a; drev = 3 }

abbrev pub dev_type_contact_sensor : MatterDeviceType
dev_type_contact_sensor = record { dtype = 0x0015; drev = 2 }

abbrev pub dev_type_occupancy_sensor : MatterDeviceType
dev_type_occupancy_sensor = record { dtype = 0x0107; drev = 4 }

abbrev pub dev_type_window_covering : MatterDeviceType
dev_type_window_covering = record { dtype = 0x0202; drev = 5 }

abbrev pub desc_cluster : Cluster
desc_cluster = record { id = desc; commands = [] }

abbrev pub bridged_info_cluster : Cluster
bridged_info_cluster = record { id = bridged_info; commands = [] }

abbrev off_command : ℕ
off_command = 0

abbrev on_command : ℕ
on_command = 1

abbrev toggle_command : ℕ
toggle_command = 2

abbrev pub on_off_cluster : Cluster
on_off_cluster = record {
  id = ClusterId.on_off;
  commands = off_command ∷ on_command ∷ toggle_command ∷ [];
}

abbrev pub boolean_state_cluster : Cluster
boolean_state_cluster = record { id = boolean_state; commands = [] }

abbrev pub occupancy_cluster : Cluster
occupancy_cluster = record { id = ClusterId.occupancy; commands = [] }

abbrev up_or_open_command : ℕ
up_or_open_command = 0

abbrev down_or_close_command : ℕ
down_or_close_command = 1

abbrev stop_motion_command : ℕ
stop_motion_command = 2

abbrev go_to_lift_percentage_command : ℕ
go_to_lift_percentage_command = 5

abbrev pub window_covering_cluster : Cluster
window_covering_cluster = record {
  id = window_covering;
  commands =
      up_or_open_command ∷ down_or_close_command ∷ stop_motion_command
      ∷ go_to_lift_percentage_command ∷ [];
}

unfoldable pub clusters : SlotKind → List Cluster
clusters (SlotKind.on_off value) = desc_cluster ∷ bridged_info_cluster ∷ on_off_cluster ∷ []
clusters (SlotKind.contact closed) =
    desc_cluster ∷ bridged_info_cluster ∷ boolean_state_cluster ∷ []
clusters (SlotKind.motion occupied) = desc_cluster ∷ bridged_info_cluster ∷ occupancy_cluster ∷ []
clusters (SlotKind.cover c) = desc_cluster ∷ bridged_info_cluster ∷ window_covering_cluster ∷ []

-- The number of a command in its cluster, by the Matter specification.
unfoldable pub command_number : Invocation → Option (ClusterId × ℕ)
command_number (to_on_off off) = some (ClusterId.on_off, 0)
command_number (to_on_off on) = some (ClusterId.on_off, 1)
command_number (to_on_off toggle) = some (ClusterId.on_off, 2)
command_number (to_on_off off_with_effect) = some (ClusterId.on_off, 64)
command_number (to_on_off on_with_recall_global_scene) = some (ClusterId.on_off, 65)
command_number (to_on_off on_with_timed_off) = some (ClusterId.on_off, 66)
command_number (to_window_covering up_or_open) = some (window_covering, 0)
command_number (to_window_covering down_or_close) = some (window_covering, 1)
command_number (to_window_covering stop_motion) = some (window_covering, 2)
command_number (to_window_covering go_to_lift_value) = some (window_covering, 4)
command_number (to_window_covering (go_to_lift_percentage p)) = some (window_covering, 5)
command_number (to_window_covering go_to_tilt_value) = some (window_covering, 7)
command_number (to_window_covering go_to_tilt_percentage) = some (window_covering, 8)
command_number to_other = none

module _ (declared : Declared) where
  unfoldable pub device_types : DeviceType → List MatterDeviceType
  device_types DeviceType.light =
      declared.dev_type_on_off_light ∷ declared.dev_type_bridged_node ∷ []
  device_types DeviceType.on_off_switch =
      dev_type_on_off_plug_in_unit ∷ declared.dev_type_bridged_node ∷ []
  device_types DeviceType.on_off_plug =
      dev_type_on_off_plug_in_unit ∷ declared.dev_type_bridged_node ∷ []
  device_types DeviceType.outlet =
      dev_type_on_off_plug_in_unit ∷ declared.dev_type_bridged_node ∷ []
  device_types DeviceType.contact = dev_type_contact_sensor ∷ declared.dev_type_bridged_node ∷ []
  device_types DeviceType.motion = dev_type_occupancy_sensor ∷ declared.dev_type_bridged_node ∷ []
  device_types DeviceType.cover = dev_type_window_covering ∷ declared.dev_type_bridged_node ∷ []
  device_types DeviceType.garage = dev_type_window_covering ∷ declared.dev_type_bridged_node ∷ []

  -- `ExportSlot::endpoint`.
  unfoldable pub endpoint : ExportSlot → Endpoint
  unfolding device_types clusters
  endpoint slot = record {
    id = slot.matter_endpoint;
    device_types = device_types slot.source.type_;
    clusters = clusters slot.kind;
  }

  abbrev pub aggregator : Endpoint
  aggregator = record {
    id = aggregator_endpoint_id;
    device_types = declared.dev_type_aggregator ∷ [];
    clusters = desc_cluster ∷ [];
  }

  -- `PlaneState::new`, and the node of `Metadata::access`.
  unfoldable pub access : ExportPlane → List Endpoint
  unfolding endpoint
  access plane = declared.root_endpoint ∷ aggregator ∷ map endpoint plane.slots

-- What a controller can find in a node.
unfoldable pub lists_cluster : ClusterId → Option Endpoint → Bool
lists_cluster cluster none = false
lists_cluster cluster (some e) = any (λ c. cluster_eq c.id cluster) e.clusters

unfoldable pub lists : Option (ClusterId × ℕ) → List Cluster → Bool
lists none clusters = false
lists (some (cluster, n)) clusters =
    any (λ c. cluster_eq c.id cluster && any (λ m. m == n) c.commands) clusters

unfoldable pub lists_command : Option (ClusterId × ℕ) → Option Endpoint → Bool
unfolding lists
lists_command command none = false
lists_command command (some e) = lists command e.clusters

unfoldable pub endpoint_of : ℕ → List Endpoint → Option Endpoint
endpoint_of n = find (λ e. e.id == n)
