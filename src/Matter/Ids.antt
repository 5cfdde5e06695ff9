-- ===== src/Matter/Ids.antt =====
-- The clusters and attributes of bridge/src/matter/export_plane.rs, whose ids rs-matter declares. A
-- cluster that the bridge does not serve is `other`.
use thatsmatter.Base.{ℕ, ◌+◌, ◌==◌, Bool}

pub data ClusterId : Type 0 where
  desc bridged_info on_off boolean_state occupancy window_covering : ClusterId
  other : ℕ → ClusterId

pub data AttrId : Type 0 where
  on_off state_value occupancy current_position_lift target_position_lift operational_status
        node_label device_type_list :
      AttrId

-- `==` on cluster ids.
abbrev cluster_tag : ClusterId → ℕ
cluster_tag desc = 0
cluster_tag bridged_info = 1
cluster_tag ClusterId.on_off = 2
cluster_tag boolean_state = 3
cluster_tag ClusterId.occupancy = 4
cluster_tag window_covering = 5
cluster_tag (other n) = n + 6

abbrev pub cluster_eq : ClusterId → ClusterId → Bool
cluster_eq a b = cluster_tag a == cluster_tag b
