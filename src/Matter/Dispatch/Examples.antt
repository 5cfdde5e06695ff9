-- ===== src/Matter/Dispatch/Examples.antt =====
-- The node and the handler of bridge/src/matter/export_plane.rs on concrete exports.
use thatsmatter.Base.{◌≡◌, ◌≢◌, refl, true, false, [], map, err, All}
use thatsmatter.Matter.Ids.{ClusterId}
use thatsmatter.Matter.Examples.{bridge, versions, exports}
use thatsmatter.Matter.Plane.{new, set_exports, aggregator_endpoint_id}
use thatsmatter.Matter.WindowCovering.{command_not_found}
use thatsmatter.Matter.Dispatch.{read, invoke, Invocation}
use thatsmatter.Matter.Dispatch.Metadata.{
  Declared, access, endpoint, endpoint_of, lists_cluster, lists_command, command_number,
}
use thatsmatter.Matter.Dispatch.Exact.{is_ok, metadata_exact}
use thatsmatter.Matter.Dispatch.Conforming.{IsServed, set_exports-IsServed}

abbrev declared : Declared
declared = record {
  root_endpoint = record { id = 0; device_types = []; clusters = [] };
  dev_type_aggregator = record { dtype = 0x000e; drev = 1 };
  dev_type_bridged_node = record { dtype = 0x0013; drev = 2 };
  dev_type_on_off_light = record { dtype = 0x0100; drev = 3 };
}

metadata_exact_example :
    ((cluster : ClusterId)
      → is_ok (read 4 cluster bridge)
        ≡ lists_cluster cluster (endpoint_of 4 (access declared bridge)))
    × (4 ≢ aggregator_endpoint_id
        → (i : Invocation)
        → (lists_command (command_number i) (endpoint_of 4 (access declared bridge)) ≡ true
            → (invoke 4 i bridge).1 ≢ err command_not_found)
          × (lists_command (command_number i) (endpoint_of 4 (access declared bridge)) ≡ false
              → ((invoke 4 i bridge).0 ≡ bridge) × (is_ok (invoke 4 i bridge).1 ≡ false)))
unfolding thatsmatter.Matter.Dispatch.matches
metadata_exact_example = metadata_exact declared 4 bridge refl refl

set_exports-IsServed_example :
    All
      (IsServed declared refl)
      (map (endpoint declared) (set_exports versions exports (new 0)).slots)
set_exports-IsServed_example = set_exports-IsServed declared refl versions exports (new 0)
