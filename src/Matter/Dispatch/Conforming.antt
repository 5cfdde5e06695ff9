-- ===== src/Matter/Dispatch/Conforming.antt =====
-- The device types and the clusters that the endpoints of bridge/src/matter/export_plane.rs
-- declare, after a rebuild.
use thatsmatter.Base.{
  ℕ, ◌≡◌, refl, true, List, [], ◌∷◌, map, any, Option, ◌==◌, if◌then◌else◌, All, Option-cases, inl,
  inr, filter,
}
use thatsmatter.Catalog.Model.{Uuid, Export, DeviceType}
use thatsmatter.Matter.Ids.{ClusterId, boolean_state, window_covering, cluster_eq}
use thatsmatter.Matter.Slot.{Versions, SlotKind, ExportSlot}
use thatsmatter.Matter.Rebuild.{rebuild, rebuild_kind, rebuild_identity, slot_kind_of}
use thatsmatter.Matter.Plane.{
  ExportPlane, build_slots, rebuilt_slots, set_exports, usable_endpoint, sort_by_key,
}
use thatsmatter.Matter.OnOffMap.{is_matter_bridged_export}
use thatsmatter.Matter.Plane.Layout.{build_slots-nil, build_slots-skip, build_slots-use}
use thatsmatter.Matter.Dispatch.Metadata.{
  Declared, MatterDeviceType, Endpoint, Cluster, device_types, clusters, endpoint,
}

-- The cluster that the Matter Device Library requires of a device type, for the types of the
-- bridge.
abbrev pub required_cluster : ℕ → ClusterId
required_cluster dtype =
    if dtype == 0x0015
    then boolean_state
    else if dtype == 0x0107
    then ClusterId.occupancy
    else if dtype == 0x0202
    then window_covering
    else ClusterId.on_off

-- The first of the device types is one that the clusters serve.
abbrev pub Serves : List MatterDeviceType → List Cluster → Type 0
Serves [] served = ⊥
Serves (first ∷ rest) served =
    any (λ c. cluster_eq c.id (required_cluster first.dtype)) served ≡ true

module _ (declared : Declared) (light : declared.dev_type_on_off_light.dtype ≡ 0x0100) where
  rebuild_kind-Serves :
      (t : DeviceType) (previous : Option SlotKind)
      → Serves (device_types declared t) (clusters (rebuild_kind t previous))
  unfolding device_types clusters rebuild_kind
  rebuild_kind-Serves DeviceType.light previous = rw light refl
  rebuild_kind-Serves DeviceType.on_off_switch previous = refl
  rebuild_kind-Serves DeviceType.on_off_plug previous = refl
  rebuild_kind-Serves DeviceType.outlet previous = refl
  rebuild_kind-Serves DeviceType.contact previous = refl
  rebuild_kind-Serves DeviceType.motion previous = refl
  rebuild_kind-Serves DeviceType.cover previous = refl
  rebuild_kind-Serves DeviceType.garage previous = refl

  abbrev pub IsServed : Endpoint → Type 0
  IsServed e = Serves e.device_types e.clusters

  rebuild-IsServed :
      (e : Export) (n : ℕ) (previous : Option ExportSlot) (random : Versions)
      → IsServed (endpoint declared (rebuild e n previous random))
  unfolding endpoint
  rebuild-IsServed e n previous random =
      let (_, _, source, _, kind) = rebuild_identity e n previous random in
      rw (source, kind) (rebuild_kind-Serves e.type_ (slot_kind_of previous))

  build_slots-IsServed :
      (random : Uuid → Versions) (previous : List ExportSlot) (es : List Export) (taken : List ℕ)
      → All IsServed (map (endpoint declared) (build_slots random previous es taken))
  build_slots-IsServed random previous [] taken = rw (build_slots-nil random previous taken) tt
  build_slots-IsServed random previous (e ∷ es) taken =
      elim (Option-cases (usable_endpoint e taken)) [
        | inl n ↦
            rw (build_slots-skip random previous e es taken n)
              (build_slots-IsServed random previous es taken)
        | inr (m, u) ↦
            rw (build_slots-use random previous e es taken m u)
              (rebuild-IsServed e m _ _, build_slots-IsServed random previous es (m ∷ taken))
      ]

  -- After `set_exports` with any exports, the first device type of every bridged endpoint is one
  -- whose required cluster the endpoint has: boolean state for a contact sensor, occupancy sensing
  -- for an occupancy sensor, window covering for a window covering, and on-off for the others.
  pub set_exports-IsServed :
      (random : Uuid → Versions) (exports : List Export) (plane : ExportPlane)
      → All IsServed (map (endpoint declared) (set_exports random exports plane).slots)
  unfolding set_exports rebuilt_slots
  set_exports-IsServed random exports plane =
      build_slots-IsServed random plane.slots
        (sort_by_key (filter is_matter_bridged_export exports)) []
