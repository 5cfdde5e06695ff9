-- ===== src/Matter/Dispatch/Exact.antt =====
-- The node that bridge/src/matter/export_plane.rs declares against what its handler serves.
use thatsmatter.Base.{
  ℕ, ◌≡◌, ◌≢◌, refl, Bool, true, false, List, [], ◌∷◌, map, any, Option, none, some, arith, ◌==◌,
  ltb, inl, inr, ap, Result, ok, err, Bool-cases,
}
use thatsmatter.Matter.Ids.{ClusterId, desc, AttrId, bridged_info, other, cluster_eq}
use thatsmatter.Matter.WindowCovering.{command_not_found, validate_lift_percent100ths}
use thatsmatter.Matter.Slot.{SlotKind, ExportSlot}
use thatsmatter.Matter.Plane.{ExportPlane, slot_at, aggregator_endpoint_id}
use thatsmatter.Matter.Dispatch.{
  read, invoke, matches, OnOffCommand, CoverCommand, Invocation, to_on_off, to_window_covering,
  to_other, serve_slot, serve_functional, serve_found, serve_aggregator, invoke_slot, invoke_found,
  handle_on_off, handle_cover, off, on, toggle, up_or_open, down_or_close, stop_motion,
  go_to_lift_percentage, set, reported, apply_motion_command, go_to, Invoked,
}
use thatsmatter.Matter.Dispatch.Metadata.{
  Declared, Endpoint, aggregator, endpoint, access, clusters, lists_cluster, lists, lists_command,
  command_number, endpoint_of,
}

abbrev pub is_ok : {E A : Type 0} → Result E A → Bool
is_ok (ok a) = true
is_ok (err e) = false

serve_functional-listed :
    (cluster : ClusterId) (slot : ExportSlot) (k : SlotKind)
    → is_ok (serve_slot cluster (record slot { kind = k }))
      ≡ any (λ c. cluster_eq c.id cluster) (clusters k)
unfolding clusters serve_slot serve_functional
serve_functional-listed desc slot k = ground arith
serve_functional-listed bridged_info slot k = ground arith
serve_functional-listed (other n) slot k = ground arith
serve_functional-listed cluster slot k = ground arith

abbrev Agrees : Bool → ExportPlane → Invoked → Type 0
Agrees listed plane r =
    (listed ≡ true → r.1 ≢ err command_not_found)
    × (listed ≡ false → r ≡ (plane, err command_not_found))

reported-known :
    (attrs : List AttrId) (r : ExportPlane × Bool) → (reported attrs r).1 ≢ err command_not_found
unfolding reported
reported-known attrs (plane, true) h = ground (arith, h)
reported-known attrs (plane, false) h = ground (arith, h)

go_to-known :
    (p : ℕ) (slot : ExportSlot) (plane : ExportPlane)
    → (go_to (validate_lift_percent100ths p) slot plane).1 ≢ err command_not_found
unfolding go_to validate_lift_percent100ths
go_to-known p slot plane h = elim (Bool-cases (ltb 10000 p)) [
  | inl t ↦ ground (arith, rw t at h)
  | inr f ↦ reported-known _ _ (rw f at h)
]

on_off-Agrees :
    (c : OnOffCommand) (slot : ExportSlot) (k : SlotKind) (plane : ExportPlane)
    → Agrees
        (lists (command_number (to_on_off c)) (clusters k))
        plane
        (invoke_slot (to_on_off c) slot k plane)
unfolding clusters lists command_number invoke_slot handle_on_off set
on_off-Agrees off slot (SlotKind.on_off v) plane =
    (λ l. reported-known _ _, λ l. absurd (ground (arith, l)))
on_off-Agrees on slot (SlotKind.on_off v) plane =
    (λ l. reported-known _ _, λ l. absurd (ground (arith, l)))
on_off-Agrees toggle slot (SlotKind.on_off v) plane =
    (λ l. reported-known _ _, λ l. absurd (ground (arith, l)))
on_off-Agrees c slot k plane = ground arith

cover-Agrees :
    (c : CoverCommand) (slot : ExportSlot) (k : SlotKind) (plane : ExportPlane)
    → Agrees
        (lists (command_number (to_window_covering c)) (clusters k))
        plane
        (invoke_slot (to_window_covering c) slot k plane)
unfolding clusters lists command_number invoke_slot handle_cover apply_motion_command
cover-Agrees up_or_open slot (SlotKind.cover v) plane =
    (λ l. reported-known _ _, λ l. absurd (ground (arith, l)))
cover-Agrees down_or_close slot (SlotKind.cover v) plane =
    (λ l. reported-known _ _, λ l. absurd (ground (arith, l)))
cover-Agrees stop_motion slot (SlotKind.cover v) plane =
    (λ l. reported-known _ _, λ l. absurd (ground (arith, l)))
cover-Agrees (go_to_lift_percentage p) slot (SlotKind.cover v) plane =
    (λ l. go_to-known p slot plane, λ l. absurd (ground (arith, l)))
cover-Agrees c slot k plane = ground arith

invoke_slot-Agrees :
    (i : Invocation) (slot : ExportSlot) (k : SlotKind) (plane : ExportPlane)
    → Agrees (lists (command_number i) (clusters k)) plane (invoke_slot i slot k plane)
unfolding command_number lists invoke_slot
invoke_slot-Agrees (to_on_off c) slot k plane = on_off-Agrees c slot k plane
invoke_slot-Agrees (to_window_covering c) slot k plane = cover-Agrees c slot k plane
invoke_slot-Agrees to_other slot k plane = ground arith

module _ (declared : Declared) where
  declared_slot : Option ExportSlot → Option Endpoint
  declared_slot none = none
  declared_slot (some s) = some (endpoint declared s)

  find-map :
      (n : ℕ) (slots : List ExportSlot)
      → endpoint_of n (map (endpoint declared) slots) ≡ declared_slot (slot_at n slots)
  unfolding endpoint_of slot_at endpoint declared_slot
  find-map n [] = refl
  find-map n (s ∷ slots) = elim (Bool-cases (s.matter_endpoint == n)) [
    | inl t ↦ rw t refl
    | inr f ↦ rw f (find-map n slots)
  ]

  endpoint_of-access :
      (n : ℕ) (plane : ExportPlane)
      → declared.root_endpoint.id ≡ 0
      → matches (some n) ≡ true
      → n ≢ aggregator_endpoint_id
      → endpoint_of n (access declared plane) ≡ declared_slot (slot_at n plane.slots)
  unfolding endpoint_of access matches
  endpoint_of-access n plane r m d =
      let not_root : (declared.root_endpoint.id == n) ≡ false = rw r (ground (arith, m)) in
      let not_aggregator : (aggregator_endpoint_id == n) ≡ false = ground (arith, d) in
      rw (not_root, not_aggregator) (find-map n plane.slots)

  slot-listed :
      (cluster : ClusterId) (slot : Option ExportSlot)
      → is_ok (serve_found cluster slot) ≡ lists_cluster cluster (declared_slot slot)
  unfolding serve_found lists_cluster declared_slot endpoint
  slot-listed cluster none = refl
  slot-listed cluster (some s) = serve_functional-listed cluster s s.kind

  found-listed :
      (i : Invocation) (slot : Option ExportSlot) (plane : ExportPlane)
      → (lists_command (command_number i) (declared_slot slot) ≡ true
          → (invoke_found i slot plane).1 ≢ err command_not_found)
        × (lists_command (command_number i) (declared_slot slot) ≡ false
            → ((invoke_found i slot plane).0 ≡ plane)
              × (is_ok (invoke_found i slot plane).1 ≡ false))
  unfolding invoke_found lists_command declared_slot endpoint
  found-listed i none plane = (λ l. absurd (ground (arith, l)), λ l. (refl, refl))
  found-listed i (some s) plane =
      let agrees = invoke_slot-Agrees i s s.kind plane in
      (agrees.0, λ l. (ap (λ r. r.0) (agrees.1 l), ap (λ r. is_ok r.1) (agrees.1 l)))

  aggregator-listed :
      (cluster : ClusterId) (dataver : ℕ)
      → is_ok (serve_aggregator cluster dataver)
        ≡ lists_cluster cluster (some (aggregator declared))
  unfolding serve_aggregator lists_cluster
  aggregator-listed cluster dataver = ground arith

  endpoint_of-aggregator :
      (plane : ExportPlane)
      → declared.root_endpoint.id ≡ 0
      → endpoint_of aggregator_endpoint_id (access declared plane) ≡ some (aggregator declared)
  unfolding endpoint_of access
  endpoint_of-aggregator plane r = rw r refl

  read-listed :
      (cluster : ClusterId) (n : ℕ) (plane : ExportPlane)
      → declared.root_endpoint.id ≡ 0
      → matches (some n) ≡ true
      → is_ok (read n cluster plane) ≡ lists_cluster cluster (endpoint_of n (access declared plane))
  unfolding read serve_found
  read-listed cluster n plane r m = elim (Bool-cases (n == aggregator_endpoint_id)) [
    | inl t ↦
        let same : n ≡ aggregator_endpoint_id = ground (arith, t) in
        rw (same, endpoint_of-aggregator plane r)
          (aggregator-listed cluster plane.aggregator_dataver)
    | inr f ↦
        rw (f, endpoint_of-access n plane r m (λ h. ground (arith, f, h)))
          (slot-listed cluster (slot_at n plane.slots))
  ]

  -- What the node says of an endpoint other than the root is exactly what its handler does,
  -- whatever the plane: a cluster can be read there exactly if the node lists it, and, but for the
  -- aggregator, a command that the node lists is never answered with "command not found", and one
  -- that it does not list fails and changes nothing.
  pub metadata_exact :
      (n : ℕ) (plane : ExportPlane)
      → declared.root_endpoint.id ≡ 0
      → matches (some n) ≡ true
      → ((cluster : ClusterId)
          → is_ok (read n cluster plane)
            ≡ lists_cluster cluster (endpoint_of n (access declared plane)))
        × (n ≢ aggregator_endpoint_id
            → (i : Invocation)
            → (lists_command (command_number i) (endpoint_of n (access declared plane)) ≡ true
                → (invoke n i plane).1 ≢ err command_not_found)
              × (lists_command (command_number i) (endpoint_of n (access declared plane)) ≡ false
                  → ((invoke n i plane).0 ≡ plane) × (is_ok (invoke n i plane).1 ≡ false)))
  unfolding invoke
  metadata_exact n plane r m = (
    λ cluster. read-listed cluster n plane r m,
    λ d i. rw (endpoint_of-access n plane r m d) (found-listed i (slot_at n plane.slots) plane),
  )
