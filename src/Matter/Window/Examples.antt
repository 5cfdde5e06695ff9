-- ===== src/Matter/Window/Examples.antt =====
-- The configuration generations of bridge/src/matter/export_plane.rs on concrete requests.
use thatsmatter.Base.{◌≤◌, ◌≡◌, refl, arith}
use thatsmatter.Matter.Generation.{
  Shared, idle, loaded, bumping, acknowledging, Reach, here, next, request, load, begin, bump, ack,
  start, no_lost_request,
}

abbrev settled : Shared
settled = record { config_requested = 2; config_applied = 1; bumped = 1; place = idle }

-- A request that comes while the first is bumped stays outstanding.
reached : Reach start settled
unfolding thatsmatter.Matter.Generation.acknowledge
reached =
    next
      (next
        (next
          (next (next (next here (request refl)) (load refl refl))
            (begin 1 refl (λ e. omega (arith, e)) refl))
          (request refl))
        (bump 1 refl refl))
      (ack 1 refl refl)

no_lost_request_example :
    (settled.config_applied ≤ settled.bumped)
    × (settled.bumped ≤ settled.config_requested)
    × (settled.config_requested ≡ settled.config_applied
        → settled.bumped ≡ settled.config_requested)
no_lost_request_example = no_lost_request settled reached
