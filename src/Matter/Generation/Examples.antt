-- ===== src/Matter/Generation/Examples.antt =====
-- The configuration generations of bridge/src/matter/export_plane.rs from a concrete state.
use thatsmatter.Base.{◌≡◌, refl}
use thatsmatter.Matter.Generation.{Shared, idle, loaded, here, next, request, load}
use thatsmatter.Matter.Generation.Progress.{OwnRun, requests_get_applied}

-- A second request has come after the thread's load.
abbrev waiting : Shared
waiting = record { config_requested = 2; config_applied = 0; bumped = 0; place = loaded 1 }

requests_get_applied_example :
    (t : Shared) × OwnRun waiting t × (t.config_applied ≡ 2) × (t.bumped ≡ 2) × (t.place ≡ idle)
requests_get_applied_example =
    requests_get_applied waiting
      (next (next (next here (request refl)) (load refl refl)) (request refl))
