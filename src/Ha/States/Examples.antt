-- ===== src/Ha/States/Examples.antt =====
-- A lamp that is switched on in Home Assistant.
use thatsmatter.Base.{ℕ, ◌≡◌, refl, true, [], some, none, if◌then◌else◌}
use thatsmatter.Base.Text.{codes, text_eq}
use thatsmatter.Catalog.Examples.{RawFile, saved, no_files, lamp}
use thatsmatter.Matter.Examples
use thatsmatter.Matter.Examples.{lamp_slot}
use thatsmatter.Matter.Plane.{slot_for}
use thatsmatter.Matter.Apply.{apply_slot}
use thatsmatter.Pairing.Examples.{known, fixed}
use thatsmatter.Ipc.{AppState}
use thatsmatter.RsMatter.{RsMatterBackend, new}
use thatsmatter.RsMatter.Backend.{rs_backend}
use thatsmatter.RsMatter.Examples.{answers}
use thatsmatter.Ha.Examples.{home_exports, reading_lamp}
use thatsmatter.Ha.States.{HomeStates, export_states, async_handle_state_event}
use thatsmatter.Ha.States.Reflected.{state_event_reflected}

abbrev bridged : AppState RawFile RsMatterBackend
bridged = record {
  catalog = record { store = saved; files = no_files };
  backend = record (new 0 fixed none known) { plane = Examples.bridge };
}

abbrev lit : HomeStates ℕ
lit = λ entity_id. if text_eq entity_id (codes "light.lamp") then some (codes "on", []) else none

state_event_reflected_example :
    slot_for 7
      (async_handle_state_event
        (rs_backend answers)
        (λ id. true)
        true
        lit
        home_exports
        (codes "light.lamp")
        bridged).backend.plane.slots
    ≡ some (apply_slot answers.reads (export_states lit reading_lamp) lamp_slot).0
unfolding thatsmatter.Ha.Store.get thatsmatter.Ha.Store.uses_entity thatsmatter.Catalog.Store.get
    thatsmatter.Base.Map.get slot_for thatsmatter.Matter.Plane.set_exports thatsmatter.RsMatter.new
    thatsmatter.Matter.OnOffMap.is_matter_bridged_export thatsmatter.Matter.Rebuild.rebuild
state_event_reflected_example =
    state_event_reflected RawFile answers (λ id. true) lit home_exports (codes "light.lamp") bridged
      reading_lamp (record lamp { endpoint_id = some 1 }) lamp_slot (codes "on", [])
      (refl, (refl, tt)) refl refl refl refl refl refl
