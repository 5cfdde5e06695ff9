-- ===== src/Ha/Commands/Examples.antt =====
-- Commands of controllers on a concrete plane, and the calls that Home Assistant makes.
use thatsmatter.Base.{◌≡◌, ◌++◌, refl, [], ◌∷◌, some}
use thatsmatter.Base.Text.{codes}
use thatsmatter.Matter.Ids.{AttrId}
use thatsmatter.Matter.OnOffMap.{before_dot, ha_service_for_on_off}
use thatsmatter.Matter.Examples.{bridge, lamp_slot}
use thatsmatter.Matter.Plane.{slot_at}
use thatsmatter.Matter.Apply.{take_commands}
use thatsmatter.Matter.Dispatch.{invoke, to_on_off, OnOffCommand}
use thatsmatter.Ha.Examples.{home_exports, reading_lamp}
use thatsmatter.Ha.Commands.{ServiceCall, execute_all}
use thatsmatter.Ha.Commands.Reaches.{asked, invoke_reaches_ha}

invoke_reaches_ha_example :
    (c : ServiceCall) × (asked (to_on_off OnOffCommand.toggle) lamp_slot.kind (codes "light.lamp")
      ≡ some c)
    × (execute_all home_exports
          (take_commands (invoke 4 (to_on_off OnOffCommand.toggle) bridge).0).1
        ≡ execute_all home_exports bridge.commands ++ c ∷ [])
    × ((take_commands (invoke 4 (to_on_off OnOffCommand.toggle) bridge).0).0.commands ≡ [])
unfolding slot_at thatsmatter.Matter.Plane.set_exports
    thatsmatter.Matter.OnOffMap.is_matter_bridged_export thatsmatter.Matter.Rebuild.rebuild
    thatsmatter.Matter.Plane.slot_for thatsmatter.Matter.Plane.new invoke
    thatsmatter.Matter.Apply.apply_controller_on_off thatsmatter.Ha.Store.get
invoke_reaches_ha_example =
    invoke_reaches_ha 4 (to_on_off OnOffCommand.toggle) bridge lamp_slot (AttrId.on_off ∷ [])
      home_exports reading_lamp refl refl refl refl
