-- ===== src/Ha/Commands.antt =====
-- The commands of Matter controllers in Home Assistant: `_async_execute_command` and the poll of
-- `_command_loop` in custom_components/thatsmatter/coordinator.py. The kind of a command is that
-- which `rename_all` gives the bridge's; a service call that fails is logged and dropped.
pub mod Reaches
pub mod Suggested
pub mod Examples
use Prim.Native.Nat.{min, max}
use thatsmatter.Base.{
  ℕ, ◌+◌, ◌*◌, ◌/◌, ◌≡◌, refl, Bool, true, false, List, [], ◌∷◌, Option, none, some, arith, leb,
  ltb, ◌==◌, if◌then◌else◌, filter_map,
}
use thatsmatter.Base.Text.{Text, codes, text_eq}
use thatsmatter.Catalog.Model.{Uuid, CommandKind, CommandRequest}
use thatsmatter.Matter.OnOffMap.{before_dot}
use thatsmatter.Ha.Models.{HaExport}
use thatsmatter.Ha.Store.{get}

pub record ServiceCall : Type 0 where
  pub domain : Text
  pub service : Text
  pub entity_id : Text
  pub brightness : Option ℕ
  pub position : Option ℕ

abbrev pub call : Text → Text → Text → ServiceCall
call domain service entity_id = record {
  domain = domain;
  service = service;
  entity_id = entity_id;
  brightness = none;
  position = none;
}

-- The quotient is rounded to the nearest; the one tie below 254, at 127, goes up to an even number.
unfoldable pub matter_level_to_ha_brightness : ℕ → ℕ
matter_level_to_ha_brightness level =
    if level == 0 then 0 else if leb 254 level then 255 else max 1 ((level * 255 * 2 + 254) / 508)

unfoldable pub ha_brightness_to_matter_level : ℕ → ℕ
ha_brightness_to_matter_level brightness =
    if brightness == 0
    then 0
    else if leb 255 brightness
    then 254
    else max 1 (brightness * 254 / 255)

-- `cmd.get("on", True)`, and `cmd.get(key) or 0`.
abbrev pub on_of : Option Bool → Bool
on_of none = true
on_of (some b) = b

abbrev pub number_of : Option ℕ → ℕ
number_of none = 0
number_of (some n) = n

unfoldable pub on_off_service : Text → Bool → Text
on_off_service domain on =
    if text_eq domain (codes "cover")
    then (if on then codes "open_cover" else codes "close_cover")
    else if on
    then codes "turn_on"
    else codes "turn_off"

level_call : Text → Text → ℕ → ServiceCall
level_call domain entity_id brightness =
    if brightness == 0
    then call domain (codes "turn_off") entity_id
    else record (call (codes "light") (codes "turn_on") entity_id) { brightness = some brightness }

-- The service call of a command for an entity.
unfoldable pub service_call : Text → CommandRequest → CommandKind → ServiceCall
unfolding on_off_service level_call matter_level_to_ha_brightness
service_call entity_id cmd CommandKind.on_off =
    call (before_dot entity_id) (on_off_service (before_dot entity_id) (on_of cmd.on)) entity_id
service_call entity_id cmd CommandKind.level =
    level_call (before_dot entity_id) entity_id
      (matter_level_to_ha_brightness (number_of cmd.level))
service_call entity_id cmd CommandKind.cover_position =
    record (call (codes "cover") (codes "set_cover_position") entity_id) {
      position = some (min 100 (number_of cmd.position));
    }
service_call entity_id cmd CommandKind.cover_open =
    call (codes "cover") (codes "open_cover") entity_id
service_call entity_id cmd CommandKind.cover_close =
    call (codes "cover") (codes "close_cover") entity_id
service_call entity_id cmd CommandKind.cover_stop =
    call (codes "cover") (codes "stop_cover") entity_id

-- `none` is a command that is ignored.
execute_found : CommandRequest → Option HaExport → Option ServiceCall
unfolding service_call
execute_found cmd none = none
execute_found cmd (some e) =
    if e.enabled then some (service_call e.primary_entity_id cmd cmd.kind) else none

unfoldable pub execute_command : List HaExport → CommandRequest → Option ServiceCall
unfolding execute_found get
execute_command exports cmd = execute_found cmd (get exports cmd.export_id)

-- The calls of one poll, in order.
unfoldable pub execute_all : List HaExport → List CommandRequest → List ServiceCall
unfolding execute_command
execute_all exports commands = filter_map (execute_command exports) commands
