-- ===== src/Matter/OnOffMap.antt =====
-- bridge/src/matter/on_off_map.rs: what an entity's state says of on and off, and which exports are
-- bridged.
use thatsmatter.Base.{
  ◌≡◌, refl, Bool, true, false, ◌&&◌, List, [], ◌∷◌, Option, none, some, ◌==◌, if◌then◌else◌, any,
  find,
}
use thatsmatter.Base.Text.{Text, codes, text_eq, trim, to_ascii_lowercase}
use thatsmatter.Catalog.Model.{
  Uuid, DeviceType, is_on_off_capable, Export, HaStateValue, CommandKind, CommandRequest,
}

abbrev on_words : List Text
on_words = codes "on" ∷ codes "true" ∷ codes "1" ∷ codes "open" ∷ codes "home" ∷ codes "locked" ∷ []

abbrev off_words : List Text
off_words =
    codes "off"
    ∷ codes "false"
    ∷ codes "0"
    ∷ codes "closed"
    ∷ codes "not_home"
    ∷ codes "unlocked"
    ∷ []

word_is_on : Text → Option Bool
word_is_on w =
    if any (text_eq w) on_words
    then some true
    else if any (text_eq w) off_words
    then some false
    else none

unfoldable pub ha_state_is_on : Text → Option Bool
unfolding word_is_on trim to_ascii_lowercase
ha_state_is_on state = word_is_on (to_ascii_lowercase (trim state))

unfoldable pub on_off_command : Uuid → Bool → CommandRequest
on_off_command export_id on = record {
  export_id = export_id;
  kind = CommandKind.on_off;
  on = some on;
  level = none;
  position = none;
}

-- `find(|st| st.entity_id == export.primary_entity_id)`.
unfoldable pub primary_state :
    {V : Type 0} → Export → List (HaStateValue V) → Option (HaStateValue V)
primary_state e states = find (λ st. text_eq st.entity_id e.primary_entity_id) states

-- `and_then(|st| ha_state_is_on(&st.state))`.
unfoldable pub state_on : {V : Type 0} → Option (HaStateValue V) → Option Bool
state_on none = none
state_on (some st) = ha_state_is_on st.state

unfoldable pub on_off_from_states : {V : Type 0} → Export → List (HaStateValue V) → Option Bool
on_off_from_states e states =
    if is_on_off_capable e.type_ then state_on (primary_state e states) else none

unfoldable pub is_matter_on_off_export : Export → Bool
is_matter_on_off_export e = e.enabled && is_on_off_capable e.type_

bridged_type : DeviceType → Bool
bridged_type DeviceType.light = true
bridged_type DeviceType.on_off_switch = true
bridged_type DeviceType.on_off_plug = true
bridged_type DeviceType.outlet = true
bridged_type DeviceType.contact = true
bridged_type DeviceType.motion = true
bridged_type DeviceType.cover = true
bridged_type DeviceType.garage = true

unfoldable pub is_matter_bridged_export : Export → Bool
unfolding bridged_type
is_matter_bridged_export e = e.enabled && bridged_type e.type_

-- `split('.').next()`.
unfoldable pub before_dot : Text → Text
before_dot [] = []
before_dot (c ∷ s) = let rest = before_dot s in if c == b'.' then [] else c ∷ rest

unfoldable pub ha_service_for_on_off : Text → Bool → Text × Text
unfolding before_dot
ha_service_for_on_off entity_id on =
    let domain = before_dot entity_id in
    let service = if on then codes "turn_on" else codes "turn_off" in
    if text_eq domain (codes "light")
    then (codes "light", service)
    else if text_eq domain (codes "input_boolean")
    then (codes "input_boolean", service)
    else if text_eq domain (codes "cover")
    then (if on then (codes "cover", codes "open_cover") else (codes "cover", codes "close_cover"))
    else (codes "switch", service)

abbrev pub on_off_device_types : List DeviceType
on_off_device_types =
    DeviceType.light ∷ DeviceType.on_off_switch ∷ DeviceType.on_off_plug ∷ DeviceType.outlet ∷ []

locked_is_on : ha_state_is_on (codes " Locked") ≡ some true
unfolding ha_state_is_on
locked_is_on = refl

opens_cover : ha_service_for_on_off (codes "cover.blind") true ≡ (codes "cover", codes "open_cover")
unfolding ha_service_for_on_off
opens_cover = refl
