-- ===== src/Catalog/Model.antt =====
-- bridge/src/catalog/model.rs: the types that the catalog, the Matter plane and the control plane
-- exchange. An id is a number in place of a 128-bit UUID, in the same order. The type of the
-- values of a JSON object is the parameter `V`.
use thatsmatter.Base.{ℕ, Option, Bool, true, false, List}
use thatsmatter.Base.Text.{Text}

abbrev pub Uuid : Type 0
Uuid = ℕ

pub data DeviceType : Type 0 where
  light on_off_switch on_off_plug outlet contact motion cover garage : DeviceType

abbrev pub is_on_off_capable : DeviceType → Bool
is_on_off_capable DeviceType.light = true
is_on_off_capable DeviceType.on_off_switch = true
is_on_off_capable DeviceType.on_off_plug = true
is_on_off_capable DeviceType.outlet = true
is_on_off_capable _ = false

pub record Export : Type 0 where
  pub export_id : Uuid
  pub name : Text
  pub type_ : DeviceType
  pub primary_entity_id : Text
  pub linked : List (Text × Text)
  pub area_id : Option Text
  pub enabled : Bool
  pub endpoint_id : Option ℕ

pub record CatalogSnapshot : Type 0 where
  pub bridge_name : Text
  pub exports : List Export

pub record PairingMaterial : Type 0 where
  pub setup_code : Text
  pub qr_payload : Text
  pub discriminator : ℕ
  pub passcode : ℕ

pub record HaStateValue (V : Type 0) : Type 0 where
  pub entity_id : Text
  pub state : Text
  pub attributes : List (Text × V)

pub data CommandKind : Type 0 where
  on_off level cover_position cover_open cover_close cover_stop : CommandKind

pub record CommandRequest : Type 0 where
  pub export_id : Uuid
  pub kind : CommandKind
  pub on : Option Bool
  pub level : Option ℕ
  pub position : Option ℕ
