-- ===== src/Ha/Models.antt =====
-- custom_components/thatsmatter/models.py and helpers.py: the exports that Home Assistant keeps,
-- and the checks of their fields. An id is a number in place of the canonical text of its UUID. A
-- `dict` of texts is the list of its entries in the order of their keys, since neither `==` nor the
-- bridge's `BTreeMap` sees another order. A `str` is the list of its code points, so that its `len`
-- is their count.
use thatsmatter.Base.{
  ℕ, ◌≡◌, refl, Bool, not, ◌&&◌, ◌||◌, List, [], ◌∷◌, ◌++◌, Option, some, leb, if◌then◌else◌, any,
  find, length, contains, find-test,
}
use mathlib.Core.List.{reverse}
use thatsmatter.Base.Text.{Text, codes, text_eq, text_eq→eq, is_empty, is_whitespace}
use thatsmatter.Catalog.Model.{Uuid, DeviceType}

pub record HaExport : Type 0 where
  pub export_id : Uuid
  pub name : Text
  pub type_ : Text
  pub primary_entity_id : Text
  pub linked : List (Text × Text)
  pub area_id : Option Text
  pub enabled : Bool
  pub endpoint_id : Option ℕ

-- The wire name of a device type, by the `rename_all` of `DeviceType`.
unfoldable pub wire_name : DeviceType → Text
wire_name DeviceType.light = codes "light"
wire_name DeviceType.on_off_switch = codes "on_off_switch"
wire_name DeviceType.on_off_plug = codes "on_off_plug"
wire_name DeviceType.outlet = codes "outlet"
wire_name DeviceType.contact = codes "contact"
wire_name DeviceType.motion = codes "motion"
wire_name DeviceType.cover = codes "cover"
wire_name DeviceType.garage = codes "garage"

abbrev all_types : List DeviceType
all_types =
    DeviceType.light ∷ DeviceType.on_off_switch ∷ DeviceType.on_off_plug ∷ DeviceType.outlet
    ∷ DeviceType.contact ∷ DeviceType.motion ∷ DeviceType.cover ∷ DeviceType.garage ∷ []

-- The device type that the bridge reads from a wire name.
unfoldable pub read_type : Text → Option DeviceType
unfolding wire_name
read_type t = find (λ d. text_eq (wire_name d) t) all_types

pub read_type-wire_name : (d : DeviceType) → read_type (wire_name d) ≡ some d
unfolding read_type wire_name
read_type-wire_name DeviceType.light = refl
read_type-wire_name DeviceType.on_off_switch = refl
read_type-wire_name DeviceType.on_off_plug = refl
read_type-wire_name DeviceType.outlet = refl
read_type-wire_name DeviceType.contact = refl
read_type-wire_name DeviceType.motion = refl
read_type-wire_name DeviceType.cover = refl
read_type-wire_name DeviceType.garage = refl

pub wire_name-read_type : (t : Text) (d : DeviceType) → read_type t ≡ some d → wire_name d ≡ t
unfolding read_type
wire_name-read_type t d h =
    text_eq→eq (wire_name d) t (find-test (λ x. text_eq (wire_name x) t) all_types d h)

-- `FIRST_SHIP_TYPES`.
abbrev first_ship_types : List Text
first_ship_types =
    codes "light"
    ∷ codes "on_off_switch"
    ∷ codes "on_off_plug"
    ∷ codes "outlet"
    ∷ codes "contact"
    ∷ codes "motion"
    ∷ codes "cover"
    ∷ codes "garage"
    ∷ []

unfoldable pub is_supported_type : Text → Bool
is_supported_type type_key = any (text_eq type_key) first_ship_types

-- `str.strip`: Python's spaces are Unicode's and four separators.
strip_start : Text → Text
unfolding is_whitespace
strip_start [] = []
strip_start (c ∷ s) =
    let rest = strip_start s in
    if is_whitespace c || (leb 0x1c c && leb c 0x1f) then rest else c ∷ s

unfoldable pub strip : Text → Text
unfolding strip_start
strip s = reverse (strip_start (reverse (strip_start s)))

-- The messages of `validate_export_fields`.
pub data FieldError : Type 0 where
  name_required name_too_long primary_not_valid role_empty linked_not_valid : FieldError
  unsupported_type : Text → FieldError

check : Bool → FieldError → List FieldError
check good e = if good then [] else e ∷ []

-- `"." in entity_id`.
abbrev pub has_dot : Text → Bool
has_dot entity_id = contains entity_id b'.'

linked_errors : List (Text × Text) → List FieldError
unfolding check
linked_errors [] = []
linked_errors ((role, eid) ∷ linked) =
    check (not (is_empty role)) role_empty
    ++ (check (has_dot eid) linked_not_valid ++ linked_errors linked)

unfoldable pub validate_export_fields : Text → Text → Text → List (Text × Text) → List FieldError
unfolding check linked_errors is_supported_type strip
validate_export_fields name type_key primary_entity_id linked =
    (if is_empty (strip name)
      then name_required ∷ []
      else check (leb (length name) 64) name_too_long)
    ++ (check (is_supported_type type_key) (unsupported_type type_key)
        ++ (check (has_dot primary_entity_id) primary_not_valid ++ linked_errors linked))
