-- ===== src/Ha/Manager.antt =====
-- custom_components/thatsmatter/export_manager.py: what the user's edits store, up to the push of the
-- catalog that follows. What Home Assistant knows of an entity is an argument.
pub mod Curated
pub mod Renamed
pub mod Examples
use thatsmatter.Base.{
  ℕ, zero, suc, ◌≡◌, refl, Bool, true, false, not, ◌&&◌, ◌||◌, List, [], ◌∷◌, Option, none, some,
  ◌==◌, if◌then◌else◌, any, Result, ok, err,
}
use thatsmatter.Base.Text.{Text, codes, text_eq, is_empty, to_ascii_lowercase}
use thatsmatter.Catalog.Model.{Uuid}
use thatsmatter.Matter.OnOffMap.{before_dot}
use thatsmatter.Ha.Models.{
  HaExport, FieldError, has_dot, is_supported_type, strip, validate_export_fields,
}
use thatsmatter.Ha.Store.{ExportStore, get, async_upsert, async_delete}

-- The messages of `HomeAssistantError`.
pub data EditError : Type 0 where
  already_exported : Text → EditError
  not_exportable unsupported export_not_found : EditError
  not_valid : List FieldError → EditError

-- What Home Assistant knows of an entity: its state's name and class, and its area.
pub record Entity : Type 0 where
  pub friendly_name : Option Text
  pub device_class : Option Text
  pub area_id : Option Text

unfoldable pub domain_from_entity_id : Text → Text
unfolding before_dot
domain_from_entity_id entity_id = if has_dot entity_id then before_dot entity_id else []

one_of : List Text → Text → Bool
one_of words w = any (text_eq w) words

-- No letter but an ASCII one lowers to a letter of these words.
class_in : List Text → Option Text → Bool
unfolding one_of to_ascii_lowercase
class_in words none = false
class_in words (some c) = one_of words (to_ascii_lowercase c)

abbrev contact_classes : List Text
contact_classes =
    codes "door" ∷ codes "window" ∷ codes "garage_door" ∷ codes "opening" ∷ codes "safety" ∷ []

abbrev motion_classes : List Text
motion_classes = codes "motion" ∷ codes "occupancy" ∷ codes "presence" ∷ codes "moving" ∷ []

abbrev garage_classes : List Text
garage_classes = codes "garage" ∷ codes "gate" ∷ []

unfoldable pub default_type_for_entity : Text → Option Text → Option Text
unfolding class_in
default_type_for_entity domain device_class =
    if text_eq domain (codes "light")
    then some (codes "light")
    else if text_eq domain (codes "switch")
    then some (
        if class_in (codes "outlet" ∷ []) device_class
        then codes "outlet"
        else codes "on_off_switch")
    else if text_eq domain (codes "input_boolean")
    then some (codes "on_off_switch")
    else if text_eq domain (codes "cover")
    then some (if class_in garage_classes device_class then codes "garage" else codes "cover")
    else if text_eq domain (codes "binary_sensor")
    then (if class_in contact_classes device_class
        then some (codes "contact")
        else if class_in motion_classes device_class
        then some (codes "motion")
        else none)
    else none

-- Python's `or` on texts.
abbrev pub or_text : Option Text → Text → Text
or_text none d = d
or_text (some []) d = d
or_text (some (c ∷ t)) d = c ∷ t

given_type : Option Text → Option Text → Option Text
given_type none d = d
given_type (some []) d = d
given_type (some (c ∷ t)) d = some (c ∷ t)

checked_type : Option Text → Result EditError Text
unfolding is_supported_type
checked_type none = err not_exportable
checked_type (some t) = if is_supported_type t then ok t else err unsupported

unfoldable pub resolve_type : Entity → Text → Option Text → Result EditError Text
unfolding given_type checked_type default_type_for_entity domain_from_entity_id
resolve_type entity entity_id type_key = checked_type (
    given_type type_key
      (default_type_for_entity (domain_from_entity_id entity_id) entity.device_class))

unfoldable pub friendly_name : Entity → Text → Text
friendly_name entity entity_id = or_text entity.friendly_name entity_id

accepted : List FieldError → HaExport → Result EditError HaExport
accepted [] e = ok e
accepted (x ∷ xs) e = err (not_valid (x ∷ xs))

-- `Export.new`.
unfoldable pub new_export :
    Text → Text → Text → List (Text × Text) → Option Text → Bool → Uuid → Result EditError HaExport
unfolding accepted
new_export name type_key primary_entity_id linked area_id enabled export_id =
    accepted (validate_export_fields name type_key primary_entity_id linked) (record {
      export_id = export_id;
      name = strip name;
      type_ = type_key;
      primary_entity_id = primary_entity_id;
      linked = linked;
      area_id = area_id;
      enabled = enabled;
      endpoint_id = none;
    })

-- The loops that look for an export of the same entity.
unfoldable pub is_exported : Text → List HaExport → Bool
is_exported entity_id exports = any (λ e. text_eq e.primary_entity_id entity_id) exports

unfoldable pub is_exported_elsewhere : Uuid → Text → List HaExport → Bool
is_exported_elsewhere export_id entity_id exports =
    any (λ e. not (e.export_id == export_id) && text_eq e.primary_entity_id entity_id) exports

abbrev Edit : Type 0
Edit = Result EditError HaExport × ExportStore

upserted : ExportStore → Result EditError HaExport → Edit
unfolding async_upsert
upserted s (err e) = (err e, s)
upserted s (ok export_) = (ok export_, async_upsert export_ s)

typed :
    Entity
    → Text
    → Text
    → Bool
    → List (Text × Text)
    → Option Text
    → Uuid
    → ExportStore
    → Result EditError Text
    → Edit
unfolding upserted
typed entity entity_id name enabled linked area_id fresh s (err e) = (err e, s)
typed entity entity_id name enabled linked area_id fresh s (ok t) =
    upserted s (new_export name t entity_id linked area_id enabled fresh)

abbrev or_else_area : Option Text → Option Text → Option Text
or_else_area none d = d
or_else_area (some a) d = some a

abbrev strip_given : Option Text → Option Text
strip_given none = none
strip_given (some t) = some (strip t)

-- `fresh` is the id that `uuid4` draws.
unfoldable pub add_entity_export :
    Entity
    → Text
    → Option Text
    → Option Text
    → Bool
    → List (Text × Text)
    → Option Text
    → Uuid
    → ExportStore
    → Edit
unfolding typed
add_entity_export entity entity_id name type_key enabled linked area_id fresh s =
    if is_exported entity_id s.exports
    then (err (already_exported entity_id), s)
    else typed entity entity_id (or_text (strip_given name) (friendly_name entity entity_id))
        enabled linked (or_else_area area_id entity.area_id) fresh s
        (resolve_type entity entity_id type_key)

-- The fields of an update; `area_id` is `none` where it is not given.
pub record Update : Type 0 where
  pub name : Option Text
  pub type_key : Option Text
  pub enabled : Option Bool
  pub primary_entity_id : Option Text
  pub linked : Option (List (Text × Text))
  pub area_id : Option (Option Text)

abbrev pub keep : {A : Type 0} → Option A → A → A
keep none d = d
keep (some a) d = a

unfoldable pub updated : Update → HaExport → HaExport
unfolding strip
updated u existing = record {
  export_id = existing.export_id;
  name = strip (keep u.name existing.name);
  type_ = keep u.type_key existing.type_;
  primary_entity_id = keep u.primary_entity_id existing.primary_entity_id;
  linked = keep u.linked existing.linked;
  area_id = keep u.area_id existing.area_id;
  enabled = keep u.enabled existing.enabled;
  endpoint_id = existing.endpoint_id;
}

update_checked : Uuid → HaExport → List FieldError → ExportStore → Edit
unfolding async_upsert
update_checked export_id e (x ∷ xs) s = (err (not_valid (x ∷ xs)), s)
update_checked export_id e [] s =
    if is_exported_elsewhere export_id e.primary_entity_id s.exports
    then (err (already_exported e.primary_entity_id), s)
    else (ok e, async_upsert e s)

update_found : Uuid → Update → Option HaExport → ExportStore → Edit
unfolding update_checked
update_found export_id u none s = (err export_not_found, s)
update_found export_id u (some existing) s =
    let e = updated u existing in
    update_checked export_id e (validate_export_fields e.name e.type_ e.primary_entity_id e.linked)
      s

unfoldable pub update_export_fields : Uuid → Update → ExportStore → Edit
unfolding update_found
update_export_fields export_id u s = update_found export_id u (get s.exports export_id) s

remove_done : Option HaExport × ExportStore → Edit
remove_done (none, s) = (err export_not_found, s)
remove_done (some e, s) = (ok e, s)

unfoldable pub remove_export_id : Uuid → ExportStore → Edit
unfolding remove_done async_delete
remove_export_id export_id s = remove_done (async_delete export_id s)

-- `name[:64]`: a slice counts code points.
abbrev pub take : ℕ → Text → Text
take zero t = []
take (suc n) [] = []
take (suc n) (c ∷ t) = c ∷ take n t

abbrev pub reset_name : Entity → HaExport → HaExport
reset_name entity existing = record existing {
  name = take 64 (friendly_name entity existing.primary_entity_id);
}

reset_found : Entity → Option HaExport → ExportStore → Edit
unfolding async_upsert
reset_found entity none s = (err export_not_found, s)
reset_found entity (some existing) s =
    let e = reset_name entity existing in (ok e, async_upsert e s)

unfoldable pub reset_export_name : Entity → Uuid → ExportStore → Edit
unfolding reset_found
reset_export_name entity export_id s = reset_found entity (get s.exports export_id) s
