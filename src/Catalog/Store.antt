-- ===== src/Catalog/Store.antt =====
-- bridge/src/catalog/store.rs: the errors, the request bodies, the store with its reads, the checks
-- of fields and the allocation of an endpoint id.
use thatsmatter.Base.{
  ℕ, Bool, List, [], Option, none, some, ltb, ◌||◌, if◌then◌else◌, length, filter, filter_map,
  Result, ok, err, Exec,
}
use thatsmatter.Base.Text.{Text, len, is_empty}
use thatsmatter.Base.Map
use thatsmatter.Catalog.Model.{Uuid, DeviceType, Export, CatalogSnapshot}
use thatsmatter.Catalog.Alloc.{first_endpoint_id, collect_set, alloc_search}

-- What an `Invalid` error says; `no_result` is no error of the source, but a search that does not
-- end, which `alloc_endpoint-Allocation` rules out.
pub data Reason : Type 0 where
  bad_bridge_name bad_name bad_primary_entity_id : Reason
  already_exists : Uuid → Reason

pub data CatalogError : Type 0 where
  not_found : Uuid → CatalogError
  invalid : Reason → CatalogError
  endpoint_exhausted io_error json_error no_result : CatalogError

pub record CreateExport : Type 0 where
  pub export_id : Option Uuid
  pub name : Text
  pub type_ : DeviceType
  pub primary_entity_id : Text
  pub linked : List (Text × Text)
  pub area_id : Option Text
  pub enabled : Bool

pub record PatchExport : Type 0 where
  pub name : Option Text
  pub type_ : Option DeviceType
  pub primary_entity_id : Option Text
  pub linked : Option (List (Text × Text))
  pub area_id : Option (Option Text)
  pub enabled : Option Bool

pub record CatalogStore : Type 0 where
  pub bridge_name : Text
  pub by_id : List (ℕ × Export)
  pub next_endpoint : ℕ

unfoldable pub new : Text → CatalogStore
new bridge_name = record {
  bridge_name = bridge_name;
  by_id = [];
  next_endpoint = first_endpoint_id;
}

unfoldable pub snapshot : CatalogStore → CatalogSnapshot
snapshot s = record { bridge_name = s.bridge_name; exports = Map.values s.by_id }

unfoldable pub list : CatalogStore → List Export
list s = Map.values s.by_id

unfoldable pub get : CatalogStore → Uuid → Option Export
get s id = Map.get id s.by_id

unfoldable pub export_count : CatalogStore → ℕ
export_count s = length s.by_id

unfoldable pub enabled_export_count : CatalogStore → ℕ
enabled_export_count s = length (filter (λ e. e.enabled) (Map.values s.by_id))

-- Checks of a field.
unfoldable pub validate_bridge_name : Text → Result CatalogError (Unit {0})
validate_bridge_name name =
    if is_empty name || ltb 32 (len name) then err (invalid bad_bridge_name) else ok tt

unfoldable pub validate_name : Text → Result CatalogError (Unit {0})
validate_name name = if is_empty name || ltb 64 (len name) then err (invalid bad_name) else ok tt

unfoldable pub validate_primary : Text → Result CatalogError (Unit {0})
validate_primary primary = if is_empty primary then err (invalid bad_primary_entity_id) else ok tt

abbrev both_ok :
    Result CatalogError (Unit {0}) → Result CatalogError (Unit {0}) → Result CatalogError (Unit {0})
both_ok (ok _) r = r
both_ok (err e) r = err e

unfoldable pub validate_export_fields : Text → Text → Result CatalogError (Unit {0})
unfolding validate_name validate_primary
validate_export_fields name primary = both_ok (validate_name name) (validate_primary primary)

-- The endpoint ids in use.
unfoldable pub used_endpoints : CatalogStore → List ℕ
used_endpoints s = collect_set (filter_map (λ e. e.endpoint_id) (Map.values s.by_id))

allocated : Option (Option (ℕ × ℕ)) → Exec CatalogStore CatalogError ℕ
allocated none s = (err endpoint_exhausted, s)
allocated (some none) s = (err no_result, s)
allocated (some (some (candidate, next))) s = (ok candidate, record s { next_endpoint = next })

unfoldable pub alloc_endpoint : Exec CatalogStore CatalogError ℕ
unfolding allocated
alloc_endpoint s = allocated (alloc_search s.next_endpoint (used_endpoints s)) s

-- Writes of an export into the map.
abbrev pub put : Export → CatalogStore → CatalogStore
put e s = record s { by_id = Map.insert e.export_id e s.by_id }
