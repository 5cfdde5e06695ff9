-- ===== src/Catalog/Examples.antt =====
-- The catalog of bridge/src/catalog/store.rs on concrete exports, files and calls.
use thatsmatter.Base.{
  ◌≡◌, refl, true, false, List, [], ◌∷◌, Option, none, some, arith, ok, err, subst,
}
use thatsmatter.Base.Text.{codes}
use thatsmatter.Base.Map
use thatsmatter.Catalog.Model.{DeviceType, Export}
use thatsmatter.Catalog.Alloc.{u16_max}
use thatsmatter.Catalog.Store.{
  CatalogError, io_error, invalid, already_exists, bad_primary_entity_id, CreateExport, PatchExport,
  CatalogStore, new, alloc_endpoint, validate_name,
}
use thatsmatter.Catalog.Persist.{PersistedConfig, Codec, Files, PersistIo, persist}
use thatsmatter.Catalog.Load.{load_or_new}
use thatsmatter.Catalog.Load.Recovery.{load-persist}
use thatsmatter.Catalog.Methods.{
  Catalog, create_store, create, patch, replace_store, patch_found, unwrap_or,
}
use thatsmatter.Catalog.Methods.Allocation.{Allocation, alloc_endpoint-Allocation}
use thatsmatter.Catalog.Methods.Invariant.{IsWellFormed}
use thatsmatter.Catalog.Methods.Calls.{
  Call, create_call, patch_call, delete_call, rename_call, after, after_all, after_all-IsWellFormed,
}
use thatsmatter.Catalog.Methods.Stable.{after-frame, after-endpoint}
use thatsmatter.Catalog.Methods.Failures.{half_valid, patch_partial, two_exports, replace_collides}

-- A file holds what was printed to it.
pub data RawFile : Type 0 where
  config_file : PersistedConfig → RawFile
  exports_file : List Export → RawFile

abbrev read_config : RawFile → Option PersistedConfig
read_config (config_file c) = some c
read_config (exports_file es) = none

abbrev read_exports : RawFile → Option (List Export)
read_exports (config_file c) = none
read_exports (exports_file es) = some es

pub config_reads :
    (c : PersistedConfig) (r : RawFile) → some (config_file c) ≡ some r → read_config r ≡ some c
config_reads c r h = ground arith

pub exports_reads :
    (es : List Export) (r : RawFile) → some (exports_file es) ≡ some r → read_exports r ≡ some es
exports_reads es r h = ground arith

abbrev pub plain : Codec RawFile
plain = record {
  config_to_string = λ c. some (config_file c);
  config_from_str = read_config;
  exports_to_string = λ es. some (exports_file es);
  exports_from_str = read_exports;
  config_round_trip = config_reads;
  exports_round_trip = exports_reads;
}

abbrev pub all_good : PersistIo
all_good = record {
  create_dir = true;
  write_config = true;
  rename_config = true;
  write_exports = true;
  rename_exports = true;
}

abbrev full_disk : PersistIo
full_disk = record all_good { write_exports = false }

abbrev pub no_files : Files RawFile
no_files = record { config = none; exports = none; config_tmp = none; exports_tmp = none }

abbrev pub lamp_body : CreateExport
lamp_body = record {
  export_id = some 7;
  name = codes "Lamp";
  type_ = DeviceType.light;
  primary_entity_id = codes "light.lamp";
  linked = [];
  area_id = none;
  enabled = true;
}

abbrev pub rename_lamp : PatchExport
rename_lamp = record {
  name = some (codes "Reading lamp");
  type_ = none;
  primary_entity_id = none;
  linked = none;
  area_id = none;
  enabled = none;
}

abbrev pub lamp : Export
lamp = record {
  export_id = 7;
  name = codes "Lamp";
  type_ = DeviceType.light;
  primary_entity_id = codes "light.lamp";
  linked = [];
  area_id = none;
  enabled = true;
  endpoint_id = some 3;
}

-- A bridge with one export.
abbrev pub one_lamp : CatalogStore
one_lamp = record { bridge_name = codes "Home"; by_id = (7, lamp) ∷ []; next_endpoint = 4 }

abbrev pub home : Catalog RawFile
home = record { store = one_lamp; files = no_files }

abbrev some_calls : List (PersistIo × Call)
some_calls =
    (all_good, create_call lamp_body 1)
    ∷ (full_disk, patch_call 7 rename_lamp)
    ∷ (all_good, rename_call (codes "House"))
    ∷ (full_disk, delete_call 7)
    ∷ []

abbrev pub empty_home : Catalog RawFile
empty_home = record { store = new (codes "Home"); files = no_files }

abbrev pub grown : CatalogStore
grown = (after_all plain ((all_good, create_call lamp_body 1) ∷ []) empty_home).store

pub grown-IsWellFormed : IsWellFormed grown
grown-IsWellFormed =
    after_all-IsWellFormed plain (codes "Home") no_files ((all_good, create_call lamp_body 1) ∷ [])

-- The same catalog, written out.
abbrev pub saved : CatalogStore
saved = record {
  bridge_name = codes "Home";
  by_id = (7, record lamp { endpoint_id = some 1 }) ∷ [];
  next_endpoint = 2;
}

grown-saved : grown ≡ saved
unfolding after_all Map.get after create create_store
    thatsmatter.Catalog.Store.validate_export_fields new alloc_endpoint
    thatsmatter.Catalog.Alloc.alloc_search thatsmatter.Catalog.Store.used_endpoints
    thatsmatter.Catalog.Alloc.collect_set Map.values thatsmatter.Catalog.Alloc.alloc_loop
    thatsmatter.Catalog.Alloc.alloc_fuel persist Map.insert
grown-saved = refl

pub saved-IsWellFormed : IsWellFormed saved
saved-IsWellFormed = subst IsWellFormed grown-saved grown-IsWellFormed

after_all-IsWellFormed_example : IsWellFormed (after_all plain some_calls empty_home).store
after_all-IsWellFormed_example = after_all-IsWellFormed plain (codes "Home") no_files some_calls

load-persist_example :
    (t : CatalogStore) × (load_or_new plain
        (record { create_dir = true; read_config = true; read_exports = true })
        (persist plain all_good grown no_files).1
        (codes "Other")
      ≡ ok t)
    × (t.bridge_name ≡ grown.bridge_name)
    × (t.by_id ≡ grown.by_id)
unfolding persist
load-persist_example =
    load-persist plain all_good grown no_files (codes "Other")
      (after_all-IsWellFormed plain (codes "Home") no_files
        ((all_good, create_call lamp_body 1) ∷ []))
      refl

alloc_endpoint-Allocation_example : Allocation one_lamp (alloc_endpoint one_lamp)
alloc_endpoint-Allocation_example = alloc_endpoint-Allocation one_lamp (omega arith)

after-frame_example :
    Map.get 7 (after plain full_disk (delete_call 9) home).store.by_id ≡ Map.get 7 one_lamp.by_id
after-frame_example =
    after-frame plain full_disk home (delete_call 9) 7 (omega arith) (λ e. omega (arith, e))

after-endpoint_example : (record lamp { name = codes "Reading lamp" }).endpoint_id ≡ some 3
unfolding after patch Map.get patch_found thatsmatter.Catalog.Methods.through
    thatsmatter.Catalog.Methods.patch_fields validate_name persist Map.insert
after-endpoint_example =
    after-endpoint plain all_good home (patch_call 7 rename_lamp) 7 lamp
      (record lamp { name = codes "Reading lamp" }) 3 (omega arith) refl refl refl

patch_partial_example :
    ((patch plain all_good 7 (half_valid (codes "Desk")) home).0
      ≡ err (invalid bad_primary_entity_id))
    × (Map.get 7 (patch plain all_good 7 (half_valid (codes "Desk")) home).1.store.by_id
        ≡ some (record lamp { name = codes "Desk" }))
    × ((patch plain all_good 7 (half_valid (codes "Desk")) home).1.files ≡ no_files)
unfolding Map.get validate_name
patch_partial_example = patch_partial plain all_good home 7 lamp 3 (codes "Desk") refl refl refl

abbrev without_endpoint : Export
without_endpoint = record lamp { export_id = 1; endpoint_id = none }

abbrev with_the_next : Export
with_the_next = record lamp { export_id = 2; endpoint_id = some 4 }

replace_collides_example :
    ((replace_store (two_exports one_lamp without_endpoint with_the_next) one_lamp).0 ≡ ok tt)
    × (Map.get 1
          (replace_store (two_exports one_lamp without_endpoint with_the_next) one_lamp).1.by_id
        ≡ some (record without_endpoint { endpoint_id = some 4 }))
    × (Map.get 2
          (replace_store (two_exports one_lamp without_endpoint with_the_next) one_lamp).1.by_id
        ≡ some with_the_next)
unfolding Map.get alloc_endpoint thatsmatter.Catalog.Store.validate_bridge_name
    thatsmatter.Catalog.Store.validate_export_fields thatsmatter.Catalog.Alloc.alloc_search
    thatsmatter.Catalog.Store.used_endpoints thatsmatter.Catalog.Alloc.collect_set Map.values
    thatsmatter.Catalog.Alloc.set_insert thatsmatter.Catalog.Alloc.alloc_loop
    thatsmatter.Catalog.Alloc.alloc_fuel
replace_collides_example =
    replace_collides one_lamp without_endpoint with_the_next 4 5 refl refl refl refl refl
      (λ e. omega (arith, e)) refl refl refl
