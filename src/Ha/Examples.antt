-- ===== src/Ha/Examples.antt =====
-- The integration of custom_components/thatsmatter on concrete exports.
use thatsmatter.Base.{ℕ, ◌≡◌, ◌⊎◌, refl, true, false, List, [], ◌∷◌, none, some, ok, err}
use thatsmatter.Base.Text.{Text, codes}
use thatsmatter.Base.Map
use thatsmatter.Catalog.Model.{DeviceType, Export, PairingMaterial}
use thatsmatter.Catalog.Persist.{PersistedConfig}
use thatsmatter.Catalog.Examples.{
  RawFile, config_file, exports_file, plain, saved, saved-IsWellFormed, no_files, lamp,
}
use thatsmatter.Catalog.Methods.Returns.{Prints}
use thatsmatter.Ipc.{AppState, Backend, catalog_err}
use thatsmatter.Ipc.Sync.{Change}
use thatsmatter.Dev.{DevMatterBackend, new, dev_backend}
use thatsmatter.Ha.Models.{HaExport, validate_export_fields}
use thatsmatter.Ha.Client.{Link, sync_catalog, answered}
use thatsmatter.Ha.Client.Converges.{IsSynced, sync_catalog-IsSynced}
use thatsmatter.Ha.Client.Answered.{good_link, IsSendable, full}
use thatsmatter.Ha.Client.Returns.{sync_catalog-returns}
use thatsmatter.Ha.Client.Again.{sync_catalog-again}
use thatsmatter.Ha.Runtime.{Runtime, async_push_catalog}
use thatsmatter.Ha.Runtime.Agrees.{Agrees, async_push_catalog-Agrees}

abbrev codes_of : PairingMaterial
codes_of = record {
  setup_code = codes "34970112332";
  qr_payload = codes "MT:";
  discriminator = 3840;
  passcode = 20202021;
}

abbrev pub dev : Backend ℕ (DevMatterBackend ℕ)
dev = dev_backend ℕ 200

-- A bridge with one export, a lamp.
abbrev pub bridge : AppState RawFile (DevMatterBackend ℕ)
bridge = record { catalog = record { store = saved; files = no_files }; backend = new 100 codes_of }

abbrev pub reading_lamp : HaExport
reading_lamp = record {
  export_id = 7;
  name = codes "Reading lamp";
  type_ = codes "light";
  primary_entity_id = codes "light.lamp";
  linked = [];
  area_id = none;
  enabled = true;
  endpoint_id = none;
}

abbrev pub heater : HaExport
heater = record reading_lamp {
  export_id = 9;
  name = codes "Heater";
  type_ = codes "outlet";
  primary_entity_id = codes "switch.heater";
}

abbrev pub home_exports : List HaExport
home_exports = heater ∷ reading_lamp ∷ []

abbrev pub links : Change → Link
links change = good_link

-- The lamp is renamed and the heater is new.
abbrev bridged_lamp : Export
bridged_lamp = record lamp { name = codes "Reading lamp"; endpoint_id = some 1 }

abbrev bridged_heater : Export
bridged_heater = record lamp {
  export_id = 9;
  name = codes "Heater";
  type_ = DeviceType.outlet;
  primary_entity_id = codes "switch.heater";
  endpoint_id = some 2;
}

sync_returns :
    (sync_catalog dev plain links true home_exports bridge).0
    ≡ ok (bridged_heater ∷ bridged_lamp ∷ [])
unfolding sync_catalog thatsmatter.Ha.Client.Dict.by_id thatsmatter.Catalog.Store.list Map.values
    Map.get thatsmatter.Ipc.Sync.serve thatsmatter.Ipc.create_export
    thatsmatter.Catalog.Methods.create thatsmatter.Catalog.Methods.create_store
    thatsmatter.Catalog.Store.validate_export_fields thatsmatter.Catalog.Store.alloc_endpoint
    thatsmatter.Catalog.Alloc.alloc_search thatsmatter.Catalog.Store.used_endpoints
    thatsmatter.Catalog.Alloc.collect_set thatsmatter.Catalog.Alloc.set_insert
    thatsmatter.Catalog.Alloc.alloc_loop thatsmatter.Catalog.Alloc.alloc_fuel
    thatsmatter.Catalog.Persist.persist Map.insert thatsmatter.Catalog.Methods.patch
    thatsmatter.Catalog.Methods.patch_found thatsmatter.Catalog.Methods.through
    thatsmatter.Catalog.Methods.patch_fields thatsmatter.Catalog.Store.validate_name
    thatsmatter.Ipc.patch_export thatsmatter.Ipc.after_method
sync_returns = refl

abbrev items : List Export
items = bridged_heater ∷ bridged_lamp ∷ []

sync_catalog-IsSynced_example :
    IsSynced home_exports bridge (sync_catalog dev plain links true home_exports bridge).1
sync_catalog-IsSynced_example =
    sync_catalog-IsSynced dev plain links true home_exports bridge items saved-IsWellFormed
      sync_returns

plain-Prints : Prints plain
plain-Prints = record {
  config = λ c. (config_file c, refl);
  exports = λ es. (exports_file es, refl);
}

reading_lamp-IsSendable : IsSendable reading_lamp
unfolding thatsmatter.Ha.Models.read_type thatsmatter.Catalog.Store.validate_name
    thatsmatter.Catalog.Store.validate_primary
reading_lamp-IsSendable = record {
  kind = DeviceType.light;
  reads = refl;
  accepted = record { name = refl; primary = refl };
}

heater-IsSendable : IsSendable heater
unfolding thatsmatter.Ha.Models.read_type thatsmatter.Catalog.Store.validate_name
    thatsmatter.Catalog.Store.validate_primary
heater-IsSendable = record {
  kind = DeviceType.outlet;
  reads = refl;
  accepted = record { name = refl; primary = refl };
}

sync_catalog-returns_example :
    ((es : List Export) × ((sync_catalog dev plain links true home_exports bridge).0 ≡ ok es)
      × IsSynced home_exports bridge (sync_catalog dev plain links true home_exports bridge).1)
    ⊎ ((sync_catalog dev plain links true home_exports bridge).0 ≡ err full)
sync_catalog-returns_example =
    sync_catalog-returns dev plain plain-Prints (λ es b. refl) home_exports bridge
      saved-IsWellFormed (heater-IsSendable, (reading_lamp-IsSendable, tt))

sync_catalog-again_example :
    (es : List Export) × (sync_catalog dev plain links true home_exports
        (sync_catalog dev plain links true home_exports bridge).1
      ≡ (ok es, (sync_catalog dev plain links true home_exports bridge).1))
sync_catalog-again_example =
    sync_catalog-again dev plain links home_exports bridge
      (sync_catalog dev plain links true home_exports bridge).1
      (sync_catalog-IsSynced dev plain links true home_exports bridge items saved-IsWellFormed
        sync_returns)

-- A name of 22 characters, each of three bytes.
abbrev pub wide_name : Text
wide_name =
    0x5bb6 ∷ 0x5bb6 ∷ 0x5bb6 ∷ 0x5bb6 ∷ 0x5bb6 ∷ 0x5bb6 ∷ 0x5bb6 ∷ 0x5bb6 ∷ 0x5bb6 ∷ 0x5bb6 ∷ 0x5bb6
    ∷ 0x5bb6 ∷ 0x5bb6 ∷ 0x5bb6 ∷ 0x5bb6 ∷ 0x5bb6 ∷ 0x5bb6 ∷ 0x5bb6 ∷ 0x5bb6 ∷ 0x5bb6 ∷ 0x5bb6
    ∷ 0x5bb6 ∷ []

abbrev wide_lamp : HaExport
wide_lamp = record reading_lamp { name = wide_name }

-- Home Assistant accepts it.
wide_lamp_accepted :
    validate_export_fields wide_lamp.name wide_lamp.type_ wide_lamp.primary_entity_id
      wide_lamp.linked
    ≡ []
unfolding validate_export_fields
wide_lamp_accepted = refl

abbrev runtime : Runtime
runtime = record {
  store = record { exports = home_exports; saved = home_exports };
  bridge_connected = false;
  last_error = none;
}

push_returns : (async_push_catalog dev plain links true runtime bridge).0 ≡ ok tt
unfolding async_push_catalog
push_returns = rw sync_returns refl

async_push_catalog-Agrees_example :
    Agrees
      (async_push_catalog dev plain links true runtime bridge).1.store.exports
      (async_push_catalog dev plain links true runtime bridge).2
    × ((async_push_catalog dev plain links true runtime bridge).1.store.saved
        ≡ (async_push_catalog dev plain links true runtime bridge).1.store.exports)
async_push_catalog-Agrees_example =
    async_push_catalog-Agrees dev plain links true runtime bridge saved-IsWellFormed push_returns
      refl
