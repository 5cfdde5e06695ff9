-- ===== src/Ipc/Examples.antt =====
-- The handlers of bridge/src/ipc/handlers.rs on concrete requests, over the backend for development
-- of bridge/src/matter/dev.rs.
use thatsmatter.Base.{
  ℕ, ◌≤◌, ◌≡◌, ◌≢◌, ◌⊎◌, refl, arith, ◌∷◌, Option, true, false, if◌then◌else◌, List, [], none, some,
  ok, err,
}
use thatsmatter.Base.Text.{Text, codes}
use thatsmatter.Catalog.Model.{Uuid, Export, PairingMaterial}
use thatsmatter.Catalog.Store.{list, get, not_found}
use thatsmatter.Catalog.Examples.{
  RawFile, plain, all_good, home, one_lamp, lamp, lamp_body, rename_lamp, grown, grown-IsWellFormed,
}
use thatsmatter.Catalog.Methods.Invariant.{IsWellFormed}
use thatsmatter.Ipc.Race.{
  World, settled, calls_method, lists, pushes, first, Reach, here, next, Orderly, begins, goes_on,
  Orderly-syncs, stale_push,
}
use thatsmatter.Ipc.Router.{Verb, post, Request, requests}
use thatsmatter.Ipc.Router.Safe.{requests-IsWellFormed}
use thatsmatter.Ipc.{AppState, OpenBody, Backend}
use thatsmatter.Ipc.Sync.{patches, deletes, method, serve, Served, serve-Served}
use thatsmatter.Dev.{DevMatterBackend, new, dev_backend}

abbrev codes_of : PairingMaterial
codes_of = record {
  setup_code = codes "34970112332";
  qr_payload = codes "MT:";
  discriminator = 3840;
  passcode = 20202021;
}

abbrev backend : DevMatterBackend ℕ
backend = new 100 codes_of

abbrev dev_at : Backend ℕ (DevMatterBackend ℕ)
dev_at = dev_backend ℕ 200

abbrev app : AppState RawFile (DevMatterBackend ℕ)
app = record { catalog = home; backend = backend }

serve-Served_example :
    ((serve dev_at plain all_good (patches 7 rename_lamp) app).1.catalog
      ≡ (method plain all_good (patches 7 rename_lamp) home).1)
    × Served dev_at plain all_good
        (patches 7 rename_lamp)
        app
        (serve dev_at plain all_good (patches 7 rename_lamp) app)
serve-Served_example = serve-Served dev_at plain all_good (patches 7 rename_lamp) app

abbrev short : OpenBody
short = record { is_empty = false; timeout_secs = some 20 }

-- A request is answered before the next comes.
abbrev synced : World RawFile (DevMatterBackend ℕ)
synced = record {
  catalog = (method plain all_good (patches 7 rename_lamp) home).1;
  backend = record backend {
    exports = list (method plain all_good (patches 7 rename_lamp) home).1.store;
  };
  unsynced = 0;
  listings = [];
}

one_by_one : Orderly dev_at plain (settled home (record backend { exports = list one_lamp })) synced
unfolding method thatsmatter.Catalog.Methods.patch thatsmatter.Catalog.Methods.patch_found
    thatsmatter.Base.Map.get thatsmatter.Catalog.Methods.through
    thatsmatter.Catalog.Methods.patch_fields thatsmatter.Catalog.Store.validate_name
    thatsmatter.Catalog.Persist.persist thatsmatter.Ipc.Race.owes
one_by_one =
    goes_on
      (goes_on (goes_on begins (calls_method (patches 7 rename_lamp) all_good refl) (λ x h. cc))
        (lists (omega arith) refl) tt)
      (pushes _ _ first refl) refl

Orderly-syncs_example : synced.backend.exports ≡ list synced.catalog.store
Orderly-syncs_example =
    Orderly-syncs dev_at plain (λ b. b.exports) (λ exports b. refl) home
      (record backend { exports = list one_lamp }) refl one_by_one refl refl

abbrev renamed : Export
renamed = record lamp { name = codes "Reading lamp" }

stale_push_example :
    (t : World RawFile (DevMatterBackend ℕ)) × Reach dev_at plain (settled home backend) t
    × (t.unsynced ≡ 0)
    × (t.listings ≡ [])
    × (t.catalog
        ≡ (method plain all_good
            (deletes 7)
            (method plain all_good (patches 7 rename_lamp) home).1).1)
    × (t.backend.exports ≡ list (method plain all_good (patches 7 rename_lamp) home).1.store)
unfolding method thatsmatter.Catalog.Methods.patch thatsmatter.Catalog.Methods.patch_found
    thatsmatter.Base.Map.get thatsmatter.Catalog.Methods.through
    thatsmatter.Catalog.Methods.patch_fields thatsmatter.Catalog.Store.validate_name
    thatsmatter.Catalog.Persist.persist thatsmatter.Catalog.Methods.delete
    thatsmatter.Catalog.Methods.delete_found thatsmatter.Base.Map.insert
stale_push_example =
    stale_push dev_at plain (λ b. b.exports) (λ exports b. refl) home backend
      (patches 7 rename_lamp) (deletes 7) all_good all_good renamed renamed refl refl

abbrev no_uuid : Text → Option Uuid
no_uuid id = none

abbrev listing : Request ℕ
listing = record {
  verb = Verb.get;
  path = codes "exports" ∷ [];
  create = none;
  patch = none;
  open_body = short;
  state_body = record { is_empty = true; update = none; single = none };
  fresh = 1;
  io = all_good;
}

requests-IsWellFormed_example :
    IsWellFormed
      (requests dev_at plain no_uuid
        (record listing { verb = post; create = some lamp_body } ∷ listing ∷ [])
        (record app { catalog = record home { store = grown } })).catalog.store
requests-IsWellFormed_example =
    requests-IsWellFormed dev_at plain no_uuid
      (record listing { verb = post; create = some lamp_body } ∷ listing ∷ [])
      (record app { catalog = record home { store = grown } }) grown-IsWellFormed
