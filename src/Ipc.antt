-- ===== src/Ipc.antt =====
-- bridge/src/ipc/handlers.rs with bridge/src/ipc/types.rs and bridge/src/state.rs: the handlers of
-- the control plane. The backend is the interface `Backend`, the trait of
-- bridge/src/matter/backend.rs, as state passing; a request body is what serde_json reads of it.
pub mod Sync
pub mod Race
pub mod Router
pub mod Examples
use thatsmatter.Base.{
  ℕ, ◌≡◌, refl, Bool, true, false, List, [], ◌∷◌, Option, none, some, arith, if◌then◌else◌, Result,
  ok, err,
}
use thatsmatter.Base.Text.{Text}
use thatsmatter.Catalog.Model.{Uuid, Export, HaStateValue, CommandRequest, PairingMaterial}
use thatsmatter.Catalog.Store.{
  CatalogError, not_found, invalid, CatalogStore, CreateExport, PatchExport, list, get,
  export_count, enabled_export_count,
}
use thatsmatter.Catalog.Persist.{Codec, PersistIo}
use thatsmatter.Catalog.Methods.{Catalog, create, patch, delete}
use thatsmatter.Matter.Window.{clamp_pairing_timeout}

pub data BackendKind : Type 0 where
  dev rs_matter : BackendKind

-- `trait MatterBackend`, over the backend's state `B`. An error is its message.
pub record Backend (V B : Type 0) : Type 0 where
  pub kind : BackendKind
  pub is_running : B → Bool
  pub pairing_open : B → Bool
  pub open_pairing_window : ℕ → B → Result Text (Unit {0}) × B
  pub close_pairing_window : B → Result Text (Unit {0}) × B
  pub commissioned_fabrics : B → ℕ
  pub set_exports : List Export → B → Result Text (Unit {0}) × B
  pub apply_state : Uuid → List (HaStateValue V) → B → Result Text ℕ × B
  pub take_commands : B → List CommandRequest × B
  pub pairing_info : B → PairingMaterial
  pub status_error : B → Option Text

pub record AppState (Raw B : Type 0) : Type 0 where
  pub catalog : Catalog Raw
  pub backend : B

pub record BridgeStatus : Type 0 where
  pub bridge_name : Text
  pub running : Bool
  pub matter_backend : BackendKind
  pub pairing_open : Bool
  pub commissioned_fabrics : ℕ
  pub export_count : ℕ
  pub enabled_export_count : ℕ
  pub error : Option Text

-- Statuses 200, 201, 400, 404 and 500.
pub data StatusCode : Type 0 where
  success created bad_request missing internal_server_error : StatusCode

pub data Body : Type 0 where
  export_body : Export → Body
  exports_body : List Export → Body
  status_body : BridgeStatus → Body
  health_body : Bool → Body
  pairing_body : PairingMaterial → Body
  window_body : (is_open : Bool) → (timeout : Option ℕ) → Body
  applied_body : ℕ → Body
  commands_body : List CommandRequest → Body
  catalog_error : CatalogError → Body
  message : Text → Body
  bad_body : Body

pub record Response : Type 0 where
  pub status : StatusCode
  pub body : Body

unfoldable pub catalog_err : CatalogError → Response
catalog_err (not_found id) = record { status = missing; body = catalog_error (not_found id) }
catalog_err (invalid r) = record { status = bad_request; body = catalog_error (invalid r) }
catalog_err e = record { status = internal_server_error; body = catalog_error e }

unfoldable pub internal : Text → Response
internal msg = record { status = internal_server_error; body = message msg }

-- What serde_json reads of the body of `POST /exports/{id}/state`: a `HaStateUpdate`, or one
-- `HaStateValue`.
pub record StateBody (V : Type 0) : Type 0 where
  pub is_empty : Bool
  pub update : Option (List (HaStateValue V))
  pub single : Option (HaStateValue V)

pick_states :
    {V : Type 0}
    → Option (List (HaStateValue V))
    → Option (HaStateValue V)
    → Option (List (HaStateValue V))
pick_states (some states) single = some states
pick_states none (some one) = some (one ∷ [])
pick_states none none = none

unfoldable pub parse_state_body : {V : Type 0} → StateBody V → Option (List (HaStateValue V))
unfolding pick_states
parse_state_body body = if body.is_empty then none else pick_states body.update body.single

-- The body of `POST /pairing/open`: empty, or a timeout if it can be read.
pub record OpenBody : Type 0 where
  pub is_empty : Bool
  pub timeout_secs : Option ℕ

abbrev pub pairing_timeout_default_secs : ℕ
pairing_timeout_default_secs = 300

unfoldable pub requested_timeout : OpenBody → Option ℕ
requested_timeout body =
    if body.is_empty then some pairing_timeout_default_secs else body.timeout_secs

opened : ℕ → Result Text (Unit {0}) → Response
unfolding internal
opened timeout (ok _) = record { status = success; body = window_body true (some timeout) }
opened timeout (err e) = internal e

closed : Result Text (Unit {0}) → Response
unfolding internal
closed (ok _) = record { status = success; body = window_body false none }
closed (err e) = internal e

found : Uuid → Option Export → Response
unfolding catalog_err
found id none = catalog_err (not_found id)
found id (some e) = record { status = success; body = export_body e }

-- `sync_exports`, and the response once it is done.
synced : StatusCode → Export → Result Text (Unit {0}) → Response
unfolding internal
synced code e (ok _) = record { status = code; body = export_body e }
synced code e (err m) = internal m

applied : Result Text ℕ → Response
unfolding internal
applied (ok n) = record { status = success; body = applied_body n }
applied (err m) = internal m

module _ {V Raw B : Type 0} (backend : Backend V B) where
  unfoldable pub health : AppState Raw B → Response
  health s = record { status = success; body = health_body (backend.is_running s.backend) }

  unfoldable pub status : AppState Raw B → Response
  status s = record {
    status = success;
    body = status_body (record {
      bridge_name = s.catalog.store.bridge_name;
      running = backend.is_running s.backend;
      matter_backend = backend.kind;
      pairing_open = backend.pairing_open s.backend;
      commissioned_fabrics = backend.commissioned_fabrics s.backend;
      export_count = export_count s.catalog.store;
      enabled_export_count = enabled_export_count s.catalog.store;
      error = backend.status_error s.backend;
    });
  }

  unfoldable pub pairing : AppState Raw B → Response
  pairing s = record { status = success; body = pairing_body (backend.pairing_info s.backend) }

  open_with : Option ℕ → AppState Raw B → Response × AppState Raw B
  unfolding opened
  open_with none s = (record { status = bad_request; body = bad_body }, s)
  open_with (some t) s =
      let (r, b) = backend.open_pairing_window (clamp_pairing_timeout t) s.backend in
      (opened (clamp_pairing_timeout t) r, record s { backend = b })

  unfoldable pub open_pairing : OpenBody → AppState Raw B → Response × AppState Raw B
  unfolding open_with requested_timeout
  open_pairing body s = open_with (requested_timeout body) s

  unfoldable pub close_pairing : AppState Raw B → Response × AppState Raw B
  unfolding closed
  close_pairing s =
      let (r, b) = backend.close_pairing_window s.backend in (closed r, record s { backend = b })

  unfoldable pub list_exports : AppState Raw B → Response
  list_exports s = record { status = success; body = exports_body (list s.catalog.store) }

  unfoldable pub get_export : Uuid → AppState Raw B → Response
  unfolding found
  get_export id s = found id (get s.catalog.store id)

  unfoldable pub after_method :
      StatusCode → Result CatalogError Export × Catalog Raw → B → Response × AppState Raw B
  unfolding synced catalog_err
  after_method code (err x, c) b = (catalog_err x, record { catalog = c; backend = b })
  after_method code (ok e, c) b =
      let (r, b') = backend.set_exports (list c.store) b in
      (synced code e r, record { catalog = c; backend = b' })

  module _ (codec : Codec Raw) (io : PersistIo) where
    unfoldable pub create_export : CreateExport → Uuid → AppState Raw B → Response × AppState Raw B
    unfolding after_method
    create_export body fresh s =
        after_method StatusCode.created (create codec io body fresh s.catalog) s.backend

    unfoldable pub patch_export : Uuid → PatchExport → AppState Raw B → Response × AppState Raw B
    unfolding after_method
    patch_export id body s = after_method success (patch codec io id body s.catalog) s.backend

    unfoldable pub delete_export : Uuid → AppState Raw B → Response × AppState Raw B
    unfolding after_method
    delete_export id s = after_method success (delete codec io id s.catalog) s.backend

  push_parsed : Uuid → Option (List (HaStateValue V)) → AppState Raw B → Response × AppState Raw B
  unfolding applied
  push_parsed id none s = (record { status = bad_request; body = bad_body }, s)
  push_parsed id (some states) s =
      let (r, b) = backend.apply_state id states s.backend in (applied r, record s { backend = b })

  push_found : Uuid → Option Export → StateBody V → AppState Raw B → Response × AppState Raw B
  unfolding push_parsed catalog_err parse_state_body
  push_found id none body s = (catalog_err (not_found id), s)
  push_found id (some e) body s = push_parsed id (parse_state_body body) s

  unfoldable pub push_state : Uuid → StateBody V → AppState Raw B → Response × AppState Raw B
  unfolding push_found
  push_state id body s = push_found id (get s.catalog.store id) body s

  unfoldable pub take_commands : AppState Raw B → Response × AppState Raw B
  take_commands s =
      let (commands, b) = backend.take_commands s.backend in
      (record { status = success; body = commands_body commands }, record s { backend = b })
