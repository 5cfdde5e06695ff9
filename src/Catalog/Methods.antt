-- ===== src/Catalog/Methods.antt =====
-- bridge/src/catalog/store.rs: the methods that change the catalog. A method
-- acts on the store and on the files; the proofs are in the modules below.
pub mod Allocation
pub mod Invariant
pub mod Patch
pub mod Create
pub mod Calls
pub mod Failures
pub mod Stable
pub mod Effects
pub mod Returns
use Prim.Native.Nat.{min, max}
use thatsmatter.Base.{
  ℕ, zero, suc, ◌+◌, ◌≡◌, refl, Bool, true, false, List, [], ◌∷◌, ◌++◌, Option, none, some, arith,
  ◌||◌, ltb, leb, if◌then◌else◌, Result, ok, err, Exec, pure, raise, lift, gets, modify, continue,
  ◌>>=◌, ◌>>◌,
}
use thatsmatter.Base.Text.{Text}
use thatsmatter.Base.Map
use thatsmatter.Catalog.Model.{Uuid, DeviceType, Export, CatalogSnapshot}
use thatsmatter.Catalog.Alloc.{u16_max, first_endpoint_id}
use thatsmatter.Catalog.Store.{
  CatalogError, not_found, invalid, already_exists, io_error, json_error, CatalogStore,
  CreateExport, PatchExport, new, snapshot, validate_bridge_name, validate_name, validate_primary,
  validate_export_fields, alloc_endpoint, put,
}
use thatsmatter.Catalog.Persist.{Codec, Files, PersistIo, PersistedConfig, persist}

-- A catalog with its data directory.
pub record Catalog (Raw : Type 0) : Type 0 where
  pub store : CatalogStore
  pub files : Files Raw

abbrev pub Method : Type 0 → Type 0 → Type 0
Method Raw A = Exec (Catalog Raw) CatalogError A

-- A step on the store alone, and one on the files alone.
abbrev pub on_store : {Raw A : Type 0} → Exec CatalogStore CatalogError A → Method Raw A
on_store m c = ((m c.store).0, record c { store = (m c.store).1 })

abbrev pub save : {Raw : Type 0} → Codec Raw → PersistIo → Method Raw (Unit {0})
save codec io c = (
  (persist codec io c.store c.files).0,
  record c { files = (persist codec io c.store c.files).1 },
)

-- `unwrap_or`.
abbrev pub unwrap_or : {A : Type 0} → Option A → A → A
unwrap_or none d = d
unwrap_or (some a) d = a

-- The fields of a patch, written into the export one by one: an error leaves what was written.
unfoldable pub patch_name : Option Text → Exec Export CatalogError (Unit {0})
patch_name none e = (ok tt, e)
patch_name (some name) e = (do lift (validate_name name); modify (λ x. record x { name = name })) e

unfoldable pub patch_primary : Option Text → Exec Export CatalogError (Unit {0})
patch_primary none e = (ok tt, e)
patch_primary (some primary) e =
    (do lift (validate_primary primary); modify (λ x. record x { primary_entity_id = primary })) e

unfoldable pub patch_fields : PatchExport → Option ℕ → Exec Export CatalogError (Unit {0})
unfolding patch_name patch_primary
patch_fields body new_endpoint = do
  patch_name body.name
  modify (λ e. record e { type_ = unwrap_or body.type_ e.type_ })
  patch_primary body.primary_entity_id
  modify (λ e. record e { linked = unwrap_or body.linked e.linked })
  modify (λ e. record e { area_id = unwrap_or body.area_id e.area_id })
  modify (λ e. record e { enabled = unwrap_or body.enabled e.enabled })
  modify
      (λ e. record e { endpoint_id = elim e.endpoint_id [ none ↦ new_endpoint | some p ↦ some p ] })

-- `get_mut(&id)` and the writes through it.
unfoldable pub through :
    Uuid → Export → Exec Export CatalogError (Unit {0}) → Exec CatalogStore CatalogError Export
through id e m s = (
  elim (m e).0 [ ok _ ↦ ok (m e).1 | err x ↦ err x ],
  record s { by_id = Map.insert id (m e).1 s.by_id },
)

-- The endpoint that a patch assigns if the export has none.
unfoldable pub new_endpoint_for : Option ℕ → Exec CatalogStore CatalogError (Option ℕ)
new_endpoint_for (some p) = pure none
new_endpoint_for none = do p ← alloc_endpoint; pure (some p)

unfoldable pub patch_found :
    Uuid → PatchExport → Option Export → Exec CatalogStore CatalogError Export
unfolding new_endpoint_for
patch_found id body none = raise (not_found id)
patch_found id body (some e) = do
  new_endpoint ← new_endpoint_for e.endpoint_id
  through id e (patch_fields body new_endpoint)

unfoldable pub create_store : CreateExport → Uuid → Exec CatalogStore CatalogError Export
create_store body fresh = do
  lift (validate_export_fields body.name body.primary_entity_id)
  let export_id = unwrap_or body.export_id fresh
  s ← gets (λ s. s)
  if Map.contains_key export_id s.by_id then raise (invalid (already_exists export_id)) else do
    endpoint ← alloc_endpoint
    let e : Export = record {
      export_id = export_id;
      name = body.name;
      type_ = body.type_;
      primary_entity_id = body.primary_entity_id;
      linked = body.linked;
      area_id = body.area_id;
      enabled = body.enabled;
      endpoint_id = some endpoint;
    }
    modify (put e)
    pure e

unfoldable pub delete_found : Uuid → Option Export → Exec CatalogStore CatalogError Export
delete_found id none = raise (not_found id)
delete_found id (some e) = do modify (λ s. record s { by_id = Map.remove id s.by_id }); pure e

-- One export of a replacement: it keeps the endpoint that its id had.
unfoldable pub kept_endpoint : Option Export → Option ℕ → Option ℕ
kept_endpoint none given = given
kept_endpoint (some prev) given = elim prev.endpoint_id [ none ↦ given | some p ↦ some p ]

unfoldable pub assign_endpoint : Export → Option ℕ → Exec CatalogStore CatalogError Export
assign_endpoint e (some p) = pure (record e { endpoint_id = some p })
assign_endpoint e none = do p ← alloc_endpoint; pure (record e { endpoint_id = some p })

unfoldable pub replace_loop :
    List Export → List (ℕ × Export) → Exec CatalogStore CatalogError (List (ℕ × Export))
unfolding kept_endpoint assign_endpoint
replace_loop [] next = pure next
replace_loop (e ∷ es) next = do
  lift (validate_export_fields e.name e.primary_entity_id)
  s ← gets (λ s. s)
  e' ← assign_endpoint e (kept_endpoint (Map.get e.export_id s.by_id) e.endpoint_id)
  replace_loop es (Map.insert e'.export_id e' next)

unfoldable pub replace_store : CatalogSnapshot → Exec CatalogStore CatalogError (Unit {0})
unfolding replace_loop
replace_store incoming = do
  lift (validate_bridge_name incoming.bridge_name)
  modify (λ s. record s { bridge_name = incoming.bridge_name })
  next ← replace_loop incoming.exports []
  modify (λ s. record s { by_id = next })

module _ {Raw : Type 0} (codec : Codec Raw) (io : PersistIo) where
  unfoldable pub set_bridge_name : Text → Method Raw (Unit {0})
  set_bridge_name name = do
    lift (validate_bridge_name name)
    on_store (modify (λ s. record s { bridge_name = name }))
    save codec io

  -- `fresh` is the id that `Uuid::new_v4` returns.
  unfoldable pub create : CreateExport → Uuid → Method Raw Export
  create body fresh = do e ← on_store (create_store body fresh); save codec io; pure e

  unfoldable pub patch : Uuid → PatchExport → Method Raw Export
  patch id body = do
    s ← gets (λ c. c.store)
    e ← on_store (patch_found id body (Map.get id s.by_id))
    save codec io
    pure e

  unfoldable pub delete : Uuid → Method Raw Export
  delete id = do
    s ← gets (λ c. c.store)
    e ← on_store (delete_found id (Map.get id s.by_id))
    save codec io
    pure e

  unfoldable pub replace : CatalogSnapshot → Method Raw CatalogSnapshot
  replace incoming = do
    on_store (replace_store incoming)
    save codec io
    gets (λ c. snapshot c.store)
