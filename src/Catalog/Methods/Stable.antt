-- ===== src/Catalog/Methods/Stable.antt =====
-- What a call of bridge/src/catalog/store.rs leaves alone: endpoints once assigned, and the exports
-- that it does not name.
use thatsmatter.Base.{ℕ, ◌≤◌, ◌≡◌, ◌≢◌, refl, Option, none, some, arith}
use thatsmatter.Base.Text.{Text}
use thatsmatter.Base.Map
use thatsmatter.Base.Map.{get-insert, get-insert_ne, get-remove, get-remove_ne}
use thatsmatter.Catalog.Model.{Uuid, Export}
use thatsmatter.Catalog.Alloc.{u16_max}
use thatsmatter.Catalog.Store.{CatalogStore, CreateExport, PatchExport}
use thatsmatter.Catalog.Persist.{Codec, PersistIo}
use thatsmatter.Catalog.Methods.{
  Catalog, set_bridge_name, create_store, patch_found, patch_fields, through, delete_found,
  unwrap_or,
}
use thatsmatter.Catalog.Methods.Create.{refused, created, create_store-Creation}
use thatsmatter.Catalog.Methods.Patch.{unassigned, patched, patch_found-Patching, endpoint_fixed}
use thatsmatter.Catalog.Methods.Calls.{
  Call, create_call, patch_call, delete_call, rename_call, after, create-store, patch-store,
  delete-store,
}

-- The exports that a call can change.
abbrev pub Touches : Call → Uuid → Type 0
Touches (create_call body fresh) j = unwrap_or body.export_id fresh ≡ j
Touches (patch_call id body) j = id ≡ j
Touches (delete_call id) j = id ≡ j
Touches (rename_call name) j = ⊥

module _ (s : CatalogStore) (fits : s.next_endpoint ≤ u16_max) (j : Uuid) where
  create_store-frame :
      (body : CreateExport) (fresh : Uuid)
      → unwrap_or body.export_id fresh ≢ j
      → Map.get j (create_store body fresh s).1.by_id ≡ Map.get j s.by_id
  create_store-frame body fresh far = elim (create_store-Creation s body fresh fits) [
    | refused x r ↦ rw r refl
    | created p good new lo hi free r ↦ rw r (get-insert_ne id j _ s.by_id far)
  ]
    where
      id : Uuid
      id = unwrap_or body.export_id fresh

  patch_found-frame :
      (id : Uuid) (body : PatchExport) (o : Option Export)
      → id ≢ j
      → Map.get j (patch_found id body o s).1.by_id ≡ Map.get j s.by_id
  unfolding patch_found through
  patch_found-frame id body none far = refl
  patch_found-frame id body (some e) far = elim (patch_found-Patching s id body e fits) [
    | unassigned r ↦ rw r refl
    | patched q n h fresh r ↦ rw r (get-insert_ne id j (patch_fields body q e).1 s.by_id far)
  ]

  delete_found-frame :
      (id : Uuid) (o : Option Export)
      → id ≢ j
      → Map.get j (delete_found id o s).1.by_id ≡ Map.get j s.by_id
  unfolding delete_found
  delete_found-frame id none far = refl
  delete_found-frame id (some e) far = get-remove_ne id j s.by_id far

module _ (s : CatalogStore) (fits : s.next_endpoint ≤ u16_max) (j : Uuid) (d e : Export) (p : ℕ)
    (g : Map.get j s.by_id ≡ some d) (q : d.endpoint_id ≡ some p) where
  create_store-endpoint :
      (body : CreateExport) (fresh : Uuid)
      → Map.get j (create_store body fresh s).1.by_id ≡ some e
      → e.endpoint_id ≡ some p
  create_store-endpoint body fresh h = elim (create_store-Creation s body fresh fits) [
    | refused x r ↦ let h' = rw r at h in ground arith
    | created n good new lo hi free r ↦
        let far : unwrap_or body.export_id fresh ≢ j = ground arith in
        let same = create_store-frame s fits j body fresh far in ground (arith, same)
  ]

  patch_found-endpoint :
      (id : Uuid) (body : PatchExport) (o : Option Export)
      → Map.get id s.by_id ≡ o
      → Map.get j (patch_found id body o s).1.by_id ≡ some e
      → e.endpoint_id ≡ some p
  unfolding patch_found through
  patch_found-endpoint id body none k h = ground arith
  patch_found-endpoint id body (some x) k h = elim (patch_found-Patching s id body x fits) [
    | unassigned r ↦ let h' = rw r at h in ground arith
    | patched n m b fresh r ↦
        let h' = rw r at h in
        ground (arith, get-insert id j (patch_fields body n x).1 s.by_id, endpoint_fixed body n x p)
  ]

  delete_found-endpoint :
      (id : Uuid) (o : Option Export)
      → Map.get j (delete_found id o s).1.by_id ≡ some e
      → e.endpoint_id ≡ some p
  unfolding delete_found
  delete_found-endpoint id none h = ground arith
  delete_found-endpoint id (some x) h = ground (arith, get-remove id j s.by_id)

module _ {Raw : Type 0} (codec : Codec Raw) (io : PersistIo) (c : Catalog Raw) where
  rename-by_id : (name : Text) → (set_bridge_name codec io name c).1.store.by_id ≡ c.store.by_id
  unfolding set_bridge_name
  rename-by_id name = ground arith

  -- With `next_endpoint` a `u16`, a creation, patch, deletion or renaming leaves every export alone
  -- but the one that it names, whether it succeeds or not.
  pub after-frame :
      (call : Call) (j : Uuid)
      → c.store.next_endpoint ≤ u16_max
      → ¬ Touches call j
      → Map.get j (after codec io call c).store.by_id ≡ Map.get j c.store.by_id
  unfolding after
  after-frame (create_call body fresh) j fits far =
      rw create-store (create_store-frame c.store fits j body fresh far)
  after-frame (patch_call id body) j fits far =
      rw patch-store (patch_found-frame c.store fits j id body (Map.get id c.store.by_id) far)
  after-frame (delete_call id) j fits far =
      rw delete-store (delete_found-frame c.store fits j id (Map.get id c.store.by_id) far)
  after-frame (rename_call name) j fits far = rw rename-by_id refl

  -- With `next_endpoint` a `u16`, an export with an endpoint that is still in the catalog after a
  -- call has the same endpoint, whether the call creates, patches, deletes or renames, and whether
  -- it succeeds or not.
  pub after-endpoint :
      (call : Call) (j : Uuid) (d e : Export) (p : ℕ)
      → c.store.next_endpoint ≤ u16_max
      → Map.get j c.store.by_id ≡ some d
      → d.endpoint_id ≡ some p
      → Map.get j (after codec io call c).store.by_id ≡ some e
      → e.endpoint_id ≡ some p
  unfolding after
  after-endpoint (create_call body fresh) j d e p fits g q h =
      create_store-endpoint c.store fits j d e p g q body fresh (rw create-store at h)
  after-endpoint (patch_call id body) j d e p fits g q h =
      patch_found-endpoint c.store fits j d e p g q id body _ refl (rw patch-store at h)
  after-endpoint (delete_call id) j d e p fits g q h =
      delete_found-endpoint c.store fits j d e p g q id _ (rw delete-store at h)
  after-endpoint (rename_call name) j d e p fits g q h = ground (arith, rename-by_id name)
