-- ===== src/Catalog/Methods/Effects.antt =====
-- What the methods of bridge/src/catalog/store.rs leave in the catalog when they succeed, entry by
-- entry.
use thatsmatter.Base.{
  ℕ, ◌≤◌, ◌≡◌, Option, none, some, arith, ◌==◌, if◌then◌else◌, ok, inl, inr, Result-cases,
}
use thatsmatter.Base.Map
use thatsmatter.Base.Map.{get-insert, get-remove}
use thatsmatter.Catalog.Model.{Uuid, Export}
use thatsmatter.Catalog.Alloc.{u16_max}
use thatsmatter.Catalog.Store.{
  CatalogStore, CreateExport, PatchExport, validate_name, validate_primary,
}
use thatsmatter.Catalog.Persist.{Codec, PersistIo}
use thatsmatter.Catalog.Methods.{
  Catalog, create, patch, delete, create_store, patch_found, patch_fields, delete_found, unwrap_or,
  through,
}
use thatsmatter.Catalog.Methods.Create.{refused, created, new_export, create_store-Creation}
use thatsmatter.Catalog.Methods.Patch.{unassigned, patched, patch_found-Patching}
use thatsmatter.Catalog.Methods.Calls.{create-store, patch-store, delete-store}

-- An export with the fields of a patch.
abbrev pub overwritten : PatchExport → Export → Export
overwritten body e = record e {
  name = unwrap_or body.name e.name;
  type_ = unwrap_or body.type_ e.type_;
  primary_entity_id = unwrap_or body.primary_entity_id e.primary_entity_id;
  linked = unwrap_or body.linked e.linked;
  area_id = unwrap_or body.area_id e.area_id;
  enabled = unwrap_or body.enabled e.enabled;
}

-- The entry of `id` is the one given, and no other has changed.
abbrev pub Entry : Uuid → Option Export → CatalogStore → CatalogStore → Type 0
Entry id o s t = (j : Uuid) → Map.get j t.by_id ≡ (if id == j then o else Map.get j s.by_id)

patch_fields-ok :
    (body : PatchExport) (q : Option ℕ) (e : Export) (p : ℕ)
    → e.endpoint_id ≡ some p
    → (patch_fields body q e).0 ≡ ok tt
    → (patch_fields body q e).1 ≡ overwritten body e
unfolding patch_fields validate_name validate_primary
patch_fields-ok body q e p a h = ground arith

through-ok :
    (id : Uuid) (body : PatchExport) (q : Option ℕ) (e d : Export) (p : ℕ) (s : CatalogStore)
    → e.endpoint_id ≡ some p
    → (through id e (patch_fields body q) s).0 ≡ ok d
    → (d ≡ overwritten body e) × Entry id (some d) s (through id e (patch_fields body q) s).1
unfolding through
through-ok id body q e d p s a h = elim (Result-cases (patch_fields body q e).0) [
  | inr (x, bad) ↦ absurd (ground arith)
  | inl (_, good) ↦
      let same = patch_fields-ok body q e p a good in
      (ground arith, λ j. ground (arith, get-insert id j (patch_fields body q e).1 s.by_id))
]

removed :
    (id : Uuid) (o : Option Export) (e : Export) (s : CatalogStore)
    → (delete_found id o s).0 ≡ ok e
    → Entry id none s (delete_found id o s).1
unfolding delete_found
removed id none e s h = absurd (ground arith)
removed id (some d) e s h = λ j. get-remove id j s.by_id

module _ {Raw : Type 0} (codec : Codec Raw) (io : PersistIo) (c : Catalog Raw) where
  create-found :
      (body : CreateExport) (fresh : Uuid) (e : Export)
      → (create codec io body fresh c).0 ≡ ok e
      → (create_store body fresh c.store).0 ≡ ok e
  unfolding create
  create-found body fresh e h = ground arith

  patch-found :
      (id : Uuid) (body : PatchExport) (e : Export)
      → (patch codec io id body c).0 ≡ ok e
      → (patch_found id body (Map.get id c.store.by_id) c.store).0 ≡ ok e
  unfolding patch
  patch-found id body e h = ground arith

  delete-found :
      (id : Uuid) (e : Export)
      → (delete codec io id c).0 ≡ ok e
      → (delete_found id (Map.get id c.store.by_id) c.store).0 ≡ ok e
  unfolding delete
  delete-found id e h = ground arith

  pub delete-Entry :
      (id : Uuid) (e : Export)
      → (delete codec io id c).0 ≡ ok e
      → Entry id none c.store (delete codec io id c).1.store
  delete-Entry id e h =
      rw delete-store (removed id (Map.get id c.store.by_id) e c.store (delete-found id e h))

  pub create-Entry :
      (body : CreateExport) (fresh : Uuid) (e : Export)
      → c.store.next_endpoint ≤ u16_max
      → (create codec io body fresh c).0 ≡ ok e
      → (p : ℕ) × (e ≡ new_export body (unwrap_or body.export_id fresh) p)
        × (Map.get (unwrap_or body.export_id fresh) c.store.by_id ≡ none)
        × Entry
            (unwrap_or body.export_id fresh)
            (some e)
            c.store
            (create codec io body fresh c).1.store
  create-Entry body fresh e fits h =
      let found = create-found body fresh e h in
      elim (create_store-Creation c.store body fresh fits) [
        | refused x r ↦ let found' = rw r at found in absurd (ground arith)
        | created p good new lo hi free r ↦
            let found' = rw r at found in
            let same : e ≡ new_export body (unwrap_or body.export_id fresh) p = ground arith in
            (
              p,
              same,
              new,
              λ j.
                  rw (create-store, r)
                    (ground (arith, get-insert (unwrap_or body.export_id fresh) j e c.store.by_id)),
            )
      ]

  pub patch-Entry :
      (id : Uuid) (body : PatchExport) (d e : Export) (p : ℕ)
      → c.store.next_endpoint ≤ u16_max
      → Map.get id c.store.by_id ≡ some d
      → d.endpoint_id ≡ some p
      → (patch codec io id body c).0 ≡ ok e
      → (e ≡ overwritten body d) × Entry id (some e) c.store (patch codec io id body c).1.store
  patch-Entry id body d e p fits g a h =
      let found = patch-found id body e h in
      elim (patch_found-Patching c.store id body d fits) [
        | unassigned r ↦ let found' = rw (g, r) at found in absurd (ground arith)
        | patched q m b fresh r ↦
            let found' = rw (g, r) at found in
            let done = through-ok id body q d e p (record c.store { next_endpoint = m }) a found' in
            (done.0, λ j. rw (patch-store, g, r) (done.1 j))
      ]
