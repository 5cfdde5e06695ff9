-- ===== src/Catalog/Methods/Failures.antt =====
-- What a failed method of bridge/src/catalog/store.rs leaves behind, and the endpoints that a bulk
-- replacement gives.
use thatsmatter.Base.{
  ℕ, ◌≤◌, ◌≡◌, ◌≢◌, ◌∙◌, ap, sym, refl, List, ◌∷◌, [], none, some, arith, ok, err,
}
use thatsmatter.Base.Text.{Text}
use thatsmatter.Base.Map
use thatsmatter.Base.Map.{get-insert, get-insert_self, get-insert_ne}
use thatsmatter.Catalog.Model.{Uuid, Export, CatalogSnapshot}
use thatsmatter.Catalog.Alloc.{u16_max}
use thatsmatter.Catalog.Store.{
  CatalogError, invalid, already_exists, bad_primary_entity_id, CatalogStore, CreateExport,
  PatchExport, validate_name, validate_primary, validate_export_fields, validate_bridge_name,
  alloc_endpoint,
}
use thatsmatter.Catalog.Persist.{Codec, PersistIo, persist}
use thatsmatter.Catalog.Methods.{
  Catalog, create, create_store, patch, patch_found, patch_fields, through, new_endpoint_for,
  replace_store,
}
use thatsmatter.Catalog.Methods.Create.{refused, created, create_store-Creation, new_export}

-- A body that renames an export and empties its primary entity.
abbrev pub half_valid : Text → PatchExport
half_valid name = record {
  name = some name;
  type_ = none;
  primary_entity_id = some [];
  linked = none;
  area_id = none;
  enabled = none;
}

create_store_known :
    (body : CreateExport) (id fresh : Uuid) (s : CatalogStore) (e : Export)
    → body.export_id ≡ some id
    → validate_export_fields body.name body.primary_entity_id ≡ ok tt
    → Map.get id s.by_id ≡ some e
    → (create_store body fresh s).0 ≡ err (invalid (already_exists id))
unfolding create_store Map.get
create_store_known body id fresh s e i good old = ground arith

-- A creation that succeeded in memory is refused the second time.
create_store_again :
    (body : CreateExport) (id fresh : Uuid) (s : CatalogStore) (e : Export)
    → s.next_endpoint ≤ u16_max
    → body.export_id ≡ some id
    → (create_store body fresh s).0 ≡ ok e
    → (create_store body fresh (create_store body fresh s).1).0 ≡ err (invalid (already_exists id))
create_store_again body id fresh s e fits i made = elim (create_store-Creation s body fresh fits) [
  | refused x r ↦ absurd (ground arith)
  | created p good new lo hi free r ↦
      create_store_known body id fresh (create_store body fresh s).1 (new_export body id p) i good
        (rw (r, i) (get-insert_self id (new_export body id p) s.by_id))
]

module _ {Raw : Type 0} (codec : Codec Raw) (io : PersistIo) (c : Catalog Raw) where
  -- A patch with a good name and an empty primary entity is refused as invalid, but the export of
  -- the catalog has the new name afterwards, and the files have not.
  pub patch_partial :
      (id : Uuid) (e : Export) (p : ℕ) (name : Text)
      → Map.get id c.store.by_id ≡ some e
      → e.endpoint_id ≡ some p
      → validate_name name ≡ ok tt
      → ((patch codec io id (half_valid name) c).0 ≡ err (invalid bad_primary_entity_id))
        × (Map.get id (patch codec io id (half_valid name) c).1.store.by_id
            ≡ some (record e { name = name }))
        × ((patch codec io id (half_valid name) c).1.files ≡ c.files)
  unfolding patch patch_found patch_fields through new_endpoint_for validate_primary
  patch_partial id e p name g q v = (
    ground arith,
    ground (arith, get-insert_self id (record e { name = name }) c.store.by_id),
    ground arith,
  )

  -- A creation whose save fails returns the error of the save and keeps the export in memory: the
  -- same creation again is refused, since the id exists.
  create_failed_save :
      (body : CreateExport) (id fresh : Uuid) (e : Export) (x : CatalogError)
      → c.store.next_endpoint ≤ u16_max
      → body.export_id ≡ some id
      → (create_store body fresh c.store).0 ≡ ok e
      → (persist codec io (create_store body fresh c.store).1 c.files).0 ≡ err x
      → ((create codec io body fresh c).0 ≡ err x)
        × ((create codec io body fresh (create codec io body fresh c).1).0
            ≡ err (invalid (already_exists id)))
  unfolding create
  create_failed_save body id fresh e x fits i made failed =
      (ground arith, ground (arith, create_store_again body id fresh c.store e))

-- Two exports that replace the catalog under its name, and what is stored of them.
abbrev pub two_exports : CatalogStore → Export → Export → CatalogSnapshot
two_exports s a b = record { bridge_name = s.bridge_name; exports = a ∷ b ∷ [] }

abbrev both_at : ℕ → Export → Export → List (ℕ × Export)
both_at p a b =
    Map.insert b.export_id (record b { endpoint_id = some p })
      (Map.insert a.export_id (record a { endpoint_id = some p }) [])

replace_store-both :
    (s : CatalogStore) (a b : Export) (p n : ℕ)
    → validate_bridge_name s.bridge_name ≡ ok tt
    → validate_export_fields a.name a.primary_entity_id ≡ ok tt
    → validate_export_fields b.name b.primary_entity_id ≡ ok tt
    → Map.get a.export_id s.by_id ≡ none
    → Map.get b.export_id s.by_id ≡ none
    → a.endpoint_id ≡ none
    → b.endpoint_id ≡ some p
    → alloc_endpoint s ≡ (ok p, record s { next_endpoint = n })
    → replace_store (two_exports s a b) s
      ≡ (ok tt, record s { next_endpoint = n; by_id = both_at p a b })
unfolding replace_store
replace_store-both s a b p n name good_a good_b new_a new_b none_a some_b alloc =
    rw (name, good_a, new_a, none_a, alloc, good_b, new_b, some_b) refl

-- A bulk replacement can give one endpoint to two exports: the first of two exports that are new
-- has none and is given the next free one, and the second brings that very endpoint; the
-- replacement succeeds and both are in the catalog with it.
pub replace_collides :
    (s : CatalogStore) (a b : Export) (p n : ℕ)
    → validate_bridge_name s.bridge_name ≡ ok tt
    → validate_export_fields a.name a.primary_entity_id ≡ ok tt
    → validate_export_fields b.name b.primary_entity_id ≡ ok tt
    → Map.get a.export_id s.by_id ≡ none
    → Map.get b.export_id s.by_id ≡ none
    → a.export_id ≢ b.export_id
    → a.endpoint_id ≡ none
    → b.endpoint_id ≡ some p
    → alloc_endpoint s ≡ (ok p, record s { next_endpoint = n })
    → ((replace_store (two_exports s a b) s).0 ≡ ok tt)
      × (Map.get a.export_id (replace_store (two_exports s a b) s).1.by_id
          ≡ some (record a { endpoint_id = some p }))
      × (Map.get b.export_id (replace_store (two_exports s a b) s).1.by_id ≡ some b)
replace_collides s a b p n name good_a good_b new_a new_b apart none_a some_b alloc = (
  ap (λ r. r.0) replaced,
  ap (λ r. Map.get a.export_id r.1.by_id) replaced ∙ get_a,
  ap (λ r. Map.get b.export_id r.1.by_id) replaced ∙ get_b,
)
  where
    replaced :
        replace_store (two_exports s a b) s
        ≡ (ok tt, record s { next_endpoint = n; by_id = both_at p a b })
    replaced = replace_store-both s a b p n name good_a good_b new_a new_b none_a some_b alloc

    get_a : Map.get a.export_id (both_at p a b) ≡ some (record a { endpoint_id = some p })
    get_a =
        get-insert_ne b.export_id a.export_id _ _ (λ e. apart (sym e))
        ∙ get-insert_self a.export_id _ []

    get_b : Map.get b.export_id (both_at p a b) ≡ some b
    get_b =
        get-insert_self b.export_id _ _ ∙ ap (λ o. some (record b { endpoint_id = o })) (sym some_b)
