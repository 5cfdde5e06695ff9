-- ===== src/Catalog/Methods/Returns.antt =====
-- When the methods of bridge/src/catalog/store.rs succeed: with good fields, an entry where one is
-- wanted, and a file system and serde_json that do their part.
use thatsmatter.Base.{
  ℕ, ◌≤◌, ◌≡◌, refl, true, List, Option, none, some, ok, err, ◌⊎◌, inl, inr, Option-cases,
}
use thatsmatter.Base.Text.{Text}
use thatsmatter.Base.Map
use thatsmatter.Catalog.Model.{Uuid, Export}
use thatsmatter.Catalog.Alloc.{u16_max}
use thatsmatter.Catalog.Store.{
  endpoint_exhausted, CatalogStore, CreateExport, PatchExport, validate_name, validate_primary,
  validate_export_fields,
}
use thatsmatter.Catalog.Persist.{Codec, PersistIo, PersistedConfig, Files, persist}
use thatsmatter.Catalog.Methods.{
  Catalog, create, patch, delete, create_store, patch_found, patch_fields, delete_found, through,
  unwrap_or,
}
use thatsmatter.Catalog.Methods.Create.{new_export}
use thatsmatter.Catalog.Methods.Allocation.{exhausted, assigned, alloc_endpoint-Allocation}

-- A file system on which every call succeeds, and a serde_json that prints every catalog.
abbrev pub working : PersistIo
working = record {
  create_dir = true;
  write_config = true;
  rename_config = true;
  write_exports = true;
  rename_exports = true;
}

pub record Prints {Raw : Type 0} (codec : Codec Raw) : Type 0 where
  pub config : (c : PersistedConfig) → (r : Raw) × (codec.config_to_string c ≡ some r)
  pub exports : (es : List Export) → (r : Raw) × (codec.exports_to_string es ≡ some r)

-- The checks of a name and of a primary entity.
pub record IsAccepted (n p : Text) : Type 0 where
  pub name : validate_name n ≡ ok tt
  pub primary : validate_primary p ≡ ok tt

fields-ok :
    (body : PatchExport) (q : Option ℕ) (d : Export)
    → ((t : Text) → body.name ≡ some t → validate_name t ≡ ok tt)
    → ((t : Text) → body.primary_entity_id ≡ some t → validate_primary t ≡ ok tt)
    → (patch_fields body q d).0 ≡ ok tt
unfolding patch_fields
fields-ok body q d n m = elim (Option-cases body.name) [
  | inl x ↦ elim (Option-cases body.primary_entity_id) [
    | inl y ↦ rw (x, y) refl
    | inr (t, y) ↦ rw (x, y, m t y) refl
  ]
  | inr (u, x) ↦ elim (Option-cases body.primary_entity_id) [
    | inl y ↦ rw (x, n u x, y) refl
    | inr (t, y) ↦ rw (x, n u x, y, m t y) refl
  ]
]

found-through :
    (id : Uuid) (body : PatchExport) (d : Export) (p : ℕ) (s : CatalogStore)
    → d.endpoint_id ≡ some p
    → patch_found id body (some d) s ≡ through id d (patch_fields body none) s
unfolding patch_found
found-through id body d p s a = rw a refl

module _ {Raw : Type 0} (codec : Codec Raw) (prints : Prints codec) where
  persist-ok : (s : CatalogStore) (f : Files Raw) → (persist codec working s f).0 ≡ ok tt
  unfolding persist
  persist-ok s f =
      let (r, p) =
        prints.config (record { bridge_name = s.bridge_name; next_endpoint = s.next_endpoint }) in
      let (t, q) = prints.exports (Map.values s.by_id) in rw (p, q) refl

  module _ (c : Catalog Raw) where
    pub delete-returns :
        (id : Uuid) (d : Export)
        → Map.get id c.store.by_id ≡ some d
        → (delete codec working id c).0 ≡ ok d
    unfolding delete delete_found
    delete-returns id d g = rw (g, persist-ok) refl

    pub create-returns :
        (body : CreateExport) (id : Uuid)
        → c.store.next_endpoint ≤ u16_max
        → IsAccepted body.name body.primary_entity_id
        → Map.get (unwrap_or body.export_id id) c.store.by_id ≡ none
        → ((e : Export) × ((create codec working body id c).0 ≡ ok e))
          ⊎ ((create codec working body id c).0 ≡ err endpoint_exhausted)
    unfolding create create_store validate_export_fields Map.get
    create-returns body id fits a n = elim (alloc_endpoint-Allocation c.store fits) [
      | exhausted full r ↦ inr (rw (a.name, a.primary, n, r) refl)
      | assigned p lo hi free r ↦ inl (
        new_export body (unwrap_or body.export_id id) p,
        rw (a.name, a.primary, n, r, persist-ok) refl,
      )
    ]

    pub patch-returns :
        (id : Uuid) (body : PatchExport) (d : Export) (p : ℕ)
        → Map.get id c.store.by_id ≡ some d
        → d.endpoint_id ≡ some p
        → ((t : Text) → body.name ≡ some t → validate_name t ≡ ok tt)
        → ((t : Text) → body.primary_entity_id ≡ some t → validate_primary t ≡ ok tt)
        → (e : Export) × ((patch codec working id body c).0 ≡ ok e)
    unfolding patch through patch_fields
    patch-returns id body d p g a n m =
        let e = (patch_fields body none d).1 in
        (
          e,
          rw
              (
                g,
                found-through id body d p c.store a,
                through,
                fields-ok body none d n m,
                persist-ok,
              )
              refl,
        )
