-- ===== src/Catalog/Methods/Calls.antt =====
-- The invariant of the catalog over sequences of the methods of bridge/src/catalog/store.rs.
use thatsmatter.Base.{◌≡◌, refl, List, [], ◌∷◌, Option, none, some, arith, Result-cases, inl, inr}
use thatsmatter.Base.Text.{Text}
use thatsmatter.Base.Map
use thatsmatter.Catalog.Model.{Uuid, Export}
use thatsmatter.Catalog.Store.{CatalogStore, CreateExport, PatchExport, new, validate_bridge_name}
use thatsmatter.Catalog.Persist.{Codec, Files, PersistIo}
use thatsmatter.Catalog.Methods.{
  Catalog, create, patch, delete, set_bridge_name, create_store, patch_found, delete_found,
}
use thatsmatter.Catalog.Methods.Invariant.{IsWellFormed, name-IsWellFormed, remove-IsWellFormed}
use thatsmatter.Catalog.Methods.Create.{create_store-IsWellFormed}
use thatsmatter.Catalog.Methods.Patch.{patch_found-IsWellFormed}

-- The calls that change the catalog, but for a bulk replacement; `fresh` is the id that a creation
-- draws.
pub data Call : Type 0 where
  create_call : CreateExport → Uuid → Call
  patch_call : Uuid → PatchExport → Call
  delete_call : Uuid → Call
  rename_call : Text → Call

module _ {Raw : Type 0} (codec : Codec Raw) where
  -- The catalog after a call, whether it succeeds or not.
  unfoldable pub after : PersistIo → Call → Catalog Raw → Catalog Raw
  after io (create_call body fresh) c = (create codec io body fresh c).1
  after io (patch_call id body) c = (patch codec io id body c).1
  after io (delete_call id) c = (delete codec io id c).1
  after io (rename_call name) c = (set_bridge_name codec io name c).1

  -- Each call meets a file system of its own.
  unfoldable pub after_all : List (PersistIo × Call) → Catalog Raw → Catalog Raw
  after_all [] c = c
  after_all ((io, call) ∷ calls) c = after_all calls (after io call c)

  module _ (io : PersistIo) (c : Catalog Raw) where
    pub create-store :
        (body : CreateExport) (fresh : Uuid)
        → (create codec io body fresh c).1.store ≡ (create_store body fresh c.store).1
    unfolding create
    create-store body fresh = ground arith

    pub patch-store :
        (id : Uuid) (body : PatchExport)
        → (patch codec io id body c).1.store
          ≡ (patch_found id body (Map.get id c.store.by_id) c.store).1
    unfolding patch
    patch-store id body = ground arith

    pub delete-store :
        (id : Uuid)
        → (delete codec io id c).1.store ≡ (delete_found id (Map.get id c.store.by_id) c.store).1
    unfolding delete
    delete-store id = ground arith

module _ {s : CatalogStore} (w : IsWellFormed s) where
  delete_found-IsWellFormed : (id : Uuid) (o : Option Export) → IsWellFormed (delete_found id o s).1
  unfolding delete_found
  delete_found-IsWellFormed id none = w
  delete_found-IsWellFormed id (some e) = remove-IsWellFormed w id

  patched-IsWellFormed :
      (id : Uuid) (body : PatchExport) (o : Option Export)
      → Map.get id s.by_id ≡ o
      → IsWellFormed (patch_found id body o s).1
  unfolding patch_found
  patched-IsWellFormed id body none g = w
  patched-IsWellFormed id body (some e) g = patch_found-IsWellFormed id body e w g

module _ {Raw : Type 0} (codec : Codec Raw) (io : PersistIo) where
  renamed-IsWellFormed :
      (name : Text) (c : Catalog Raw)
      → IsWellFormed c.store
      → IsWellFormed (set_bridge_name codec io name c).1.store
  unfolding set_bridge_name
  renamed-IsWellFormed name c w = elim (Result-cases (validate_bridge_name name)) [
    | inr (x, bad) ↦ rw bad w
    | inl (_, good) ↦ rw good (name-IsWellFormed w name)
  ]

  pub after-IsWellFormed :
      (call : Call) (c : Catalog Raw)
      → IsWellFormed c.store
      → IsWellFormed (after codec io call c).store
  unfolding after
  after-IsWellFormed (create_call body fresh) c w =
      rw create-store (create_store-IsWellFormed body fresh w)
  after-IsWellFormed (patch_call id body) c w =
      rw patch-store (patched-IsWellFormed w id body (Map.get id c.store.by_id) refl)
  after-IsWellFormed (delete_call id) c w =
      rw delete-store (delete_found-IsWellFormed w id (Map.get id c.store.by_id))
  after-IsWellFormed (rename_call name) c w = renamed-IsWellFormed name c w

new-IsWellFormed : (name : Text) → IsWellFormed (new name)
unfolding new Map.get
new-IsWellFormed name = record {
  sorted = tt;
  keyed = λ k e g. cc;
  valid = λ k e g. absurd (ground arith);
  distinct = λ j k d e p g h x y. cc;
  assigned = λ k e g. absurd (ground arith);
  next_fits = omega arith;
}

module _ {Raw : Type 0} (codec : Codec Raw) where
  keeps-IsWellFormed :
      (calls : List (PersistIo × Call)) (c : Catalog Raw)
      → IsWellFormed c.store
      → IsWellFormed (after_all codec calls c).store
  unfolding after_all
  keeps-IsWellFormed [] c w = w
  keeps-IsWellFormed ((io, call) ∷ calls) c w =
      keeps-IsWellFormed calls (after codec io call c) (after-IsWellFormed codec io call c w)

  -- From an empty catalog, whatever exports are created, patched and deleted, however it is renamed
  -- and whichever calls of the file system fail, the catalog stays well formed: its entries are in
  -- the order of their ids and under their own ids, names take 1 to 64 bytes, primary entities are
  -- not empty, `next_endpoint` is a `u16`, and each export has an endpoint of 1 to 65535 that no
  -- other has.
  pub after_all-IsWellFormed :
      (name : Text) (files : Files Raw) (calls : List (PersistIo × Call))
      → IsWellFormed (after_all codec calls (record { store = new name; files = files })).store
  after_all-IsWellFormed name files calls = keeps-IsWellFormed calls _ (new-IsWellFormed name)
