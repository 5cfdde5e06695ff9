-- ===== src/Catalog/Load.antt =====
-- `load_or_new` of bridge/src/catalog/store.rs: the catalog that the data directory holds at start.
pub mod Recovery
use Prim.Native.Nat.{min, max}
use thatsmatter.Base.{
  ℕ, ◌+◌, ◌≡◌, refl, Bool, true, false, List, [], ◌∷◌, ◌++◌, Option, none, some, if◌then◌else◌,
  Result, ok, err, Exec, pure, modify, continue, ◌>>=◌, ◌>>◌,
}
use thatsmatter.Base.Text.{Text}
use thatsmatter.Base.Map
use thatsmatter.Catalog.Model.{Uuid, Export}
use thatsmatter.Catalog.Alloc.{u16_max, first_endpoint_id}
use thatsmatter.Catalog.Store.{
  CatalogError, io_error, json_error, CatalogStore, new, alloc_endpoint,
}
use thatsmatter.Catalog.Persist.{Codec, Files, PersistedConfig}

-- The load: the exports of the file with their endpoints, then endpoints for those without.
unfoldable pub load_insert : List Export → CatalogStore → List Uuid → CatalogStore × List Uuid
load_insert [] s missing = (s, missing)
load_insert (e ∷ es) s missing =
    let next : ℕ = elim e.endpoint_id [
      | none ↦ s.next_endpoint
      | some p ↦ max s.next_endpoint (min (p + 1) u16_max)
    ] in
    let more : List Uuid = elim e.endpoint_id [
      | none ↦ missing ++ e.export_id ∷ []
      | some p ↦ missing
    ] in
    load_insert es (record s { by_id = Map.insert e.export_id e s.by_id; next_endpoint = next })
      more

unfoldable pub set_endpoint : Uuid → ℕ → Option Export → CatalogStore → CatalogStore
set_endpoint id p none s = s
set_endpoint id p (some e) s = record s {
  by_id = Map.insert id (record e { endpoint_id = some p }) s.by_id;
}

unfoldable pub load_missing : List Uuid → Exec CatalogStore CatalogError (Unit {0})
unfolding set_endpoint
load_missing [] = pure tt
load_missing (id ∷ ids) = do
  p ← alloc_endpoint
  modify (λ s. set_endpoint id p (Map.get id s.by_id) s)
  load_missing ids

-- A file that is read if it exists.
unfoldable pub read_file :
    {Raw A : Type 0} → Bool → (Raw → Option A) → Option Raw → Result CatalogError (Option A)
read_file readable parse none = ok none
read_file false parse (some raw) = err io_error
read_file true parse (some raw) = elim (parse raw) [ none ↦ err json_error | some a ↦ ok (some a) ]

-- Whether the directory can be made and the two files read.
pub record LoadIo : Type 0 where
  pub create_dir : Bool
  pub read_config : Bool
  pub read_exports : Bool

unfoldable pub load_config : Option PersistedConfig → CatalogStore → CatalogStore
load_config none s = s
load_config (some cfg) s = record s {
  bridge_name = cfg.bridge_name;
  next_endpoint = max cfg.next_endpoint first_endpoint_id;
}

unfoldable pub load_exports : Option (List Export) → Exec CatalogStore CatalogError (Unit {0})
unfolding load_insert load_missing
load_exports none s = (ok tt, s)
load_exports (some es) s = let (s', missing) = load_insert es s [] in load_missing missing s'

module _ {Raw : Type 0} (codec : Codec Raw) where
  unfoldable pub load_or_new : LoadIo → Files Raw → Text → Result CatalogError CatalogStore
  unfolding read_file load_config load_exports new
  load_or_new io files default_bridge_name =
      if io.create_dir
      then (elim (read_file io.read_config codec.config_from_str files.config) [
        | err e ↦ err e
        | ok cfg ↦ elim (read_file io.read_exports codec.exports_from_str files.exports) [
          | err e ↦ err e
          | ok es ↦
              let (r, s) = load_exports es (load_config cfg (new default_bridge_name)) in
              elim r [ err e ↦ err e | ok _ ↦ ok s ]
        ]
      ])
      else err io_error
