-- ===== src/Catalog/Persist.antt =====
-- `persist` of bridge/src/catalog/store.rs: the two files of the data directory. `PersistIo` says
-- which calls of the file system succeed, `Codec` stands for serde_json.
use thatsmatter.Base.{
  ℕ, ◌≡◌, Bool, true, false, List, Option, none, some, ok, err, Exec, ◌>>=◌, ◌>>◌,
}
use thatsmatter.Base.Text.{Text}
use thatsmatter.Base.Map
use thatsmatter.Catalog.Model.{Export}
use thatsmatter.Catalog.Store.{CatalogError, io_error, json_error, CatalogStore}

pub record PersistedConfig : Type 0 where
  pub bridge_name : Text
  pub next_endpoint : ℕ

-- The contents of the files of the data directory: `bridge_config.json` and `exports.json`, and
-- the `.tmp` files that are renamed to them.
pub record Files (Raw : Type 0) : Type 0 where
  pub config : Option Raw
  pub exports : Option Raw
  pub config_tmp : Option Raw
  pub exports_tmp : Option Raw

-- The calls of the file system that `persist` makes, in their order: whether each succeeds.
pub record PersistIo : Type 0 where
  pub create_dir : Bool
  pub write_config : Bool
  pub rename_config : Bool
  pub write_exports : Bool
  pub rename_exports : Bool

-- serde_json for the two files. What is printed parses back.
pub record Codec (Raw : Type 0) : Type 0 where
  pub config_to_string : PersistedConfig → Option Raw
  pub config_from_str : Raw → Option PersistedConfig
  pub exports_to_string : List Export → Option Raw
  pub exports_from_str : Raw → Option (List Export)
  pub config_round_trip :
      (c : PersistedConfig) (r : Raw) → config_to_string c ≡ some r → config_from_str r ≡ some c
  pub exports_round_trip :
      (es : List Export) (r : Raw) → exports_to_string es ≡ some r → exports_from_str r ≡ some es

-- A call of the file system: what it does to the files if it succeeds.
unfoldable pub fs :
    {Raw : Type 0} → Bool → (Files Raw → Files Raw) → Exec (Files Raw) CatalogError (Unit {0})
fs true f files = (ok tt, f files)
fs false f files = (err io_error, files)

-- `serde_json::to_string_pretty(…)?`.
unfoldable pub to_raw : {Raw : Type 0} → Option Raw → Exec (Files Raw) CatalogError Raw
to_raw none files = (err json_error, files)
to_raw (some raw) files = (ok raw, files)

module _ {Raw : Type 0} (codec : Codec Raw) (io : PersistIo) where
  unfoldable pub persist_config : CatalogStore → Exec (Files Raw) CatalogError (Unit {0})
  unfolding fs to_raw
  persist_config s = do
    raw ← to_raw (
        codec.config_to_string
          (record { bridge_name = s.bridge_name; next_endpoint = s.next_endpoint }))
    fs io.write_config (λ f. record f { config_tmp = some raw })
    fs io.rename_config (λ f. record f { config = f.config_tmp; config_tmp = none })

  unfoldable pub persist_exports : CatalogStore → Exec (Files Raw) CatalogError (Unit {0})
  unfolding fs to_raw
  persist_exports s = do
    raw ← to_raw (codec.exports_to_string (Map.values s.by_id))
    fs io.write_exports (λ f. record f { exports_tmp = some raw })
    fs io.rename_exports (λ f. record f { exports = f.exports_tmp; exports_tmp = none })

  unfoldable pub persist : CatalogStore → Exec (Files Raw) CatalogError (Unit {0})
  unfolding persist_config persist_exports
  persist s = do fs io.create_dir (λ f. f); persist_config s; persist_exports s
