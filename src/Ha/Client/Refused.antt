-- ===== src/Ha/Client/Refused.antt =====
-- Exports that block `sync_catalog` of custom_components/thatsmatter/bridge_client.py.
use thatsmatter.Base.{ℕ, ◌<◌, ◌≡◌, ◌≢◌, Bool, List, some, arith, ok, ap}
use thatsmatter.Base.Text.{len}
use thatsmatter.Base.Map
use thatsmatter.Catalog.Model.{Export}
use thatsmatter.Catalog.Persist.{Codec}
use thatsmatter.Catalog.Methods.Invariant.{IsWellFormed}
use thatsmatter.Ipc.{Backend, AppState}
use thatsmatter.Ipc.Sync.{Change}
use thatsmatter.Ha.Models.{HaExport}
use thatsmatter.Ha.Client.{Link, sync_catalog}
use thatsmatter.Ha.Client.Converges.{ids, sync_catalog-IsSynced}

module _ {V Raw B : Type 0} (backend : Backend V B) (codec : Codec Raw) (link : Change → Link) where
  -- While Home Assistant has an export whose name takes more than 64 bytes, though it may have no
  -- more than 64 characters, no synchronisation with a well-formed catalog returns.
  pub long_name_blocks :
      (listed : Bool) (exports : List HaExport) (s : AppState Raw B) (j : ℕ) (l : HaExport)
      → IsWellFormed s.catalog.store
      → Map.get j (ids exports) ≡ some l
      → 64 < len l.name
      → (items : List Export) → (sync_catalog backend codec link listed exports s).0 ≢ ok items
  long_name_blocks listed exports s j l w g long items h =
      let synced = sync_catalog-IsSynced backend codec link listed exports s items w h in
      let (item, stored, mirrors, same) = synced.matched j l g in
      let fits = (synced.well_formed.valid j item stored).name.fits in
      omega (arith, ap len mirrors.name)
