-- ===== src/Startup/Restart.antt =====
-- A start of the process of bridge/src/main.rs on the files that an earlier one saved.
use thatsmatter.Base.{◌≡◌, true, Result, ok, ap, sym, ◌∙◌, arith}
use thatsmatter.Base.Map
use thatsmatter.Catalog.Store.{CatalogStore, list}
use thatsmatter.Catalog.Persist.{Files, PersistIo, persist}
use thatsmatter.Catalog.Persist
use thatsmatter.Catalog.Load.{load_or_new}
use thatsmatter.Catalog.Load.Recovery.{load-persist}
use thatsmatter.Catalog.Methods.Invariant.{IsWellFormed}
use thatsmatter.Commissioning
use thatsmatter.Matter.Plane
use thatsmatter.Matter.Plane.{ExportPlane}
use thatsmatter.Pairing.{Codes}
use thatsmatter.Startup.{Config, Machine, Bridge, dev_bridge, rs_bridge, boot}
use thatsmatter.Startup.Synced.{IsSynced, boot-IsSynced}

-- The bridge has the exports and the name of a store, and so has its backend.
abbrev pub Continues : {V Raw : Type 0} → Machine V → CatalogStore → Bridge V Raw → Type 0
Continues m s (dev_bridge a) =
    (a.catalog.store.by_id ≡ s.by_id)
    × (a.catalog.store.bridge_name ≡ s.bridge_name)
    × (a.backend.exports ≡ list s)
Continues m s (rs_bridge a) =
    (a.catalog.store.by_id ≡ s.by_id)
    × (a.catalog.store.bridge_name ≡ s.bridge_name)
    × ((plane : ExportPlane) × (a.backend.plane
          ≡ Plane.set_exports m.answers.random (list s) plane))

ok-same : {E A : Type 0} (a b : A) → ◌≡◌ {A = Result E A} (ok a) (ok b) → a ≡ b
ok-same a b h = ground (arith, h)

synced-Continues :
    {V Raw : Type 0} (m : Machine V) (cfg : Config) (s t : CatalogStore) (bridge : Bridge V Raw)
    → t.by_id ≡ s.by_id
    → t.bridge_name ≡ s.bridge_name
    → IsSynced m cfg t bridge
    → Continues m s bridge
unfolding list
synced-Continues m cfg s t (dev_bridge a) i n (_, st, _, e) =
    (ap (λ x. x.by_id) st ∙ i, ap (λ x. x.bridge_name) st ∙ n, e ∙ ap Map.values i)
synced-Continues m cfg s t (rs_bridge a) i n (_, st, _, _, (plane, e)) =
    (ap (λ x. x.by_id) st ∙ i, ap (λ x. x.bridge_name) st ∙ n, (plane, rw i at e))

module _ {V Raw CommRaw : Type 0} (m : Machine V) (pairing : Codes) (codec : Persist.Codec Raw)
    (comm : Commissioning.Codec CommRaw) where
  -- After a successful save of a well-formed catalog, a process that starts on the files, can read
  -- them and gets as far as its control plane has the exports and the bridge name of that catalog
  -- again, whatever the configuration says, and its backend has been given those exports.
  pub boot-Continues :
      (io : PersistIo) (s : CatalogStore) (files : Files Raw) (cfg : Config)
      (before : Commissioning.Files CommRaw) (bridge : Bridge V Raw)
      → IsWellFormed s
      → (persist codec io s files).0 ≡ ok tt
      → m.load ≡ record { create_dir = true; read_config = true; read_exports = true }
      → (boot m pairing codec comm cfg (persist codec io s files).1 before).0 ≡ ok bridge
      → Continues m s bridge
  boot-Continues io s files cfg before bridge w saved readable h =
      let (t, loaded, name, same) = load-persist codec io s files cfg.bridge_name w saved in
      let (_, (store, found, synced)) = boot-IsSynced m pairing codec comm cfg _ before bridge h in
      let reloaded : load_or_new codec m.load (persist codec io s files).1 cfg.bridge_name ≡ ok t =
        ap (λ l. load_or_new codec l (persist codec io s files).1 cfg.bridge_name) readable
        ∙ loaded in
      let one : store ≡ t = ok-same store t (sym found ∙ reloaded) in
      synced-Continues m cfg s store bridge (rw one same) (rw one name) synced
