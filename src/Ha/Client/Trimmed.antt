-- ===== src/Ha/Client/Trimmed.antt =====
-- What the deletions of `sync_catalog` in custom_components/thatsmatter/bridge_client.py leave.
use thatsmatter.Base.{
  ℕ, ◌≡◌, List, [], ◌∷◌, none, arith, if◌then◌else◌, ok, inl, inr, Result-cases, Bool-cases,
}
use thatsmatter.Base.Map
use thatsmatter.Catalog.Model.{Export}
use thatsmatter.Catalog.Persist.{Codec}
use thatsmatter.Catalog.Methods.Invariant.{IsWellFormed}
use thatsmatter.Ipc.{Backend, AppState}
use thatsmatter.Ipc.Sync.{Change, deletes}
use thatsmatter.Ha.Models.{HaExport}
use thatsmatter.Ha.Client.{Link, delete_export, delete_remote_only}
use thatsmatter.Ha.Client.Requests.{request-IsWellFormed, delete_export-Entry}

module _ {V Raw B : Type 0} (backend : Backend V B) (codec : Codec Raw) (link : Change → Link) where
  -- The catalog once the exports that only the bridge has are gone.
  pub record Trimmed (local : List (ℕ × HaExport)) (remote : List (ℕ × Export))
      (s t : AppState Raw B) : Type 0 where
    pub well_formed : IsWellFormed t.catalog.store
    pub entries :
        (j : ℕ)
        → Map.get j t.catalog.store.by_id ≡ (
            if Map.contains_key j local
            then Map.get j s.catalog.store.by_id
            else if Map.contains_key j remote
            then none
            else Map.get j s.catalog.store.by_id)

  pub delete_remote_only-Trimmed :
      (local : List (ℕ × HaExport)) (remote : List (ℕ × Export)) (s : AppState Raw B)
      → IsWellFormed s.catalog.store
      → (delete_remote_only backend codec link local remote s).0 ≡ ok tt
      → Trimmed local remote s (delete_remote_only backend codec link local remote s).1
  unfolding delete_remote_only Map.get
  delete_remote_only-Trimmed local [] s w h = record {
    well_formed = w;
    entries = λ j. ground arith;
  }
  delete_remote_only-Trimmed local ((rid, x) ∷ remote) s w h =
      elim (Bool-cases (Map.contains_key rid local)) [
        | inl kept ↦
            let rest = delete_remote_only-Trimmed local remote s w (rw kept at h) in
            rw kept (record {
              well_formed = rest.well_formed;
              entries = λ j. ground (arith, rest.entries j);
            })
        | inr gone ↦ elim (Result-cases (delete_export backend codec link rid s).0) [
          | inr (e, failed) ↦ absurd (ground arith)
          | inl (e, done) ↦
              let s' = (delete_export backend codec link rid s).1 in
              let rest =
                delete_remote_only-Trimmed local remote s' (deleted-IsWellFormed rid s w)
                  (rw (gone, done) at h) in
              rw (gone, done)
                (record {
                  well_formed = rest.well_formed;
                  entries = λ j. ground (
                    arith,
                    rest.entries j,
                    delete_export-Entry backend codec link rid s e done j,
                  );
                })
        ]
      ]
    where
      deleted-IsWellFormed :
          (rid : ℕ) (s : AppState Raw B)
          → IsWellFormed s.catalog.store
          → IsWellFormed (delete_export backend codec link rid s).1.catalog.store
      deleted-IsWellFormed rid s w =
          unfold delete_export in request-IsWellFormed backend codec link (deletes rid) s w
