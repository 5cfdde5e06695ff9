-- ===== src/Catalog/Load/Recovery.antt =====
-- Starts of bridge/src/catalog/store.rs on the files that `persist` wrote.
use thatsmatter.Base.{
  ℕ, ◌≡◌, refl, true, List, [], ◌∷◌, ◌++◌, some, arith, All, Result, ok, err, ◌∙◌, ap, Option-cases,
  inl, inr,
}
use mathlib.Core.List.{append_assoc, append-nil}
use thatsmatter.Base.Text.{Text}
use thatsmatter.Base.Map
use thatsmatter.Base.Map.Order.{All-entries, insert_end}
use thatsmatter.Catalog.Model.{Uuid, Export}
use thatsmatter.Catalog.Store.{CatalogError, CatalogStore, new}
use thatsmatter.Catalog.Persist.{Codec, Files, PersistIo, PersistedConfig, persist}
use thatsmatter.Catalog.Load.{load_config, load_insert, load_missing, load_or_new}
use thatsmatter.Catalog.Methods.Invariant.{IsWellFormed, HasEndpoint}

-- An entry of a map that can be written and read back unchanged: under its own id, with an
-- endpoint.
abbrev IsKept : ℕ × Export → Type 0
IsKept x = (x.1.export_id ≡ x.0) × HasEndpoint x.1

load_insert-by_id :
    (m : List (ℕ × Export)) (s : CatalogStore) (missing : List Uuid) (acc : List (ℕ × Export))
    → s.by_id ≡ acc
    → All IsKept m
    → Map.IsSorted (acc ++ m)
    → (load_insert (Map.values m) s missing).0.by_id ≡ acc ++ m
unfolding load_insert Map.values
load_insert-by_id [] s missing acc b h o = rw append-nil b
load_insert-by_id ((k, e) ∷ m) s missing acc b h o =
    let own : Map.insert e.export_id e s.by_id ≡ Map.insert k e s.by_id =
      ap (λ i. Map.insert i e s.by_id) h.0.0 in
    let end : Map.insert k e s.by_id ≡ acc ++ (k, e) ∷ [] =
      ap (Map.insert k e) b ∙ insert_end k e acc m o in
    load_insert-by_id m _ _ (acc ++ (k, e) ∷ []) (own ∙ end) h.1 (rw append_assoc o)
    ∙ append_assoc acc ((k, e) ∷ []) m

load_insert-missing :
    (m : List (ℕ × Export)) (s : CatalogStore) (missing : List Uuid)
    → All IsKept m
    → (load_insert (Map.values m) s missing).1 ≡ missing
unfolding load_insert Map.values
load_insert-missing [] s missing h = refl
load_insert-missing ((k, e) ∷ m) s missing h =
    load_insert-missing m _ _ h.1 ∙ ground (arith, h.0.1.assigned)

load_insert-name :
    (es : List Export) (s : CatalogStore) (missing : List Uuid)
    → (load_insert es s missing).0.bridge_name ≡ s.bridge_name
unfolding load_insert
load_insert-name [] s missing = refl
load_insert-name (e ∷ es) s missing = load_insert-name es _ _

-- What the files hold after a successful save.
pub record Holds {Raw : Type 0} (codec : Codec Raw) (files : Files Raw) (s : CatalogStore)
    : Type 0 where
  pub config_raw : Raw
  pub exports_raw : Raw
  pub config : files.config ≡ some config_raw
  pub exports : files.exports ≡ some exports_raw
  pub config_reads :
      codec.config_from_str config_raw
      ≡ some (record { bridge_name = s.bridge_name; next_endpoint = s.next_endpoint })
  pub exports_reads : codec.exports_from_str exports_raw ≡ some (Map.values s.by_id)

module _ {Raw : Type 0} (codec : Codec Raw) where
  pub persist-Holds :
      (io : PersistIo) (s : CatalogStore) (files : Files Raw)
      → (persist codec io s files).0 ≡ ok tt
      → Holds codec (persist codec io s files).1 s
  unfolding persist
  persist-Holds io s files h = elim (Option-cases (codec.config_to_string config)) [
    | inl x ↦ absurd (ground arith)
    | inr (a, p) ↦ elim (Option-cases (codec.exports_to_string (Map.values s.by_id))) [
      | inl x ↦ absurd (ground arith)
      | inr (b, q) ↦ record {
        config_raw = a;
        exports_raw = b;
        config = ground arith;
        exports = ground arith;
        config_reads = codec.config_round_trip config a p;
        exports_reads = codec.exports_round_trip (Map.values s.by_id) b q;
      }
    ]
  ]
    where
      config : PersistedConfig
      config = record { bridge_name = s.bridge_name; next_endpoint = s.next_endpoint }

  load-Holds :
      (s : CatalogStore) (files : Files Raw) (name : Text)
      → IsWellFormed s
      → Holds codec files s
      → (t : CatalogStore) × (load_or_new codec
            (record { create_dir = true; read_config = true; read_exports = true })
            files
            name
          ≡ ok t)
        × (t.bridge_name ≡ s.bridge_name)
        × (t.by_id ≡ s.by_id)
  unfolding load_or_new
  load-Holds s files name w h = (
    (load_insert (Map.values s.by_id) start []).0,
    rw (h.config, h.config_reads, h.exports, h.exports_reads)
        (ap finish (load_insert-missing s.by_id start [] kept)),
    load_insert-name (Map.values s.by_id) start [],
    load_insert-by_id s.by_id start [] [] refl kept w.sorted,
  )
    where
      start : CatalogStore
      start =
          load_config
            (some (record { bridge_name = s.bridge_name; next_endpoint = s.next_endpoint }))
            (new name)

      finish : List Uuid → Result CatalogError CatalogStore
      finish ids =
          let (r, t) = load_missing ids (load_insert (Map.values s.by_id) start []).0 in
          elim r [ err e ↦ err e | ok _ ↦ ok t ]

      kept : All IsKept s.by_id
      kept =
          All-entries (λ k e. (e.export_id ≡ k) × HasEndpoint e) s.by_id w.sorted
            (λ k e g. (w.keyed k e g, w.assigned k e g))

  -- Whatever the default name, a start on files that a successful save of a well-formed catalog
  -- wrote, all of them readable, gives back the bridge name and the exports with their endpoints.
  pub load-persist :
      (io : PersistIo) (s : CatalogStore) (files : Files Raw) (name : Text)
      → IsWellFormed s
      → (persist codec io s files).0 ≡ ok tt
      → (t : CatalogStore) × (load_or_new codec
            (record { create_dir = true; read_config = true; read_exports = true })
            (persist codec io s files).1
            name
          ≡ ok t)
        × (t.bridge_name ≡ s.bridge_name)
        × (t.by_id ≡ s.by_id)
  load-persist io s files name w h = load-Holds s _ name w (persist-Holds io s files h)
