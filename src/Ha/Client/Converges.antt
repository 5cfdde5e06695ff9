-- ===== src/Ha/Client/Converges.antt =====
-- `sync_catalog` of custom_components/thatsmatter/bridge_client.py makes the bridge's catalog that of
-- Home Assistant.
use thatsmatter.Base.{
  ℕ, ◌≡◌, refl, subst, ◌∙◌, Bool, true, false, List, [], ◌∷◌, none, some, arith, Result, ok, inl,
  inr, Result-cases,
}
use thatsmatter.Base.Map
use thatsmatter.Catalog.Model.{Export}
use thatsmatter.Catalog.Store.{list}
use thatsmatter.Catalog.Persist.{Codec}
use thatsmatter.Catalog.Methods.Invariant.{IsWellFormed}
use thatsmatter.Ipc.{Backend, AppState, list_exports}
use thatsmatter.Ipc.Sync.{Change}
use thatsmatter.Ha.Models.{HaExport}
use thatsmatter.Ha.Client.{
  Link, BridgeClientError, delete_remote_only, reconcile, reconcile_all, sync_catalog,
}
use thatsmatter.Ha.Client.Dict.{
  by_id, NodupKeys, get_head, get_tail, get_cases, by_id-NodupKeys, by_id-key, get-by_id,
}
use thatsmatter.Ha.Client.Mirrors.{Mirrors}
use thatsmatter.Ha.Client.Requests.{Reconciled, reconcile-Reconciled, reconcile-IsWellFormed}
use thatsmatter.Ha.Client.Trimmed.{delete_remote_only-Trimmed}

-- The results of the reconciliation are the entries of the catalog, one for each local export.
abbrev pub Aligned : {Raw B : Type 0} → AppState Raw B → List (ℕ × HaExport) → List Export → Type 0
Aligned t [] [] = Unit
Aligned t [] (e ∷ es) = ⊥
Aligned t (l ∷ ls) [] = ⊥
Aligned t ((id, l) ∷ ls) (e ∷ es) =
    (Map.get id t.catalog.store.by_id ≡ some e) × (e.export_id ≡ id) × Aligned t ls es

-- Home Assistant's exports by their ids, the last of each.
abbrev pub ids : List HaExport → List (ℕ × HaExport)
ids exports = by_id (λ l. l.export_id) exports

module _ {V Raw B : Type 0} (backend : Backend V B) (codec : Codec Raw) (link : Change → Link) where
  -- A local export is in the catalog, with the endpoint that the bridge's had if it had one.
  pub record Matched (remote : List (ℕ × Export)) (j : ℕ) (l : HaExport) (t : AppState Raw B)
      : Type 0 where
    pub item : Export
    pub stored : Map.get j t.catalog.store.by_id ≡ some item
    pub mirrors : Mirrors l item
    pub stable : (b : Export) → Map.get j remote ≡ some b → item.endpoint_id ≡ b.endpoint_id

  record Settled (remote : List (ℕ × Export)) (locals : List (ℕ × HaExport)) (items : List Export)
      (s t : AppState Raw B) : Type 0 where
    well_formed : IsWellFormed t.catalog.store
    aligned : Aligned t locals items
    untouched :
        (j : ℕ)
        → Map.get j locals ≡ none
        → Map.get j t.catalog.store.by_id ≡ Map.get j s.catalog.store.by_id
    matched : (j : ℕ) (l : HaExport) → Map.get j locals ≡ some l → Matched remote j l t

  Settled-cons :
      (remote : List (ℕ × Export)) (id : ℕ) (l : HaExport) (locals : List (ℕ × HaExport))
      (e : Export) (es : List Export) (s s' t : AppState Raw B)
      → l.export_id ≡ id
      → Map.get id locals ≡ none
      → Reconciled backend codec link id l (Map.get id remote) e s s'
      → Settled remote locals es s' t
      → Settled remote ((id, l) ∷ locals) (e ∷ es) s t
  Settled-cons remote id l locals e es s s' t own n one rest =
      let stored : Map.get id t.catalog.store.by_id ≡ some e =
        ground (arith, one.entry id, rest.untouched id n) in
      record {
        well_formed = rest.well_formed;
        aligned = (stored, one.mirrors.export_id ∙ own, rest.aligned);
        untouched = λ j g. elim (get_cases id l locals j none g) [
          | inl (here, x) ↦ cc
          | inr (far, g') ↦ ground (arith, rest.untouched j g', one.entry j)
        ];
        matched = λ j m g. elim (get_cases id l locals j (some m) g) [
          | inr (far, g') ↦ rest.matched j m g'
          | inl (here, x) ↦
              subst (λ i. Matched remote i m t) here
                (subst (λ y. Matched remote id y t) (ground arith)
                  (record {
                    item = e;
                    stored = stored;
                    mirrors = one.mirrors;
                    stable = one.stable;
                  }))
        ];
      }

  nothing :
      (t : AppState Raw B) (items : List Export)
      → ◌≡◌ {A = Result BridgeClientError (List Export)} (ok []) (ok items)
      → Aligned t [] items
  nothing t [] h = tt
  nothing t (e ∷ es) h = cc

  reconcile_all-Settled :
      (remote : List (ℕ × Export)) (locals : List (ℕ × HaExport)) (s : AppState Raw B)
      (items : List Export)
      → IsWellFormed s.catalog.store
      → NodupKeys locals
      → ((j : ℕ) (l : HaExport) → Map.get j locals ≡ some l → l.export_id ≡ j)
      → ((j : ℕ) (l : HaExport)
          → Map.get j locals ≡ some l
          → Map.get j s.catalog.store.by_id ≡ Map.get j remote)
      → (reconcile_all backend codec link remote locals s).0 ≡ ok items
      → Settled remote locals items s (reconcile_all backend codec link remote locals s).1
  unfolding reconcile_all
  reconcile_all-Settled remote [] s items w n k c h = record {
    well_formed = w;
    aligned = nothing s items h;
    untouched = λ j g. refl;
    matched = λ j l g. absurd (unfold Map.get in ground arith);
  }
  reconcile_all-Settled remote ((id, l) ∷ locals) s items w n k c h =
      elim (Result-cases (reconcile backend codec link id l (Map.get id remote) s).0) [
        | inr (e, failed) ↦ cc (rw failed at h)
        | inl (e, done) ↦
            let s' = (reconcile backend codec link id l (Map.get id remote) s).1 in
            let one =
              reconcile-Reconciled backend codec link id l (Map.get id remote) s e w
                (k id l (get_head id l locals)) (c id l (get_head id l locals)) done in
            let w' = reconcile-IsWellFormed backend codec link id l (Map.get id remote) s w in
            elim (Result-cases (reconcile_all backend codec link remote locals s').0) [
              | inr (e', failed) ↦ cc (rw (done, failed) at h)
              | inl (es, finished) ↦
                  let rest =
                    reconcile_all-Settled remote locals s' es w' n.1
                      (λ j m g. k j m (get_tail id l locals j m n.0 g).0)
                      (λ j m g.
                        one.entry j
                        ∙ (rw ((get_tail id l locals j m n.0 g).1)
                            (c j m (get_tail id l locals j m n.0 g).0)))
                      finished in
                  let h' : ◌≡◌ {A = Result BridgeClientError (List Export)} (ok (e ∷ es))
                      (ok items) =
                    rw (done, finished) at h in
                  let same : e ∷ es ≡ items = ground arith in
                  rw (done, finished)
                    (subst
                      (λ x.
                        Settled remote ((id, l) ∷ locals) x s
                          (reconcile_all backend codec link remote locals s').1)
                      same
                      (Settled-cons remote id l locals e es s s'
                        (reconcile_all backend codec link remote locals s').1
                        (k id l (get_head id l locals)) n.0 one rest))
            ]
      ]

-- The bridge's catalog is that of the exports: it has their ids and no others, each export says what
-- Home Assistant's says, and one that the bridge had before has kept its endpoint.
pub record IsSynced {Raw B : Type 0} (exports : List HaExport) (s t : AppState Raw B) : Type 0 where
  pub well_formed : IsWellFormed t.catalog.store
  pub only : (j : ℕ) → Map.get j (ids exports) ≡ none → Map.get j t.catalog.store.by_id ≡ none
  pub matched :
      (j : ℕ) (l : HaExport)
      → Map.get j (ids exports) ≡ some l
      → (item : Export) × (Map.get j t.catalog.store.by_id ≡ some item)
        × Mirrors l item
        × ((b : Export)
            → Map.get j s.catalog.store.by_id ≡ some b
            → item.endpoint_id ≡ b.endpoint_id)

module _ {V Raw B : Type 0} (backend : Backend V B) (codec : Codec Raw) (link : Change → Link) where
  pub sync_all :
      (exports : List HaExport) (s : AppState Raw B) (items : List Export)
      → IsWellFormed s.catalog.store
      → (sync_catalog backend codec link true exports s).0 ≡ ok items
      → IsSynced exports s (sync_catalog backend codec link true exports s).1
        × Aligned (sync_catalog backend codec link true exports s).1 (ids exports) items
  unfolding sync_catalog list_exports list
  sync_all exports s items w h =
      let local = ids exports in
      let remote = by_id (λ (e : Export). e.export_id) (Map.values s.catalog.store.by_id) in
      let listing = λ (j : ℕ).
        get-by_id (λ (e : Export). e.export_id) s.catalog.store.by_id j w.sorted w.keyed in
      elim (Result-cases (delete_remote_only backend codec link local remote s).0) [
        | inr (e, failed) ↦ cc (rw failed at h)
        | inl (u, done) ↦
            let s' = (delete_remote_only backend codec link local remote s).1 in
            let trimmed = delete_remote_only-Trimmed backend codec link local remote s w done in
            let h' : (reconcile_all backend codec link remote local s').0 ≡ ok items =
              rw done at h in
            let settled =
              reconcile_all-Settled backend codec link remote local s' items trimmed.well_formed
                (by_id-NodupKeys (λ (l : HaExport). l.export_id) exports)
                (by_id-key (λ (l : HaExport). l.export_id) exports)
                (λ j l g. ground (arith, trimmed.entries j, listing j)) h' in
            rw done (
              record {
                well_formed = settled.well_formed;
                only = λ j g. ground (arith, settled.untouched j g, trimmed.entries j, listing j);
                matched = λ j l g.
                    let m = settled.matched j l g in
                    (m.item, m.stored, m.mirrors, λ b q. m.stable b (listing j ∙ q));
              },
              settled.aligned,
            )
      ]

  -- Once a synchronisation with a well-formed catalog has returned, the bridge's catalog is well
  -- formed and that of Home Assistant: it has the ids of the exports and no others, each export says
  -- what Home Assistant's says, and an export that the bridge had before has kept its endpoint.
  pub sync_catalog-IsSynced :
      (listed : Bool) (exports : List HaExport) (s : AppState Raw B) (items : List Export)
      → IsWellFormed s.catalog.store
      → (sync_catalog backend codec link listed exports s).0 ≡ ok items
      → IsSynced exports s (sync_catalog backend codec link listed exports s).1
  unfolding sync_catalog
  sync_catalog-IsSynced false exports s items w h = cc
  sync_catalog-IsSynced true exports s items w h = (sync_all exports s items w h).0
