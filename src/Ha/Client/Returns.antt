-- ===== src/Ha/Client/Returns.antt =====
-- When `sync_catalog` of custom_components/thatsmatter/bridge_client.py returns.
use thatsmatter.Base.{
  ℕ, ◌≡◌, refl, All, ◌∙◌, true, List, [], ◌∷◌, some, arith, ok, err, ◌⊎◌, inl, inr, Bool-cases,
}
use thatsmatter.Base.Map
use thatsmatter.Catalog.Model.{Export}
use thatsmatter.Catalog.Store.{list}
use thatsmatter.Catalog.Persist.{Codec}
use thatsmatter.Catalog.Methods.Invariant.{IsWellFormed}
use thatsmatter.Catalog.Methods.Returns.{Prints, delete-returns}
use thatsmatter.Ipc.{Backend, AppState, list_exports}
use thatsmatter.Ipc.Sync.{deletes, method}
use thatsmatter.Ha.Models.{HaExport}
use thatsmatter.Ha.Client.{
  delete_export, delete_remote_only, reconcile, reconcile_all, sync_catalog,
}
use thatsmatter.Ha.Client.Dict.{
  by_id, NodupKeys, get_head, get_tail, by_id-NodupKeys, by_id-key, by_id-All, get-by_id,
}
use thatsmatter.Ha.Client.Requests.{
  delete_export-Entry, reconcile-Reconciled, reconcile-IsWellFormed,
}
use thatsmatter.Ha.Client.Converges.{ids, IsSynced, sync_catalog-IsSynced}
use thatsmatter.Ha.Client.Trimmed.{delete_remote_only-Trimmed}
use thatsmatter.Ha.Client.Answered.{
  full, IsSendable, Returns, good, request-returns, reconcile-Returns,
}

module _ {V Raw B : Type 0} (backend : Backend V B) (codec : Codec Raw) (prints : Prints codec)
    (takes : (es : List Export) (b : B) → (backend.set_exports es b).0 ≡ ok tt) where
  delete_remote_only-returns :
      (local : List (ℕ × HaExport)) (remote : List (ℕ × Export)) (s : AppState Raw B)
      → NodupKeys remote
      → ((j : ℕ) (b : Export)
          → Map.get j remote ≡ some b
          → (d : Export) × (Map.get j s.catalog.store.by_id ≡ some d))
      → (delete_remote_only backend codec good local remote s).0 ≡ ok tt
  unfolding delete_remote_only
  delete_remote_only-returns local [] s n c = refl
  delete_remote_only-returns local ((rid, b) ∷ remote) s n c =
      elim (Bool-cases (Map.contains_key rid local)) [
        | inl kept ↦ rw kept (
            delete_remote_only-returns local remote s n.1
              (λ j x g. c j x (get_tail rid b remote j x n.0 g).0))
        | inr gone ↦
            let (d, here) = c rid b (get_head rid b remote) in
            let done : (delete_export backend codec good rid s).0 ≡ ok d =
              unfold delete_export in
              request-returns backend codec prints takes (deletes rid) s d
                (unfold method in delete-returns codec prints s.catalog rid d here) in
            rw (gone, done)
              (delete_remote_only-returns local remote (delete_export backend codec good rid s).1
                n.1
                (λ j x g.
                  let (others, far) = get_tail rid b remote j x n.0 g in
                  let (y, there) = c j x others in
                  (y, delete_export-Entry backend codec good rid s d done j ∙ rw far there)))
      ]

  reconcile_all-Returns :
      (remote : List (ℕ × Export)) (locals : List (ℕ × HaExport)) (s : AppState Raw B)
      → IsWellFormed s.catalog.store
      → NodupKeys locals
      → ((j : ℕ) (l : HaExport) → Map.get j locals ≡ some l → (l.export_id ≡ j) × IsSendable l)
      → ((j : ℕ) (l : HaExport)
          → Map.get j locals ≡ some l
          → Map.get j s.catalog.store.by_id ≡ Map.get j remote)
      → Returns (reconcile_all backend codec good remote locals s)
  unfolding reconcile_all
  reconcile_all-Returns remote [] s w n k c = inl ([], refl)
  reconcile_all-Returns remote ((id, l) ∷ locals) s w n k c =
      let (own, ready) = k id l (get_head id l locals) in
      let current = c id l (get_head id l locals) in
      elim (reconcile-Returns backend codec prints takes id l (Map.get id remote) s w ready own
        current) [
          | inr none_left ↦ rw none_left (inr refl)
          | inl (e, done) ↦
              let s' = (reconcile backend codec good id l (Map.get id remote) s).1 in
              let one =
                reconcile-Reconciled backend codec good id l (Map.get id remote) s e w own current
                  done in
              let rest =
                reconcile_all-Returns remote locals s'
                  (reconcile-IsWellFormed backend codec good id l (Map.get id remote) s w) n.1
                  (λ j m g. k j m (get_tail id l locals j m n.0 g).0)
                  (λ j m g.
                    let (others, far) = get_tail id l locals j m n.0 g in
                    one.entry j ∙ rw far (c j m others)) in
              elim rest [
                | inl (es, finished) ↦ rw (done, finished) (inl (e ∷ es, refl))
                | inr none_left ↦ rw (done, none_left) (inr refl)
              ]
        ]

  -- With links on which every request arrives, is stored and answered, a backend that takes every
  -- list of exports, and exports that the bridge accepts, a synchronisation with a well-formed
  -- catalog returns and leaves the bridge's catalog as that of Home Assistant, or ends with the
  -- error that all endpoints are taken.
  pub sync_catalog-returns :
      (exports : List HaExport) (s : AppState Raw B)
      → IsWellFormed s.catalog.store
      → All IsSendable exports
      → ((items : List Export) × ((sync_catalog backend codec good true exports s).0 ≡ ok items)
          × IsSynced exports s (sync_catalog backend codec good true exports s).1)
        ⊎ ((sync_catalog backend codec good true exports s).0 ≡ err full)
  unfolding sync_catalog list_exports list
  sync_catalog-returns exports s w ready =
      let local = ids exports in
      let remote = by_id (λ (e : Export). e.export_id) (Map.values s.catalog.store.by_id) in
      let listing = λ (j : ℕ).
        get-by_id (λ (e : Export). e.export_id) s.catalog.store.by_id j w.sorted w.keyed in
      let done =
        delete_remote_only-returns local remote s
          (by_id-NodupKeys (λ (e : Export). e.export_id) (Map.values s.catalog.store.by_id))
          (λ j b g. (b, ground (arith, listing j))) in
      let trimmed = delete_remote_only-Trimmed backend codec good local remote s w done in
      let s' = (delete_remote_only backend codec good local remote s).1 in
      let rest =
        reconcile_all-Returns remote local s' trimmed.well_formed
          (by_id-NodupKeys (λ (l : HaExport). l.export_id) exports)
          (λ j l g. (
            by_id-key (λ (l : HaExport). l.export_id) exports j l g,
            by_id-All IsSendable (λ (l : HaExport). l.export_id) exports ready j l g,
          ))
          (λ j l g. ground (arith, trimmed.entries j, listing j)) in
      elim rest [
        | inr none_left ↦ inr (rw (done, none_left) refl)
        | inl (items, finished) ↦
            let whole : (sync_catalog backend codec good true exports s).0 ≡ ok items =
              rw (done, finished) refl in
            inl
              (items, whole, sync_catalog-IsSynced backend codec good true exports s items w whole)
      ]
