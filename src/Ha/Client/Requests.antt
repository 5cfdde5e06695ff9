-- ===== src/Ha/Client/Requests.antt =====
-- What one request of `BridgeClient` (custom_components/thatsmatter/bridge_client.py) leaves in the
-- bridge's catalog when it returns.
use thatsmatter.Base.{
  ◌≡◌, sym, subst, ap, ◌∙◌, Option, none, some, arith, Result, ok, err, inl, inr, Option-cases,
  Bool-cases,
}
use thatsmatter.Base.Map
use thatsmatter.Catalog.Model.{Uuid, Export}
use thatsmatter.Catalog.Store.{CatalogError}
use thatsmatter.Catalog.Persist.{Codec, PersistIo}
use thatsmatter.Catalog.Methods.{Catalog, create, unwrap_or}
use thatsmatter.Catalog.Methods.Create.{new_export}
use thatsmatter.Catalog.Methods.Invariant.{IsWellFormed}
use thatsmatter.Catalog.Methods.Effects.{Entry, delete-Entry, create-Entry, patch-Entry}
use thatsmatter.Ipc.{Backend, AppState, after_method, catalog_err, internal}
use thatsmatter.Ipc.Sync.{
  Change, creates, patches, deletes, serve, method, method-IsWellFormed, serve_after, serve-Served,
  good_status,
}
use thatsmatter.Ha.Models.{HaExport}
use thatsmatter.Ha.Client.{
  Link, outcome, request, create_export, create_export_body, patch_export, read_patch, difference,
  delete_export, reconcile, is_empty_patch,
}
use thatsmatter.Ha.Client.Mirrors.{
  Mirrors, read_patch-Mirrors, create_export_body-Mirrors, empty-Mirrors,
}

module _ {V Raw B : Type 0} (backend : Backend V B) (codec : Codec Raw) where
  after_method-ok :
      (change : Change) (r : Result CatalogError Export × Catalog Raw) (b : B) (e : Export)
      → outcome (after_method backend (good_status change) r b).0 ≡ ok e
      → r ≡ (ok e, (after_method backend (good_status change) r b).1.catalog)
  unfolding after_method outcome catalog_err internal good_status
  after_method-ok change (err x, c) b e h = absurd (ground arith)
  after_method-ok (creates body f) (ok x, c) b e h = ground arith
  after_method-ok (patches id body) (ok x, c) b e h = ground arith
  after_method-ok (deletes id) (ok x, c) b e h = ground arith

  serve-ok :
      (change : Change) (s : AppState Raw B) (io : PersistIo) (e : Export)
      → outcome (serve backend codec io change s).0 ≡ ok e
      → method codec io change s.catalog ≡ (ok e, (serve backend codec io change s).1.catalog)
  serve-ok change s io e h =
      let same = serve_after backend codec io change s in
      rw same (after_method-ok change (method codec io change s.catalog) s.backend e (rw same at h))

module _ {V Raw B : Type 0} (backend : Backend V B) (codec : Codec Raw) (link : Change → Link) where
  -- A request that returns has been carried out.
  request-ok :
      (change : Change) (s : AppState Raw B) (e : Export)
      → (request backend codec link change s).0 ≡ ok e
      → method codec (link change).io change s.catalog
        ≡ (ok e, (request backend codec link change s).1.catalog)
  unfolding request
  request-ok change s e h = elim (Bool-cases (link change).arrives) [
    | inr lost ↦ absurd (ground arith)
    | inl here ↦ elim (Bool-cases (link change).returns) [
      | inr lost ↦ absurd (ground arith)
      | inl back ↦ rw here (serve-ok backend codec change s (link change).io e (ground arith))
    ]
  ]

  pub request-IsWellFormed :
      (change : Change) (s : AppState Raw B)
      → IsWellFormed s.catalog.store
      → IsWellFormed (request backend codec link change s).1.catalog.store
  unfolding request
  request-IsWellFormed change s w = elim (Bool-cases (link change).arrives) [
    | inr lost ↦ rw lost w
    | inl here ↦
        rw (here, (serve-Served backend codec (link change).io change s).0)
          (method-IsWellFormed codec (link change).io change s.catalog w)
  ]

  pub delete_export-Entry :
      (id : Uuid) (s : AppState Raw B) (e : Export)
      → (delete_export backend codec link id s).0 ≡ ok e
      → Entry id none s.catalog.store (delete_export backend codec link id s).1.catalog.store
  unfolding delete_export method
  delete_export-Entry id s e h =
      let done = request-ok (deletes id) s e h in
      rw (← ap (λ (r : Result CatalogError Export × Catalog Raw). r.1) done) (
        delete-Entry codec (link (deletes id)).io s.catalog id e
          (ap (λ (r : Result CatalogError Export × Catalog Raw). r.0) done))

  -- What a creation or a patch leaves: the local export under its id, with the endpoint that the
  -- bridge's had, and no other change.
  pub record Reconciled (id : Uuid) (l : HaExport) (o : Option Export) (e : Export)
      (s t : AppState Raw B) : Type 0 where
    pub mirrors : Mirrors l e
    pub entry : Entry id (some e) s.catalog.store t.catalog.store
    pub stable : (b : Export) → o ≡ some b → e.endpoint_id ≡ b.endpoint_id

  create_export-Reconciled :
      (l : HaExport) (s : AppState Raw B) (e : Export)
      → IsWellFormed s.catalog.store
      → (create_export backend codec link l s).0 ≡ ok e
      → Reconciled l.export_id l none e s (create_export backend codec link l s).1
  unfolding create_export create_export_body method
  create_export-Reconciled l s e w h = elim (Option-cases (create_export_body l)) [
    | inl unread ↦ absurd (ground arith)
    | inr (body, readable) ↦
        let h' = rw readable at h in
        let change : Change = creates body l.export_id in
        let done = request-ok change s e h' in
        let (own, mirrors) = create_export_body-Mirrors l body readable in
        let (p, same, new, entry) =
          create-Entry codec (link change).io s.catalog body l.export_id e w.next_fits
            (ap (λ (r : Result CatalogError Export × Catalog Raw). r.0) done) in
        let key : unwrap_or body.export_id l.export_id ≡ l.export_id =
          ap (λ o. unwrap_or o l.export_id) own in
        let same' = same ∙ ap (λ i. new_export body i p) key in
        let entry' =
          subst
            (λ i.
              Entry i (some e) s.catalog.store
                (create codec (link change).io body l.export_id s.catalog).1.store)
            key entry in
        rw readable (record {
          mirrors = subst (Mirrors l) (sym same') (mirrors p);
          entry = rw (← ap (λ (r : Result CatalogError Export × Catalog Raw). r.1) done) entry';
          stable = λ b q. cc;
        })
  ]

  patch_export-Reconciled :
      (id : Uuid) (l : HaExport) (b : Export) (s : AppState Raw B) (e : Export)
      → IsWellFormed s.catalog.store
      → l.export_id ≡ id
      → Map.get id s.catalog.store.by_id ≡ some b
      → (patch_export backend codec link id (difference b l) s).0 ≡ ok e
      → Reconciled id l (some b) e s (patch_export backend codec link id (difference b l) s).1
  unfolding patch_export method
  patch_export-Reconciled id l b s e w own g h = elim (Option-cases (read_patch (difference b l))) [
    | inl unread ↦ absurd (ground arith)
    | inr (body, readable) ↦
        let h' = rw readable at h in
        let change : Change = patches id body in
        let done = request-ok change s e h' in
        let a = w.assigned id b g in
        let (same, entry) =
          patch-Entry codec (link change).io s.catalog id body b e a.id w.next_fits g a.assigned
            (ap (λ (r : Result CatalogError Export × Catalog Raw). r.0) done) in
        rw readable (record {
          mirrors =
              subst (Mirrors l) (sym same)
                (read_patch-Mirrors l b body (w.keyed id b g ∙ sym own) readable);
          entry = rw (← ap (λ (r : Result CatalogError Export × Catalog Raw). r.1) done) entry;
          stable = λ b' q. ground arith;
        })
  ]

  -- The step of the reconciliation for one export.
  pub reconcile-Reconciled :
      (id : Uuid) (l : HaExport) (o : Option Export) (s : AppState Raw B) (e : Export)
      → IsWellFormed s.catalog.store
      → l.export_id ≡ id
      → Map.get id s.catalog.store.by_id ≡ o
      → (reconcile backend codec link id l o s).0 ≡ ok e
      → Reconciled id l o e s (reconcile backend codec link id l o s).1
  unfolding reconcile
  reconcile-Reconciled id l none s e w own g h =
      subst (λ i. Reconciled i l none e s (create_export backend codec link l s).1) own
        (create_export-Reconciled l s e w h)
  reconcile-Reconciled id l (some b) s e w own g h =
      elim (Bool-cases (is_empty_patch (difference b l))) [
        | inr differs ↦ rw differs (patch_export-Reconciled id l b s e w own g (rw differs at h))
        | inl same ↦
            let h' = rw same at h in
            rw same (record {
              mirrors =
                  subst (Mirrors l) (ground arith)
                    (empty-Mirrors l b (w.keyed id b g ∙ sym own) same);
              entry = λ j. ground arith;
              stable = λ b' q. ground arith;
            })
      ]

  pub reconcile-IsWellFormed :
      (id : Uuid) (l : HaExport) (o : Option Export) (s : AppState Raw B)
      → IsWellFormed s.catalog.store
      → IsWellFormed (reconcile backend codec link id l o s).1.catalog.store
  unfolding reconcile create_export patch_export
  reconcile-IsWellFormed id l none s w = elim (Option-cases (create_export_body l)) [
    | inl unread ↦ rw unread w
    | inr (body, readable) ↦ rw readable (request-IsWellFormed (creates body l.export_id) s w)
  ]
  reconcile-IsWellFormed id l (some b) s w = elim (Bool-cases (is_empty_patch (difference b l))) [
    | inl same ↦ rw same w
    | inr differs ↦ elim (Option-cases (read_patch (difference b l))) [
      | inl unread ↦ rw (differs, unread) w
      | inr (body, readable) ↦ rw (differs, readable) (request-IsWellFormed (patches id body) s w)
    ]
  ]
