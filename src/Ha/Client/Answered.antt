-- ===== src/Ha/Client/Answered.antt =====
-- When one request of custom_components/thatsmatter/bridge_client.py is answered with what it asks
-- for.
use thatsmatter.Base.{
  ◌≡◌, refl, sym, subst, true, List, Option, none, some, arith, Result, ok, err, ◌⊎◌, inl, inr,
  Bool-cases,
}
use thatsmatter.Base.Text.{Text, text_eq}
use thatsmatter.Base.Map
use thatsmatter.Catalog.Model.{Uuid, DeviceType, Export}
use thatsmatter.Catalog.Store.{
  CatalogError, endpoint_exhausted, CreateExport, PatchExport, validate_name, validate_primary,
}
use thatsmatter.Catalog.Persist.{Codec}
use thatsmatter.Catalog.Methods.{Catalog}
use thatsmatter.Catalog.Methods.Invariant.{IsWellFormed}
use thatsmatter.Catalog.Methods.Returns.{working, Prints, IsAccepted, create-returns, patch-returns}
use thatsmatter.Ipc.{Backend, AppState, after_method, catalog_err}
use thatsmatter.Ipc.Sync.{Change, creates, patches, deletes, method, serve_after, good_status}
use thatsmatter.Ha.Models.{HaExport, read_type, wire_name}
use thatsmatter.Ha.Client.{
  Link, BridgeClientError, answered, outcome, request, create_export, create_export_body,
  patch_export, read_patch, difference, with_type, reconcile, is_empty_patch,
}

-- A link on which every request arrives, is stored and answered.
abbrev pub good_link : Link
good_link = record { arrives = true; returns = true; io = working }

abbrev pub full : BridgeClientError
full = answered (catalog_err endpoint_exhausted)

-- An export that the bridge accepts: its type is one that the bridge reads, its name takes 1 to 64
-- bytes and its primary entity is not empty.
pub record IsSendable (l : HaExport) : Type 0 where
  pub kind : DeviceType
  pub reads : read_type l.type_ ≡ some kind
  pub accepted : IsAccepted l.name l.primary_entity_id

-- What is said of a result that is no other error than that all endpoints are taken.
abbrev pub Returns : {A S : Type 0} → Result BridgeClientError A × S → Type 0
Returns {A} r = ((a : A) × (r.0 ≡ ok a)) ⊎ (r.0 ≡ err full)

-- The patch of a good export can be read, and its name and primary entity are good.
difference-readable :
    (l : HaExport) (b : Export)
    → IsSendable l
    → (body : PatchExport) × (read_patch (difference b l) ≡ some body)
      × ((t : Text) → body.name ≡ some t → validate_name t ≡ ok tt)
      × ((t : Text) → body.primary_entity_id ≡ some t → validate_primary t ≡ ok tt)
unfolding read_patch difference with_type
difference-readable l b ready = elim (Bool-cases (text_eq (wire_name b.type_) l.type_)) [
  | inl same ↦ (
    with_type (difference b l) none,
    rw same refl,
    λ t h. ground (arith, ready.accepted.name),
    λ t h. ground (arith, ready.accepted.primary),
  )
  | inr other ↦ (
    with_type (difference b l) (some ready.kind),
    rw (other, ready.reads) refl,
    λ t h. ground (arith, ready.accepted.name),
    λ t h. ground (arith, ready.accepted.primary),
  )
]

-- Every request has such a link.
abbrev pub good : Change → Link
good change = good_link

module _ {V Raw B : Type 0} (backend : Backend V B) (codec : Codec Raw) (prints : Prints codec)
    (takes : (es : List Export) (b : B) → (backend.set_exports es b).0 ≡ ok tt) where
  after_method-returns :
      (change : Change) (r : Result CatalogError Export × Catalog Raw) (b : B) (e : Export)
      → r.0 ≡ ok e
      → outcome (after_method backend (good_status change) r b).0 ≡ ok e
  unfolding outcome after_method good_status
  after_method-returns change (err x, c) b e h = cc
  after_method-returns (creates body f) (ok x, c) b e h = rw takes (ground arith)
  after_method-returns (patches id body) (ok x, c) b e h = rw takes (ground arith)
  after_method-returns (deletes id) (ok x, c) b e h = rw takes (ground arith)

  after_method-full :
      (change : Change) (r : Result CatalogError Export × Catalog Raw) (b : B)
      → r.0 ≡ err endpoint_exhausted
      → outcome (after_method backend (good_status change) r b).0 ≡ err full
  unfolding outcome after_method catalog_err
  after_method-full change (err x, c) b h =
      let same : x ≡ endpoint_exhausted = ground arith in rw same refl
  after_method-full change (ok x, c) b h = cc

  pub request-returns :
      (change : Change) (s : AppState Raw B) (e : Export)
      → (method codec working change s.catalog).0 ≡ ok e
      → (request backend codec good change s).0 ≡ ok e
  unfolding request
  request-returns change s e h =
      rw (serve_after backend codec working change s)
        (after_method-returns change (method codec working change s.catalog) s.backend e h)

  request-full :
      (change : Change) (s : AppState Raw B)
      → (method codec working change s.catalog).0 ≡ err endpoint_exhausted
      → (request backend codec good change s).0 ≡ err full
  unfolding request
  request-full change s h =
      rw (serve_after backend codec working change s)
        (after_method-full change (method codec working change s.catalog) s.backend h)

  create_export-Returns :
      (l : HaExport) (s : AppState Raw B)
      → IsWellFormed s.catalog.store
      → IsSendable l
      → Map.get l.export_id s.catalog.store.by_id ≡ none
      → Returns (create_export backend codec good l s)
  unfolding create_export create_export_body
  create_export-Returns l s w ready n =
      let body : CreateExport = record {
        export_id = some l.export_id;
        name = l.name;
        type_ = ready.kind;
        primary_entity_id = l.primary_entity_id;
        linked = l.linked;
        area_id = l.area_id;
        enabled = l.enabled;
      } in
      let change : Change = creates body l.export_id in
      rw ready.reads
        (elim (create-returns codec prints s.catalog body l.export_id w.next_fits ready.accepted
          n) [
            | inl (e, done) ↦ inl (e, request-returns change s e (unfold method in done))
            | inr none_left ↦ inr (request-full change s (unfold method in none_left))
          ])

  patch_export-Returns :
      (id : Uuid) (l : HaExport) (b : Export) (s : AppState Raw B)
      → IsWellFormed s.catalog.store
      → IsSendable l
      → Map.get id s.catalog.store.by_id ≡ some b
      → Returns (patch_export backend codec good id (difference b l) s)
  unfolding patch_export
  patch_export-Returns id l b s w ready g =
      let (body, readable, named, primary) = difference-readable l b ready in
      let a = w.assigned id b g in
      let (e, done) =
        patch-returns codec prints s.catalog id body b a.id g a.assigned named primary in
      rw readable (inl (e, request-returns (patches id body) s e (unfold method in done)))

  pub reconcile-Returns :
      (id : Uuid) (l : HaExport) (o : Option Export) (s : AppState Raw B)
      → IsWellFormed s.catalog.store
      → IsSendable l
      → l.export_id ≡ id
      → Map.get id s.catalog.store.by_id ≡ o
      → Returns (reconcile backend codec good id l o s)
  unfolding reconcile
  reconcile-Returns id l none s w ready own g =
      create_export-Returns l s w ready
        (subst (λ i. Map.get i s.catalog.store.by_id ≡ none) (sym own) g)
  reconcile-Returns id l (some b) s w ready own g =
      elim (Bool-cases (is_empty_patch (difference b l))) [
        | inl same ↦ rw same (inl (b, refl))
        | inr differs ↦ rw differs (patch_export-Returns id l b s w ready g)
      ]
