-- ===== src/Ipc/Sync.antt =====
-- What the handlers of bridge/src/ipc/handlers.rs do to the catalog and the backend.
use thatsmatter.Base.{
  ℕ, ◌≡◌, ◌≢◌, ◌≤◌, refl, true, List, none, some, arith, Result, ok, err, Result-cases,
  Option-cases, ◌⊎◌, inl, inr,
}
use thatsmatter.Base.Text.{Text}
use thatsmatter.Catalog.Model.{Uuid, Export, HaStateValue}
use thatsmatter.Catalog.Store.{CatalogError, CreateExport, PatchExport, list, get, not_found}
use thatsmatter.Catalog.Persist.{Codec, PersistIo}
use thatsmatter.Catalog.Methods.{Catalog, create, patch, delete}
use thatsmatter.Catalog.Methods.Invariant.{IsWellFormed}
use thatsmatter.Catalog.Methods.Calls.{
  Call, create_call, patch_call, delete_call, after, after-IsWellFormed,
}
use thatsmatter.Matter.Window.{clamp_pairing_timeout}
use thatsmatter.Matter.Window.Decisions.{clamp_pairing_timeout_bounds}
use thatsmatter.Ipc.{
  Backend, AppState, Response, StatusCode, success, export_body, catalog_err, internal,
  after_method, create_export, patch_export, delete_export, OpenBody, requested_timeout,
  open_pairing, StateBody, parse_state_body, push_state, bad_request, bad_body, window_body,
  applied_body,
}

-- The requests that change the catalog.
pub data Change : Type 0 where
  creates : CreateExport → Uuid → Change
  patches : Uuid → PatchExport → Change
  deletes : Uuid → Change

module _ {Raw : Type 0} (codec : Codec Raw) (io : PersistIo) where
  unfoldable pub method : Change → Catalog Raw → Result CatalogError Export × Catalog Raw
  method (creates body fresh) c = create codec io body fresh c
  method (patches id body) c = patch codec io id body c
  method (deletes id) c = delete codec io id c

-- The same requests as calls of the catalog.
call_of : Change → Call
call_of (creates body fresh) = create_call body fresh
call_of (patches id body) = patch_call id body
call_of (deletes id) = delete_call id

module _ {Raw : Type 0} (codec : Codec Raw) (io : PersistIo) where
  pub method-IsWellFormed :
      (change : Change) (c : Catalog Raw)
      → IsWellFormed c.store
      → IsWellFormed (method codec io change c).1.store
  unfolding method after
  method-IsWellFormed (creates body fresh) c w =
      after-IsWellFormed codec io (create_call body fresh) c w
  method-IsWellFormed (patches id body) c w = after-IsWellFormed codec io (patch_call id body) c w
  method-IsWellFormed (deletes id) c w = after-IsWellFormed codec io (delete_call id) c w

unfoldable pub good_status : Change → StatusCode
good_status (creates body fresh) = StatusCode.created
good_status (patches id body) = success
good_status (deletes id) = success

-- No error of the catalog is answered with the status of success.
pub catalog_err-status :
    (e : CatalogError) (change : Change) → (catalog_err e).status ≢ good_status change
unfolding catalog_err good_status
catalog_err-status e change h = ground arith

module _ {V Raw B : Type 0} (backend : Backend V B) (codec : Codec Raw) (io : PersistIo) where
  unfoldable pub serve : Change → AppState Raw B → Response × AppState Raw B
  serve (creates body fresh) s = create_export backend codec io body fresh s
  serve (patches id body) s = patch_export backend codec io id body s
  serve (deletes id) s = delete_export backend codec io id s

  -- What a request that changes the catalog comes to.
  pub data Served (change : Change) (s : AppState Raw B) (out : Response × AppState Raw B)
      : Type 0 where
    refused :
        (e : CatalogError)
        → (method codec io change s.catalog).0 ≡ err e
        → out.0 ≡ catalog_err e
        → out.1.backend ≡ s.backend
        → Served change s out
    push_failed :
        (e : Export) (m : Text)
        → (method codec io change s.catalog).0 ≡ ok e
        → (backend.set_exports (list out.1.catalog.store) s.backend).0 ≡ err m
        → out.0 ≡ internal m
        → out.1.backend ≡ (backend.set_exports (list out.1.catalog.store) s.backend).1
        → Served change s out
    pushed :
        (e : Export)
        → (method codec io change s.catalog).0 ≡ ok e
        → (backend.set_exports (list out.1.catalog.store) s.backend).0 ≡ ok tt
        → out.0 ≡ record { status = good_status change; body = export_body e }
        → out.1.backend ≡ (backend.set_exports (list out.1.catalog.store) s.backend).1
        → Served change s out

  after_method-Served :
      (change : Change) (s : AppState Raw B) (r : Result CatalogError Export × Catalog Raw)
      → method codec io change s.catalog ≡ r
      → Served change s (after_method backend (good_status change) r s.backend)
  unfolding after_method internal
  after_method-Served change s (err x, c) e = refused x (ground arith) refl refl
  after_method-Served change s (ok x, c) e =
      elim (Result-cases (backend.set_exports (list c.store) s.backend).0) [
        | inl (u, p) ↦ pushed x (ground arith) p (rw p refl) refl
        | inr (m, p) ↦ push_failed x m (ground arith) p (rw p refl) refl
      ]

  after_method-catalog :
      (change : Change) (s : AppState Raw B) (r : Result CatalogError Export × Catalog Raw)
      → (after_method backend (good_status change) r s.backend).1.catalog ≡ r.1
  unfolding after_method
  after_method-catalog change s (err x, c) = refl
  after_method-catalog change s (ok x, c) = refl

  pub serve_after :
      (change : Change) (s : AppState Raw B)
      → serve change s
        ≡ after_method backend (good_status change) (method codec io change s.catalog) s.backend
  unfolding serve create_export patch_export delete_export method good_status
  serve_after (creates body fresh) s = refl
  serve_after (patches id body) s = refl
  serve_after (deletes id) s = refl

  -- The catalog is the one that the method leaves, and exactly one of three things happened: the
  -- method failed, its error was answered and the backend was not called; or it succeeded, the
  -- backend was given the exports of the catalog as stored, and the answer is the export with the
  -- status of the request, or the backend's error.
  pub serve-Served :
      (change : Change) (s : AppState Raw B)
      → ((serve change s).1.catalog ≡ (method codec io change s.catalog).1)
        × Served change s (serve change s)
  serve-Served change s = (
    rw (serve_after change s) (after_method-catalog change s _),
    rw (serve_after change s) (after_method-Served change s _ refl),
  )

module _ {V Raw B : Type 0} (backend : Backend V B) where
  -- Whatever the body of `POST /pairing/open`, either it is refused with status 400 and nothing
  -- changes, or the backend is asked, once and from the state it was in, for a window of 180 to 900
  -- seconds, which the answer names if the backend agrees.
  pub open_pairing_lem :
      (body : OpenBody) (s : AppState Raw B)
      → (open_pairing backend body s ≡ (record { status = bad_request; body = bad_body }, s))
        ⊎ ((t : ℕ) × (180 ≤ t)
            × (t ≤ 900)
            × ((open_pairing backend body s).1
                ≡ record s { backend = (backend.open_pairing_window t s.backend).1 })
            × ((backend.open_pairing_window t s.backend).0 ≡ ok tt
                → (open_pairing backend body s).0
                  ≡ record { status = success; body = window_body true (some t) }))
  unfolding open_pairing
  open_pairing_lem body s = elim (Option-cases (requested_timeout body)) [
    | inl n ↦ inl (rw n refl)
    | inr (t, h) ↦ inr (
      clamp_pairing_timeout t,
      (clamp_pairing_timeout_bounds t).0,
      (clamp_pairing_timeout_bounds t).1,
      rw h refl,
      λ e. rw (h, e) refl,
    )
  ]

  -- Pushing states never changes the catalog. An unknown id is answered with status 404 and a body
  -- that is neither form with 400, both without a call of the backend; else the backend applies the
  -- states that the body holds to that export, and its count, or its error, is the answer.
  pub push_state_lem :
      (id : Uuid) (body : StateBody V) (s : AppState Raw B)
      → ((push_state backend id body s).1.catalog ≡ s.catalog)
        × (get s.catalog.store id ≡ none
            → push_state backend id body s ≡ (catalog_err (not_found id), s))
        × ((e : Export)
            → get s.catalog.store id ≡ some e
            → parse_state_body body ≡ none
            → push_state backend id body s ≡ (record { status = bad_request; body = bad_body }, s))
        × ((e : Export) (states : List (HaStateValue V))
            → get s.catalog.store id ≡ some e
            → parse_state_body body ≡ some states
            → ((push_state backend id body s).1.backend
                ≡ (backend.apply_state id states s.backend).1)
              × ((n : ℕ)
                  → (backend.apply_state id states s.backend).0 ≡ ok n
                  → (push_state backend id body s).0
                    ≡ record { status = success; body = applied_body n })
              × ((m : Text)
                  → (backend.apply_state id states s.backend).0 ≡ err m
                  → (push_state backend id body s).0 ≡ internal m))
  unfolding push_state
  push_state_lem id body s = (
    ground arith,
    λ h. rw h refl,
    λ e h p. rw (h, p) refl,
    λ e states h p. (rw (h, p) refl, λ n r. rw (h, p, r) refl, λ m r. rw (h, p, r) refl),
  )
