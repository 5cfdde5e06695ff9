-- ===== src/Ipc/Router/Safe.antt =====
-- What requests to the router of bridge/src/ipc/server.rs can change.
use thatsmatter.Base.{
  ◌≡◌, ◌≢◌, if◌then◌else◌, refl, ◌&&◌, Bool, true, false, List, [], ◌∷◌, Option, Option-cases, inl,
  inr, ap,
}
use thatsmatter.Base.Text.{Text, text_eq, codes}
use thatsmatter.Catalog.Model.{Uuid}
use thatsmatter.Catalog.Persist.{Codec, PersistIo}
use thatsmatter.Ipc.{OpenBody, take_commands, open_pairing, close_pairing}
use thatsmatter.Ipc.Sync.{
  Change, creates, patches, deletes, serve, serve-Served, method-IsWellFormed, push_state_lem,
  open_pairing_lem,
}
use thatsmatter.Catalog.Methods.Invariant.{IsWellFormed}
use thatsmatter.Ipc.{Backend, AppState}
use thatsmatter.Ipc.Router.{
  Request, Route, Routed, health_route, status_route, pairing_route, exports_route, commands_route,
  open_route, close_route, create_route, get_route, patch_route, delete_route, state_route, to,
  not_found, method_not_allowed, get, handle, routed, request, requests, router, one_segment,
  two_segments, only, exports_methods, export_methods,
}

-- Where a GET request can be routed, but for the drain of the commands.
data IsQuiet : Routed → Type 0 where
  of_health : IsQuiet (to health_route)
  of_status : IsQuiet (to status_route)
  of_pairing : IsQuiet (to pairing_route)
  of_exports : IsQuiet (to exports_route)
  of_commands : IsQuiet (to commands_route)
  of_get : {id : Text} → IsQuiet (to (get_route id))
  of_none : IsQuiet not_found
  of_method : IsQuiet method_not_allowed

either-IsQuiet : (b : Bool) (x y : Routed) → IsQuiet x → IsQuiet y → IsQuiet (if b then x else y)
either-IsQuiet true x y p q = p
either-IsQuiet false x y p q = q

get-IsQuiet : (path : List Text) → IsQuiet (router get path)
unfolding router one_segment two_segments only exports_methods export_methods
get-IsQuiet [] = of_none
get-IsQuiet (s ∷ []) = either-IsQuiet _ _ _ of_health (
    either-IsQuiet _ _ _ of_status (
      either-IsQuiet _ _ _ of_pairing
        (either-IsQuiet _ _ _ of_exports (either-IsQuiet _ _ _ of_commands of_none))))
get-IsQuiet (s ∷ t ∷ []) =
    either-IsQuiet (text_eq s (codes "pairing") && text_eq t (codes "open")) _ _ of_method (
      either-IsQuiet (text_eq s (codes "pairing") && text_eq t (codes "close")) _ _ of_method
        (either-IsQuiet (text_eq s (codes "exports")) _ _ (of_get {id = t}) of_none))
get-IsQuiet (s ∷ t ∷ u ∷ []) = either-IsQuiet _ _ _ of_method of_none
get-IsQuiet (s ∷ t ∷ u ∷ v ∷ rest) = of_none

module _ {V Raw B : Type 0} (backend : Backend V B) (codec : Codec Raw)
    (parse_uuid : Text → Option Uuid) where
  change-IsWellFormed :
      (io : PersistIo) (change : Change) (s : AppState Raw B)
      → IsWellFormed s.catalog.store
      → IsWellFormed (serve backend codec io change s).1.catalog.store
  change-IsWellFormed io change s w =
      rw ((serve-Served backend codec io change s).0)
        (method-IsWellFormed codec io change s.catalog w)

  open-catalog :
      (body : OpenBody) (s : AppState Raw B) → (open_pairing backend body s).1.catalog ≡ s.catalog
  open-catalog body s = elim (open_pairing_lem backend body s) [
    | inl e ↦ ap (λ r. r.1.catalog) e
    | inr (t, lo, hi, e, more) ↦ ap (λ r. r.catalog) e
  ]

  handle-IsWellFormed :
      (q : Request V) (r : Route) (s : AppState Raw B)
      → IsWellFormed s.catalog.store
      → IsWellFormed (handle backend codec parse_uuid q r s).1.catalog.store
  unfolding handle serve take_commands close_pairing
  handle-IsWellFormed q health_route s w = w
  handle-IsWellFormed q status_route s w = w
  handle-IsWellFormed q pairing_route s w = w
  handle-IsWellFormed q exports_route s w = w
  handle-IsWellFormed q commands_route s w = w
  handle-IsWellFormed q open_route s w = rw (open-catalog q.open_body s) w
  handle-IsWellFormed q close_route s w = w
  handle-IsWellFormed q create_route s w = elim (Option-cases q.create) [
    | inl n ↦ rw n w
    | inr (body, e) ↦ rw e (change-IsWellFormed q.io (creates body q.fresh) s w)
  ]
  handle-IsWellFormed q (get_route id) s w = elim (Option-cases (parse_uuid id)) [
    | inl n ↦ rw n w
    | inr (i, e) ↦ rw e w
  ]
  handle-IsWellFormed q (patch_route id) s w = elim (Option-cases (parse_uuid id)) [
    | inl n ↦ rw n w
    | inr (i, e) ↦ elim (Option-cases q.patch) [
      | inl n ↦ rw (e, n) w
      | inr (body, p) ↦ rw (e, p) (change-IsWellFormed q.io (patches i body) s w)
    ]
  ]
  handle-IsWellFormed q (delete_route id) s w = elim (Option-cases (parse_uuid id)) [
    | inl n ↦ rw n w
    | inr (i, e) ↦ rw e (change-IsWellFormed q.io (deletes i) s w)
  ]
  handle-IsWellFormed q (state_route id) s w = elim (Option-cases (parse_uuid id)) [
    | inl n ↦ rw n w
    | inr (i, e) ↦ rw (e, (push_state_lem backend i q.state_body s).0) w
  ]

  routed-IsWellFormed :
      (q : Request V) (r : Routed) (s : AppState Raw B)
      → IsWellFormed s.catalog.store
      → IsWellFormed (routed backend codec parse_uuid q r s).1.catalog.store
  unfolding routed
  routed-IsWellFormed q (to r) s w = handle-IsWellFormed q r s w
  routed-IsWellFormed q not_found s w = w
  routed-IsWellFormed q method_not_allowed s w = w

  -- Whatever requests reach the control plane, over whatever backend and file system, a well-formed
  -- catalog stays well formed.
  pub requests-IsWellFormed :
      (qs : List (Request V)) (s : AppState Raw B)
      → IsWellFormed s.catalog.store
      → IsWellFormed (requests backend codec parse_uuid qs s).catalog.store
  unfolding requests request
  requests-IsWellFormed [] s w = w
  requests-IsWellFormed (q ∷ qs) s w =
      requests-IsWellFormed qs _ (routed-IsWellFormed q (router q.verb q.path) s w)

  quiet-same :
      (q : Request V) (r : Routed) (s : AppState Raw B)
      → IsQuiet r
      → r ≢ to commands_route
      → (routed backend codec parse_uuid q r s).1 ≡ s
  unfolding routed handle
  quiet-same q _ s of_health c = refl
  quiet-same q _ s of_status c = refl
  quiet-same q _ s of_pairing c = refl
  quiet-same q _ s of_exports c = refl
  quiet-same q _ s of_commands c = absurd (c refl)
  quiet-same q (to (get_route id)) s of_get c = elim (Option-cases (parse_uuid id)) [
    | inl n ↦ rw n refl
    | inr (i, e) ↦ rw e refl
  ]
  quiet-same q _ s of_none c = refl
  quiet-same q _ s of_method c = refl

  -- A GET request, but for one that drains the commands, changes nothing, and a request for a path
  -- that has no route, or with a method that its path does not have, is refused and changes
  -- nothing.
  get_changes_nothing :
      (q : Request V) (s : AppState Raw B)
      → q.verb ≡ get
      → router q.verb q.path ≢ to commands_route
      → (request backend codec parse_uuid q s).1 ≡ s
  unfolding request
  get_changes_nothing q s g c = quiet-same q (router q.verb q.path) s (rw g (get-IsQuiet q.path)) c
