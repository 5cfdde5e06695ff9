-- ===== src/Ipc/Router.antt =====
-- The router of bridge/src/ipc/server.rs: which handler of bridge/src/ipc/handlers.rs a request
-- reaches. A HEAD request is a `get`. The axum crate reads a request's path and body; `Request`
-- holds what it reads of them.
pub mod Safe
use thatsmatter.Base.{
  ℕ, ◌≡◌, refl, Bool, true, false, ◌&&◌, List, [], ◌∷◌, Option, none, some, arith, if◌then◌else◌,
}
use thatsmatter.Base.Text.{Text, codes, text_eq}
use thatsmatter.Catalog.Model.{Uuid}
use thatsmatter.Catalog.Store.{CreateExport, PatchExport}
use thatsmatter.Catalog.Persist.{Codec, PersistIo}
use thatsmatter.Ipc.{
  Backend, AppState, Response, OpenBody, StateBody, health, status, pairing, open_pairing,
  close_pairing, list_exports, get_export, create_export, patch_export, delete_export, push_state,
  take_commands,
}

pub data Verb : Type 0 where
  get post patch delete another : Verb

-- The handlers, under the names of their routes.
pub data Route : Type 0 where
  health_route status_route pairing_route exports_route commands_route : Route
  open_route close_route create_route : Route
  get_route patch_route delete_route state_route : (id : Text) → Route

pub data Routed : Type 0 where
  to : Route → Routed
  not_found method_not_allowed : Routed

-- The method routers of each path.
unfoldable pub only : Verb → Verb → Route → Routed
only get get r = to r
only post post r = to r
only _ verb r = method_not_allowed

unfoldable pub exports_methods : Verb → Routed
exports_methods get = to exports_route
exports_methods post = to create_route
exports_methods _ = method_not_allowed

unfoldable pub export_methods : Text → Verb → Routed
export_methods id get = to (get_route id)
export_methods id patch = to (patch_route id)
export_methods id delete = to (delete_route id)
export_methods id _ = method_not_allowed

unfoldable pub one_segment : Verb → Text → Routed
unfolding only exports_methods
one_segment verb s =
    if text_eq s (codes "health")
    then only get verb health_route
    else if text_eq s (codes "status")
    then only get verb status_route
    else if text_eq s (codes "pairing")
    then only get verb pairing_route
    else if text_eq s (codes "exports")
    then exports_methods verb
    else if text_eq s (codes "commands")
    then only get verb commands_route
    else not_found

unfoldable pub two_segments : Verb → Text → Text → Routed
unfolding only export_methods
two_segments verb s t =
    if text_eq s (codes "pairing") && text_eq t (codes "open")
    then only post verb open_route
    else if text_eq s (codes "pairing") && text_eq t (codes "close")
    then only post verb close_route
    else if text_eq s (codes "exports")
    then export_methods t verb
    else not_found

unfoldable pub router : Verb → List Text → Routed
unfolding one_segment two_segments only
router verb [] = not_found
router verb (s ∷ []) = one_segment verb s
router verb (s ∷ t ∷ []) = two_segments verb s t
router verb (s ∷ t ∷ u ∷ []) =
    if text_eq s (codes "exports") && text_eq u (codes "state")
    then only post verb (state_route t)
    else not_found
router verb (s ∷ t ∷ u ∷ rest) = not_found

-- `create` and `patch` are `none` when axum cannot read the body; `fresh` is the id that a creation
-- draws, and `io` the calls of the file system.
pub record Request (V : Type 0) : Type 0 where
  pub verb : Verb
  pub path : List Text
  pub create : Option CreateExport
  pub patch : Option PatchExport
  pub open_body : OpenBody
  pub state_body : StateBody V
  pub fresh : Uuid
  pub io : PersistIo

-- A handler's response, or a refusal of axum's.
pub data Reply : Type 0 where
  answered : Response → Reply
  refused : Reply

module _ {V Raw B : Type 0} (backend : Backend V B) (codec : Codec Raw)
    (parse_uuid : Text → Option Uuid) where
  abbrev pub reads : (AppState Raw B → Response) → AppState Raw B → Reply × AppState Raw B
  reads f s = (answered (f s), s)

  abbrev pub acts :
      (AppState Raw B → Response × AppState Raw B) → AppState Raw B → Reply × AppState Raw B
  acts f s = let (r, s') = f s in (answered r, s')

  -- An extractor that fails answers for the handler.
  abbrev pub with_ :
      {A : Type 0}
      → Option A
      → (A → AppState Raw B → Reply × AppState Raw B)
      → AppState Raw B
      → Reply × AppState Raw B
  with_ none f s = (refused, s)
  with_ (some a) f s = f a s

  unfoldable pub handle : Request V → Route → AppState Raw B → Reply × AppState Raw B
  handle q health_route = reads (health backend)
  handle q status_route = reads (status backend)
  handle q pairing_route = reads (pairing backend)
  handle q exports_route = reads (list_exports backend)
  handle q commands_route = acts (take_commands backend)
  handle q open_route = acts (open_pairing backend q.open_body)
  handle q close_route = acts (close_pairing backend)
  handle q create_route =
      with_ q.create (λ body. acts (create_export backend codec q.io body q.fresh))
  handle q (get_route id) = with_ (parse_uuid id) (λ i. reads (get_export backend i))
  handle q (patch_route id) =
      with_ (parse_uuid id)
        (λ i. with_ q.patch (λ body. acts (patch_export backend codec q.io i body)))
  handle q (delete_route id) =
      with_ (parse_uuid id) (λ i. acts (delete_export backend codec q.io i))
  handle q (state_route id) = with_ (parse_uuid id) (λ i. acts (push_state backend i q.state_body))

  unfoldable pub routed : Request V → Routed → AppState Raw B → Reply × AppState Raw B
  unfolding handle
  routed q (to r) s = handle q r s
  routed q not_found s = (refused, s)
  routed q method_not_allowed s = (refused, s)

  -- One request, and a sequence of them.
  unfoldable pub request : Request V → AppState Raw B → Reply × AppState Raw B
  unfolding router routed
  request q s = routed q (router q.verb q.path) s

  unfoldable pub requests : List (Request V) → AppState Raw B → AppState Raw B
  unfolding request
  requests [] s = s
  requests (q ∷ qs) s = requests qs (request q s).1
