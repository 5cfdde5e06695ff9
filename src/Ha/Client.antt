-- ===== src/Ha/Client.antt =====
-- `BridgeClient.sync_catalog` of custom_components/thatsmatter/bridge_client.py, over the handlers of
-- bridge/src/ipc/handlers.rs: Home Assistant's exports are made the bridge's by a listing and then
-- deletions, creations and patches. No other client's requests come in between.
pub mod Dict
pub mod Mirrors
pub mod Requests
pub mod Trimmed
pub mod Answered
pub mod Converges
pub mod Returns
pub mod Again
pub mod Refused
use thatsmatter.Base.{
  ℕ, ◌≡◌, refl, Bool, true, false, not, ◌&&◌, List, [], ◌∷◌, Option, none, some, arith, bool_ne,
  if◌then◌else◌, Result, ok, err, Exec, pure, raise, continue, ◌>>=◌, ◌>>◌,
}
use thatsmatter.Base.Text.{Text, text_eq}
use thatsmatter.Base.Map
use thatsmatter.Catalog.Model.{Uuid, DeviceType, Export}
use thatsmatter.Catalog.Store.{CreateExport, PatchExport}
use thatsmatter.Catalog.Persist.{Codec, PersistIo}
use thatsmatter.Ipc.{
  Backend, AppState, StatusCode, success, Body, export_body, exports_body, Response, list_exports,
}
use thatsmatter.Ipc.Sync.{Change, creates, patches, deletes, serve}
use thatsmatter.Ha.Models.{HaExport, wire_name, read_type}
use thatsmatter.Ha.Client.Dict.{by_id}

-- What becomes of a request on its way, and what the bridge's file system does for it.
pub record Link : Type 0 where
  pub arrives : Bool
  pub returns : Bool
  pub io : PersistIo

-- `answered` is a status of 400 or above from a handler, `rejected` one from the extractor of the
-- body.
pub data BridgeClientError : Type 0 where
  answered : Response → BridgeClientError
  rejected unreachable : BridgeClientError

-- Python's `==` on `dict` and on `str | None`.
abbrev pub dict_eq : List (Text × Text) → List (Text × Text) → Bool
dict_eq [] [] = true
dict_eq [] (y ∷ ys) = false
dict_eq (x ∷ xs) [] = false
dict_eq ((k, v) ∷ xs) ((j, w) ∷ ys) = text_eq k j && (text_eq v w && dict_eq xs ys)

abbrev pub optional_eq : Option Text → Option Text → Bool
optional_eq none none = true
optional_eq none (some t) = false
optional_eq (some s) none = false
optional_eq (some s) (some t) = text_eq s t

-- The body of a creation; `none` is a body that the bridge cannot read.
unfoldable pub create_export_body : HaExport → Option CreateExport
unfolding read_type
create_export_body l = elim (read_type l.type_) [
  | none ↦ none
  | some t ↦ some (record {
    export_id = some l.export_id;
    name = l.name;
    type_ = t;
    primary_entity_id = l.primary_entity_id;
    linked = l.linked;
    area_id = l.area_id;
    enabled = l.enabled;
  })
]

-- The `dict` of a patch: a field is `none` where the key is absent.
pub record PatchDict : Type 0 where
  pub name : Option Text
  pub type_ : Option Text
  pub primary_entity_id : Option Text
  pub linked : Option (List (Text × Text))
  pub area_id : Option (Option Text)
  pub enabled : Option Bool

abbrev pub unless : {A : Type 0} → Bool → A → Option A
unless same a = if same then none else some a

unfoldable pub difference : Export → HaExport → PatchDict
difference remote local = record {
  name = unless (text_eq remote.name local.name) local.name;
  type_ = unless (text_eq (wire_name remote.type_) local.type_) local.type_;
  primary_entity_id =
      unless (text_eq remote.primary_entity_id local.primary_entity_id) local.primary_entity_id;
  linked = unless (dict_eq remote.linked local.linked) local.linked;
  area_id = unless (optional_eq remote.area_id local.area_id) local.area_id;
  enabled = unless (not (bool_ne remote.enabled local.enabled)) local.enabled;
}

abbrev absent : {A : Type 0} → Option A → Bool
absent none = true
absent (some a) = false

-- `not patch`.
unfoldable pub is_empty_patch : PatchDict → Bool
is_empty_patch p =
    absent p.name
    && (absent p.type_
        && (absent p.primary_entity_id
            && (absent p.linked && (absent p.area_id && absent p.enabled))))

-- What the bridge reads of a patch.
unfoldable pub with_type : PatchDict → Option DeviceType → PatchExport
with_type p t = record {
  name = p.name;
  type_ = t;
  primary_entity_id = p.primary_entity_id;
  linked = p.linked;
  area_id = p.area_id;
  enabled = p.enabled;
}

read_given : PatchDict → Text → Option PatchExport
unfolding with_type read_type
read_given p type_key = elim (read_type type_key) [
  | none ↦ none
  | some t ↦ some (with_type p (some t))
]

unfoldable pub read_patch : PatchDict → Option PatchExport
unfolding read_given with_type
read_patch p = elim p.type_ [ none ↦ some (with_type p none) | some t ↦ read_given p t ]

-- `resp.status >= 400`.
abbrev is_error : StatusCode → Bool
is_error success = false
is_error StatusCode.created = false
is_error _ = true

abbrev exported : Response → Body → Result BridgeClientError Export
exported r (export_body e) = ok e
exported r _ = err (answered r)

-- The export that a response brings, or the error that it raises.
unfoldable pub outcome : Response → Result BridgeClientError Export
outcome r = if is_error r.status then err (answered r) else exported r r.body

module _ {V Raw B : Type 0} (backend : Backend V B) (codec : Codec Raw) (link : Change → Link) where
  abbrev pub Client : Type 0 → Type 0
  Client A = Exec (AppState Raw B) BridgeClientError A

  -- No two requests of a synchronisation are the same, so each has a link of its own.
  unfoldable pub request : Change → Client Export
  unfolding outcome
  request change s =
      let (r, s') = serve backend codec (link change).io change s in
      if (link change).arrives
      then (if (link change).returns then outcome r else err unreachable, s')
      else (err unreachable, s)

  -- A body that the bridge cannot read changes nothing; that it may not arrive is not told apart.
  send : {A : Type 0} → (A → Change) → Option A → Client Export
  unfolding request
  send change none s = (err rejected, s)
  send change (some body) s = request (change body) s

  unfoldable pub create_export : HaExport → Client Export
  unfolding send create_export_body
  create_export l = send (λ body. creates body l.export_id) (create_export_body l)

  unfoldable pub patch_export : Uuid → PatchDict → Client Export
  unfolding send read_patch
  patch_export id p = send (patches id) (read_patch p)

  unfoldable pub delete_export : Uuid → Client Export
  unfolding request
  delete_export id = request (deletes id)

  -- The deletion of the exports that only the bridge has.
  unfoldable pub delete_remote_only : List (ℕ × HaExport) → List (ℕ × Export) → Client (Unit {0})
  unfolding delete_export
  delete_remote_only local [] = pure tt
  delete_remote_only local ((rid, _) ∷ remote) =
      let rest = delete_remote_only local remote in
      if Map.contains_key rid local then rest else do delete_export rid; rest

  unfoldable pub reconcile : Uuid → HaExport → Option Export → Client Export
  unfolding create_export patch_export difference is_empty_patch
  reconcile eid local none = create_export local
  reconcile eid local (some remote_item) =
      if is_empty_patch (difference remote_item local)
      then pure remote_item
      else patch_export eid (difference remote_item local)

  unfoldable pub reconcile_all : List (ℕ × Export) → List (ℕ × HaExport) → Client (List Export)
  unfolding reconcile
  reconcile_all remote [] = pure []
  reconcile_all remote ((eid, local) ∷ locals) = do
    item ← reconcile eid local (Map.get eid remote)
    items ← reconcile_all remote locals
    pure (item ∷ items)

  -- What the listing brings; `listed` says whether its answer came.
  abbrev remote_list : Body → List Export
  remote_list (exports_body es) = es
  remote_list _ = []

  unfoldable pub sync_catalog : Bool → List HaExport → Client (List Export)
  unfolding delete_remote_only reconcile_all list_exports
  sync_catalog false exports s = (err unreachable, s)
  sync_catalog true exports s =
      let remote = by_id (λ e. e.export_id) (remote_list (list_exports backend s).body) in
      let local = by_id (λ l. l.export_id) exports in
      (do delete_remote_only local remote; reconcile_all remote local) s
