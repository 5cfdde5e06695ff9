-- ===== src/Ha/Store.antt =====
-- The catalog that Home Assistant keeps: `CatalogData` of custom_components/thatsmatter/models.py and
-- `ExportStore` of custom_components/thatsmatter/store.py. A save to .storage is taken to succeed.
pub mod Curated
use thatsmatter.Base.{
  ℕ, Bool, true, false, ◌&&◌, ◌||◌, List, [], ◌∷◌, Option, none, some, ◌==◌, if◌then◌else◌, any,
  find, filter, map,
}
use thatsmatter.Base.Text.{Text, text_eq}
use thatsmatter.Base.Map
use thatsmatter.Catalog.Model.{Uuid, Export}
use thatsmatter.Ha.Models.{HaExport}
use thatsmatter.Ha.Client.Dict.{by_id}

-- The exports in memory, and those that were saved last.
pub record ExportStore : Type 0 where
  pub exports : List HaExport
  pub saved : List HaExport

unfoldable pub get : List HaExport → Uuid → Option HaExport
get exports export_id = find (λ e. e.export_id == export_id) exports

unfoldable pub upsert : HaExport → List HaExport → List HaExport
upsert export_ [] = export_ ∷ []
upsert export_ (existing ∷ exports) =
    let rest = upsert export_ exports in
    if existing.export_id == export_.export_id then export_ ∷ exports else existing ∷ rest

unfoldable pub delete : Uuid → List HaExport → List HaExport
delete export_id [] = []
delete export_id (existing ∷ exports) =
    let rest = delete export_id exports in
    if existing.export_id == export_id then exports else existing ∷ rest

-- Whether the entity is the export's primary or a linked one.
unfoldable pub uses_entity : Text → HaExport → Bool
uses_entity entity_id e =
    text_eq e.primary_entity_id entity_id || any (λ x. text_eq x.1 entity_id) e.linked

unfoldable pub find_by_entity : Text → List HaExport → List HaExport
unfolding uses_entity
find_by_entity entity_id exports = filter (λ e. e.enabled && uses_entity entity_id e) exports

unfoldable pub async_upsert : HaExport → ExportStore → ExportStore
unfolding upsert
async_upsert export_ s =
    let exports = upsert export_ s.exports in record { exports = exports; saved = exports }

delete_found : Uuid → ExportStore → Option HaExport → Option HaExport × ExportStore
unfolding delete
delete_found export_id s none = (none, s)
delete_found export_id s (some e) =
    (some e, record { exports = delete export_id s.exports; saved = delete export_id s.exports })

unfoldable pub async_delete : Uuid → ExportStore → Option HaExport × ExportStore
unfolding delete_found
async_delete export_id s = delete_found export_id s (get s.exports export_id)

abbrev pub is_endpoint : Option ℕ → ℕ → Bool
is_endpoint none p = false
is_endpoint (some q) p = q == p

-- The endpoint that the bridge's export brings, if it is another than the export's.
unfoldable pub new_endpoint : Option Export → HaExport → Option ℕ
new_endpoint none e = none
new_endpoint (some remote) e = elim remote.endpoint_id [
  | none ↦ none
  | some p ↦ if is_endpoint e.endpoint_id p then none else some p
]

abbrev pub with_endpoint : Option ℕ → HaExport → HaExport
with_endpoint none e = e
with_endpoint (some p) e = record e { endpoint_id = some p }

abbrev pub is_some : Option ℕ → Bool
is_some none = false
is_some (some p) = true

unfoldable pub assigned : List (ℕ × Export) → HaExport → HaExport
unfolding new_endpoint
assigned remote e = with_endpoint (new_endpoint (Map.get e.export_id remote) e) e

unfoldable pub apply_endpoint_ids : List Export → List HaExport → List HaExport × Bool
unfolding new_endpoint assigned
apply_endpoint_ids bridge_exports exports =
    let remote = by_id (λ r. r.export_id) bridge_exports in
    (
      map (assigned remote) exports,
      any (λ e. is_some (new_endpoint (Map.get e.export_id remote) e)) exports,
    )
