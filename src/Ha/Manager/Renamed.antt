-- ===== src/Ha/Manager/Renamed.antt =====
-- An export whose name custom_components/thatsmatter/export_manager.py takes over from an entity.
use thatsmatter.Base.{
  ◌<◌, ◌≡◌, refl, sym, subst, ◌∙◌, Bool, All, List, [], ◌∷◌, none, some, ◌==◌, find, err,
  Result-cases, inl, inr, arith, Bool-cases,
}
use thatsmatter.Base.Text.{len}
use thatsmatter.Catalog.Model.{Uuid}
use thatsmatter.Catalog.Persist.{Codec}
use thatsmatter.Catalog.Methods.Invariant.{IsWellFormed}
use thatsmatter.Ipc.{Backend, AppState}
use thatsmatter.Ipc.Sync.{Change}
use thatsmatter.Ha.Models.{HaExport}
use thatsmatter.Ha.Store.{ExportStore, get, upsert, async_upsert}
use thatsmatter.Ha.Client.{Link, BridgeClientError, sync_catalog}
use thatsmatter.Ha.Client.Dict.{NodupBy, get-by_id_find}
use thatsmatter.Ha.Client.Refused.{long_name_blocks}
use thatsmatter.Ha.Manager.{Entity, reset_name, reset_export_name}
use thatsmatter.Ha.Store.Curated.{Apart, IsCurated}
use thatsmatter.Ha.Manager.Curated.{reset-IsCurated}

Apart-absent :
    (x : HaExport) (xs : List HaExport)
    → All (Apart x) xs
    → find (λ y. y.export_id == x.export_id) xs ≡ none
Apart-absent x [] a = refl
Apart-absent x (y ∷ ys) a = elim (Bool-cases (y.export_id == x.export_id)) [
  | inl same ↦ absurd (a.0.0 (ground arith))
  | inr other ↦ rw other (Apart-absent x ys a.1)
]

IsCurated-NodupBy : (xs : List HaExport) → IsCurated xs → NodupBy (λ x. x.export_id) xs
IsCurated-NodupBy [] c = tt
IsCurated-NodupBy (x ∷ xs) c = (Apart-absent x xs c.0, IsCurated-NodupBy xs c.1)

find-upsert :
    (e : HaExport) (xs : List HaExport)
    → find (λ y. y.export_id == e.export_id) (upsert e xs) ≡ some e
unfolding upsert
find-upsert e [] = ground arith
find-upsert e (x ∷ xs) = ground (arith, find-upsert e xs)

reset_exports :
    (entity : Entity) (id : Uuid) (s : ExportStore) (d : HaExport)
    → get s.exports id ≡ some d
    → (reset_export_name entity id s).1.exports ≡ upsert (reset_name entity d) s.exports
unfolding reset_export_name async_upsert
reset_exports entity id s d here = rw here refl

module _ {V Raw B : Type 0} (backend : Backend V B) (codec : Codec Raw) (link : Change → Link) where
  -- When the name of an entity, cut to 64 characters, takes more than 64 bytes, and an export of a
  -- catalog with one export per id and primary entity has its name reset to it, each
  -- synchronisation with a well-formed bridge ends with an error.
  pub reset_name_blocks :
      (entity : Entity) (id : Uuid) (store : ExportStore) (d : HaExport) (listed : Bool)
      (s : AppState Raw B)
      → IsCurated store.exports
      → get store.exports id ≡ some d
      → 64 < len (reset_name entity d).name
      → IsWellFormed s.catalog.store
      → (e : BridgeClientError) × ((sync_catalog backend codec link listed
            (reset_export_name entity id store).1.exports
            s).0
          ≡ err e)
  unfolding get
  reset_name_blocks entity id store d listed s c here long w =
      let e = reset_name entity d in
      let xs = (reset_export_name entity id store).1.exports in
      let found : find (λ y. y.export_id == e.export_id) xs ≡ some e =
        subst (λ ys. find (λ (y : HaExport). y.export_id == e.export_id) ys ≡ some e)
          (sym (reset_exports entity id store d here)) (find-upsert e store.exports) in
      elim (Result-cases (sync_catalog backend codec link listed xs s).0) [
        | inr failed ↦ failed
        | inl (items, returned) ↦ absurd (
            long_name_blocks backend codec link listed xs s e.export_id e w
              (get-by_id_find (λ x. x.export_id) xs e.export_id
                  (IsCurated-NodupBy xs (reset-IsCurated id store c entity))
                ∙ found)
              long items returned)
      ]
