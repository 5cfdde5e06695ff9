-- ===== src/Ha/Manager/Curated.antt =====
-- Home Assistant's catalog over the edits of custom_components/thatsmatter/export_manager.py.
use thatsmatter.Base.{
  ◌≡◌, refl, sym, ap, subst, Bool, true, false, List, [], ◌∷◌, Option, arith, All, Result, ok, err,
  inl, inr, Bool-cases, Option-cases, Result-cases,
}
use thatsmatter.Base.Text.{Text, text_eq, text_eq_refl}
use thatsmatter.Catalog.Model.{Uuid}
use thatsmatter.Ha.Models.{HaExport, FieldError, validate_export_fields}
use thatsmatter.Ha.Store.{ExportStore, get, async_upsert, async_delete}
use thatsmatter.Ha.Manager.{
  Entity, Update, EditError, new_export, accepted, is_exported, is_exported_elsewhere, upserted,
  resolve_type, add_entity_export, update_checked, updated, update_export_fields, remove_export_id,
  reset_name, reset_export_name,
}
use thatsmatter.Ha.Store.Curated.{
  IsCurated, Fits, upsert-IsCurated, delete-IsCurated, kept-Fits, get-id, renamed_found,
}

-- The loops of the manager find no other export of the entity.
free-Fits :
    (e : HaExport) (xs : List HaExport)
    → is_exported e.primary_entity_id xs ≡ false
    → All (Fits e) xs
unfolding is_exported
free-Fits e [] h = tt
free-Fits e (x ∷ xs) h = (
  λ far same.
      let t : text_eq x.primary_entity_id e.primary_entity_id ≡ true =
        rw same (text_eq_refl e.primary_entity_id) in
      ground arith,
  free-Fits e xs (ground arith),
)

free_elsewhere-Fits :
    (e : HaExport) (xs : List HaExport)
    → is_exported_elsewhere e.export_id e.primary_entity_id xs ≡ false
    → All (Fits e) xs
unfolding is_exported_elsewhere
free_elsewhere-Fits e [] h = tt
free_elsewhere-Fits e (x ∷ xs) h = (
  λ far same.
      let t : text_eq x.primary_entity_id e.primary_entity_id ≡ true =
        rw same (text_eq_refl e.primary_entity_id) in
      ground arith,
  free_elsewhere-Fits e xs (ground arith),
)

new_export-primary :
    (name type_key entity_id : Text) (linked : List (Text × Text)) (area_id : Option Text)
    (enabled : Bool) (fresh : Uuid) (e : HaExport)
    → new_export name type_key entity_id linked area_id enabled fresh ≡ ok e
    → e.primary_entity_id ≡ entity_id
unfolding new_export
new_export-primary name type_key entity_id linked area_id enabled fresh e h =
    ap (λ (x : HaExport). x.primary_entity_id)
      (sym (passed (validate_export_fields name type_key entity_id linked) _ e h))
  where
    passed : (errors : List FieldError) (x y : HaExport) → accepted errors x ≡ ok y → x ≡ y
    passed [] x y h = ground arith
    passed (f ∷ fs) x y h = cc

upserted-IsCurated :
    (s : ExportStore) (r : Result EditError HaExport)
    → IsCurated s.exports
    → ((e : HaExport) → r ≡ ok e → All (Fits e) s.exports)
    → IsCurated (upserted s r).1.exports
unfolding upserted async_upsert
upserted-IsCurated s (err x) c f = c
upserted-IsCurated s (ok e) c f = upsert-IsCurated e s.exports c (f e refl)

update_checked-IsCurated :
    (id : Uuid) (e : HaExport) (errors : List FieldError) (s : ExportStore)
    → e.export_id ≡ id
    → IsCurated s.exports
    → IsCurated (update_checked id e errors s).1.exports
unfolding update_checked async_upsert
update_checked-IsCurated id e (x ∷ xs) s own c = c
update_checked-IsCurated id e [] s own c =
    elim (Bool-cases (is_exported_elsewhere id e.primary_entity_id s.exports)) [
      | inl taken ↦ rw taken c
      | inr free ↦ rw free (
          upsert-IsCurated e s.exports c (
            free_elsewhere-Fits e s.exports (
              subst (λ i. is_exported_elsewhere i e.primary_entity_id s.exports ≡ false) (sym own)
                free)))
    ]

-- The edits, with what Home Assistant knows of the entity and the id that is drawn.
pub data EditCall : Type 0 where
  add :
      Entity
      → Text
      → Option Text
      → Option Text
      → Bool
      → List (Text × Text)
      → Option Text
      → Uuid
      → EditCall
  update : Uuid → Update → EditCall
  remove : Uuid → EditCall
  reset : Entity → Uuid → EditCall

-- The store after an edit, whether it is refused or not, and after a sequence of them.
unfoldable pub edited : EditCall → ExportStore → ExportStore
edited (add entity entity_id name type_key enabled linked area_id fresh) s =
    (add_entity_export entity entity_id name type_key enabled linked area_id fresh s).1
edited (update id u) s = (update_export_fields id u s).1
edited (remove id) s = (remove_export_id id s).1
edited (reset entity id) s = (reset_export_name entity id s).1

unfoldable pub edited_all : List EditCall → ExportStore → ExportStore
edited_all [] s = s
edited_all (c ∷ cs) s = edited_all cs (edited c s)

add-IsCurated :
    (entity : Entity) (entity_id : Text) (name type_key : Option Text) (enabled : Bool)
    (linked : List (Text × Text)) (area_id : Option Text) (fresh : Uuid) (s : ExportStore)
    → IsCurated s.exports
    → IsCurated
        (add_entity_export entity entity_id name type_key enabled linked area_id fresh s).1.exports
unfolding add_entity_export
add-IsCurated entity entity_id name type_key enabled linked area_id fresh s c =
    elim (Bool-cases (is_exported entity_id s.exports)) [
      | inl taken ↦ rw (taken, add_entity_export) c
      | inr free ↦ elim (Result-cases (resolve_type entity entity_id type_key)) [
        | inr (x, refused) ↦ rw (free, refused) c
        | inl (t, good) ↦
            rw (free, good)
              (upserted-IsCurated s _ c (λ e made. free-Fits e s.exports (
                subst (λ p. is_exported p s.exports ≡ false)
                  (sym (new_export-primary _ t entity_id linked _ enabled fresh e made)) free)))
      ]
    ]

module _ (id : Uuid) (s : ExportStore) (c : IsCurated s.exports) where
  update-IsCurated : (u : Update) → IsCurated (update_export_fields id u s).1.exports
  unfolding update_export_fields
  update-IsCurated u = elim (Option-cases (get s.exports id)) [
    | inl absent ↦ rw absent c
    | inr (d, here) ↦ rw here (
        update_checked-IsCurated id (updated u d) _ s (unfold updated in get-id s.exports id d here)
          c)
  ]

  remove-IsCurated : IsCurated (remove_export_id id s).1.exports
  unfolding remove_export_id async_delete
  remove-IsCurated = elim (Option-cases (get s.exports id)) [
    | inl absent ↦ rw absent c
    | inr (d, here) ↦ rw here (delete-IsCurated id s.exports c)
  ]

  pub reset-IsCurated : (entity : Entity) → IsCurated (reset_export_name entity id s).1.exports
  unfolding reset_export_name async_upsert
  reset-IsCurated entity = elim (Option-cases (get s.exports id)) [
    | inl absent ↦ rw absent c
    | inr (d, here) ↦ rw here (
        upsert-IsCurated (reset_name entity d) s.exports c
          (kept-Fits (reset_name entity d) s.exports d c (renamed_found s.exports id d here) refl))
  ]

edited-IsCurated :
    (x : EditCall) (s : ExportStore) → IsCurated s.exports → IsCurated (edited x s).exports
unfolding edited
edited-IsCurated (add entity entity_id name type_key enabled linked area_id fresh) s c =
    add-IsCurated entity entity_id name type_key enabled linked area_id fresh s c
edited-IsCurated (update id u) s c = update-IsCurated id s c u
edited-IsCurated (remove id) s c = remove-IsCurated id s c
edited-IsCurated (reset entity id) s c = reset-IsCurated id s c entity

-- Whatever edits are made, and whichever are refused, a catalog in which no two exports have one id
-- or one primary entity stays so.
pub edited_all-IsCurated :
    (cs : List EditCall) (s : ExportStore)
    → IsCurated s.exports
    → IsCurated (edited_all cs s).exports
unfolding edited_all
edited_all-IsCurated [] s c = c
edited_all-IsCurated (x ∷ cs) s c = edited_all-IsCurated cs (edited x s) (edited-IsCurated x s c)
