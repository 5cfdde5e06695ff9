-- ===== src/Ha/Client/Again.antt =====
-- A second `sync_catalog` of custom_components/thatsmatter/bridge_client.py.
use thatsmatter.Base.{
  ℕ, ◌≡◌, refl, ◌∙◌, true, List, [], ◌∷◌, Option, none, some, arith, ok, inl, inr, Option-cases,
}
use thatsmatter.Base.Text.{Text, text_eq_refl}
use thatsmatter.Base.Map
use thatsmatter.Catalog.Model.{Export}
use thatsmatter.Catalog.Store.{list}
use thatsmatter.Catalog.Persist.{Codec}
use thatsmatter.Ipc.{Backend, AppState, list_exports}
use thatsmatter.Ipc.Sync.{Change}
use thatsmatter.Ha.Models.{HaExport}
use thatsmatter.Ha.Client.{
  Link, dict_eq, optional_eq, difference, is_empty_patch, delete_remote_only, reconcile,
  reconcile_all, sync_catalog,
}
use thatsmatter.Ha.Client.Dict.{by_id, NodupKeys, get_head, get_tail, by_id-NodupKeys, get-by_id}
use thatsmatter.Ha.Client.Mirrors.{Mirrors}
use thatsmatter.Ha.Client.Converges.{ids, IsSynced}

dict_eq_refl : (xs : List (Text × Text)) → dict_eq xs xs ≡ true
dict_eq_refl [] = refl
dict_eq_refl ((k, v) ∷ xs) = ground (arith, text_eq_refl k, text_eq_refl v, dict_eq_refl xs)

optional_eq_refl : (o : Option Text) → optional_eq o o ≡ true
optional_eq_refl none = refl
optional_eq_refl (some t) = text_eq_refl t

-- An export that says the same has an empty patch.
Mirrors-is_empty_patch :
    (l : HaExport) (b : Export) → Mirrors l b → is_empty_patch (difference b l) ≡ true
unfolding is_empty_patch difference
Mirrors-is_empty_patch l b m =
    rw (m.name, m.type_, m.primary_entity_id, m.linked, m.area_id, m.enabled)
      (ground (
        arith,
        text_eq_refl l.name,
        text_eq_refl l.type_,
        text_eq_refl l.primary_entity_id,
        dict_eq_refl l.linked,
        optional_eq_refl l.area_id,
      ))

module _ {V Raw B : Type 0} (backend : Backend V B) (codec : Codec Raw) (link : Change → Link) where
  delete_none :
      (local : List (ℕ × HaExport)) (remote : List (ℕ × Export)) (s : AppState Raw B)
      → NodupKeys remote
      → ((j : ℕ) (b : Export) → Map.get j remote ≡ some b → Map.contains_key j local ≡ true)
      → delete_remote_only backend codec link local remote s ≡ (ok tt, s)
  unfolding delete_remote_only
  delete_none local [] s n c = refl
  delete_none local ((rid, b) ∷ remote) s n c =
      rw (c rid b (get_head rid b remote))
        (delete_none local remote s n.1 (λ j x g. c j x (get_tail rid b remote j x n.0 g).0))

  reconcile_none :
      (remote : List (ℕ × Export)) (locals : List (ℕ × HaExport)) (s : AppState Raw B)
      → NodupKeys locals
      → ((j : ℕ) (l : HaExport)
          → Map.get j locals ≡ some l
          → (b : Export) × (Map.get j remote ≡ some b) × Mirrors l b)
      → (items : List Export) × (reconcile_all backend codec link remote locals s ≡ (ok items, s))
  unfolding reconcile_all reconcile
  reconcile_none remote [] s n c = ([], refl)
  reconcile_none remote ((id, l) ∷ locals) s n c =
      let (b, g, m) = c id l (get_head id l locals) in
      let (items, rest) =
        reconcile_none remote locals s n.1 (λ j x h. c j x (get_tail id l locals j x n.0 h).0) in
      (b ∷ items, rw (g, Mirrors-is_empty_patch l b m, rest) refl)

  -- Right after a synchronisation that has returned, another of the same exports only lists: it
  -- returns and leaves the bridge as it is, whatever would become of any other request.
  pub sync_catalog-again :
      (exports : List HaExport) (s t : AppState Raw B)
      → IsSynced exports s t
      → (items : List Export) × (sync_catalog backend codec link true exports t ≡ (ok items, t))
  unfolding sync_catalog list_exports list
  sync_catalog-again exports s t synced =
      let w = synced.well_formed in
      let local = ids exports in
      let remote = by_id (λ (e : Export). e.export_id) (Map.values t.catalog.store.by_id) in
      let listing = λ (j : ℕ).
        get-by_id (λ (e : Export). e.export_id) t.catalog.store.by_id j w.sorted w.keyed in
      let kept =
        delete_none local remote t
          (by_id-NodupKeys (λ (e : Export). e.export_id) (Map.values t.catalog.store.by_id))
          (λ j b g. elim (Option-cases (Map.get j local)) [
            | inl absent ↦ cc (synced.only j absent, listing j)
            | inr (l, here) ↦ rw (here, Map.contains_key) refl
          ]) in
      let (items, rest) =
        reconcile_none remote local t (by_id-NodupKeys (λ (l : HaExport). l.export_id) exports)
          (λ j l g.
            let (b, stored, m, same) = synced.matched j l g in (b, listing j ∙ stored, m)) in
      (items, rw (kept, rest) refl)
