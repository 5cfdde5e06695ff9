-- ===== src/Ha/Runtime/Agrees.antt =====
-- After a push of the catalog (custom_components/thatsmatter/coordinator.py), Home Assistant and the
-- bridge agree.
use thatsmatter.Base.{
  ℕ, ◌≡◌, refl, sym, ap, subst, ◌∙◌, Bool, true, false, List, [], ◌∷◌, Option, none, some, arith,
  ◌==◌, any, find, map, ok, inl, inr, Bool-cases, Option-cases, Result-cases,
}
use thatsmatter.Base.Map
use thatsmatter.Catalog.Model.{Export}
use thatsmatter.Catalog.Persist.{Codec}
use thatsmatter.Catalog.Methods.Invariant.{IsWellFormed}
use thatsmatter.Ipc.{Backend, AppState}
use thatsmatter.Ipc.Sync.{Change}
use thatsmatter.Ha.Models.{HaExport}
use thatsmatter.Ha.Store.{
  new_endpoint, with_endpoint, is_some, is_endpoint, assigned, apply_endpoint_ids,
}
use thatsmatter.Ha.Client.{Link, sync_catalog}
use thatsmatter.Ha.Client.Dict.{
  by_id, NodupKeys, NodupBy, by_id-NodupKeys, get-by_id_find, by_id-map, get_cases, by_id-key,
}
use thatsmatter.Ha.Client.Mirrors.{Mirrors}
use thatsmatter.Ha.Client.Converges.{ids, Aligned, IsSynced, sync_all}
use thatsmatter.Ha.Runtime.{Runtime, push_done, async_push_catalog}

module _ {Raw B : Type 0} (t : AppState Raw B) where
  Aligned-absent :
      (locals : List (ℕ × HaExport)) (items : List Export) (j : ℕ)
      → Aligned t locals items
      → Map.get j locals ≡ none
      → find (λ e. e.export_id == j) items ≡ none
  unfolding Map.get
  Aligned-absent [] [] j a g = refl
  Aligned-absent [] (e ∷ es) j a g = elim a [ ]
  Aligned-absent (x ∷ ls) [] j a g = elim a [ ]
  Aligned-absent ((id, l) ∷ ls) (e ∷ es) j a g = ground (arith, Aligned-absent ls es j)

  Aligned-NodupBy :
      (locals : List (ℕ × HaExport)) (items : List Export)
      → Aligned t locals items
      → NodupKeys locals
      → NodupBy (λ (e : Export). e.export_id) items
  Aligned-NodupBy [] [] a n = tt
  Aligned-NodupBy [] (e ∷ es) a n = elim a [ ]
  Aligned-NodupBy (x ∷ ls) [] a n = elim a [ ]
  Aligned-NodupBy ((id, l) ∷ ls) (e ∷ es) a n = (
    subst (λ i. find (λ (y : Export). y.export_id == i) es ≡ none) (sym a.1)
        (Aligned-absent ls es id a.2 n.0),
    Aligned-NodupBy ls es a.2 n.1,
  )

  Aligned-find :
      (locals : List (ℕ × HaExport)) (items : List Export) (j : ℕ) (l : HaExport)
      → Aligned t locals items
      → Map.get j locals ≡ some l
      → find (λ e. e.export_id == j) items ≡ Map.get j t.catalog.store.by_id
  Aligned-find [] [] j l a g = absurd (unfold Map.get in ground arith)
  Aligned-find [] (e ∷ es) j l a g = elim a [ ]
  Aligned-find (x ∷ ls) [] j l a g = elim a [ ]
  Aligned-find ((id, m) ∷ ls) (e ∷ es) j l a g = elim (get_cases id m ls j (some l) g) [
    | inl (here, x) ↦ ground arith
    | inr (there, g') ↦ ground (arith, Aligned-find ls es j l a.2 g')
  ]

Mirrors-with_endpoint :
    (o : Option ℕ) (l : HaExport) (e : Export) → Mirrors l e → Mirrors (with_endpoint o l) e
Mirrors-with_endpoint none l e m = m
Mirrors-with_endpoint (some p) l e m = ground arith

-- The endpoint that an export has once the bridge's is applied.
assigned-endpoint :
    (remote : List (ℕ × Export)) (l : HaExport) (e : Export) (p : ℕ)
    → Map.get l.export_id remote ≡ some e
    → e.endpoint_id ≡ some p
    → (assigned remote l).endpoint_id ≡ some p
unfolding assigned new_endpoint
assigned-endpoint remote l e p g a =
    rw (g, new_endpoint, a)
      (elim (Bool-cases (is_endpoint l.endpoint_id p)) [
        | inl same ↦ rw same (own l.endpoint_id same)
        | inr other ↦ rw other refl
      ])
  where
    own : (o : Option ℕ) → is_endpoint o p ≡ true → o ≡ some p
    own none h = cc
    own (some q) h = ground arith

assigned-id :
    (remote : List (ℕ × Export)) (l : HaExport) → (assigned remote l).export_id ≡ l.export_id
unfolding assigned
assigned-id remote l = ground arith

assigned-Mirrors :
    (remote : List (ℕ × Export)) (l : HaExport) (e : Export)
    → Mirrors l e
    → Mirrors (assigned remote l) e
unfolding assigned
assigned-Mirrors remote l e m =
    Mirrors-with_endpoint (new_endpoint (Map.get l.export_id remote) l) l e m

none_new :
    (remote : List (ℕ × Export)) (exports : List HaExport)
    → any (λ e. is_some (new_endpoint (Map.get e.export_id remote) e)) exports ≡ false
    → map (assigned remote) exports ≡ exports
unfolding assigned
none_new remote [] h = refl
none_new remote (l ∷ ls) h = elim (Option-cases (new_endpoint (Map.get l.export_id remote) l)) [
  | inr (p, some_new) ↦ cc (rw some_new at h)
  | inl none_here ↦ rw none_here (ap (λ xs. l ∷ xs) (none_new remote ls (rw none_here at h)))
]

-- Both catalogs have the same exports, with the same endpoints.
pub record Agrees {Raw B : Type 0} (exports : List HaExport) (t : AppState Raw B) : Type 0 where
  pub only : (j : ℕ) → Map.get j (ids exports) ≡ none → Map.get j t.catalog.store.by_id ≡ none
  pub matched :
      (j : ℕ) (l : HaExport)
      → Map.get j (ids exports) ≡ some l
      → (item : Export) × (Map.get j t.catalog.store.by_id ≡ some item)
        × Mirrors l item
        × (l.endpoint_id ≡ item.endpoint_id)

agreed :
    {Raw B : Type 0} (exports : List HaExport) (items : List Export) (s t : AppState Raw B)
    → IsSynced exports s t
    → Aligned t (ids exports) items
    → Agrees (apply_endpoint_ids items exports).0 t
unfolding apply_endpoint_ids
agreed exports items s t synced aligned =
    let key : HaExport → ℕ = λ (l : HaExport). l.export_id in
    let remote = by_id (λ (e : Export). e.export_id) items in
    let renamed = λ (j : ℕ). by_id-map key (assigned remote) exports j (assigned-id remote) in
    record {
      only = λ j g. elim (Option-cases (Map.get j (ids exports))) [
        | inl absent ↦ synced.only j absent
        | inr (l, here) ↦ cc (rw here at (renamed j), g)
      ];
      matched = λ j l g. elim (Option-cases (Map.get j (ids exports))) [
        | inl absent ↦ cc (rw absent at (renamed j), g)
        | inr (m, here) ↦
            let (item, stored, mirrors, stable) = synced.matched j m here in
            let same : assigned remote m ≡ l = let x = rw here at (renamed j) in ground arith in
            let a = synced.well_formed.assigned j item stored in
            let found : Map.get m.export_id remote ≡ some item =
              subst (λ i. Map.get i remote ≡ some item) (sym (by_id-key key exports j m here))
                (get-by_id_find (λ (e : Export). e.export_id) items j
                    (Aligned-NodupBy t (ids exports) items aligned (by_id-NodupKeys key exports))
                  ∙ Aligned-find t (ids exports) items j m aligned here
                  ∙ stored) in
            (
              item,
              stored,
              subst (λ x. Mirrors x item) same (assigned-Mirrors remote m item mirrors),
              ap (λ (x : HaExport). x.endpoint_id) (sym same)
                  ∙ assigned-endpoint remote m item a.id found a.assigned
                  ∙ sym a.assigned,
            )
      ];
    }

saved_up :
    (items : List Export) (r : Runtime)
    → r.store.saved ≡ r.store.exports
    → (push_done (ok items) r).1.store.saved ≡ (push_done (ok items) r).1.store.exports
unfolding push_done apply_endpoint_ids
saved_up items r up =
    let remote = by_id (λ (e : Export). e.export_id) items in
    elim (Bool-cases
      (any (λ e. is_some (new_endpoint (Map.get e.export_id remote) e)) r.store.exports)) [
        | inl changed ↦ rw changed refl
        | inr same ↦ rw same (up ∙ sym (none_new remote r.store.exports same))
      ]

module _ {V Raw B : Type 0} (backend : Backend V B) (codec : Codec Raw) (link : Change → Link) where
  -- A push of the catalog to a well-formed bridge that returns leaves Home Assistant's catalog and
  -- the bridge's with the same exports, and the same endpoints; and if what was saved was up to
  -- date, it still is.
  pub async_push_catalog-Agrees :
      (listed : Bool) (r : Runtime) (s : AppState Raw B)
      → IsWellFormed s.catalog.store
      → (async_push_catalog backend codec link listed r s).0 ≡ ok tt
      → r.store.saved ≡ r.store.exports
      → Agrees
          (async_push_catalog backend codec link listed r s).1.store.exports
          (async_push_catalog backend codec link listed r s).2
        × ((async_push_catalog backend codec link listed r s).1.store.saved
            ≡ (async_push_catalog backend codec link listed r s).1.store.exports)
  unfolding async_push_catalog push_done apply_endpoint_ids sync_catalog
  async_push_catalog-Agrees false r s w h up = cc
  async_push_catalog-Agrees true r s w h up =
      elim (Result-cases (sync_catalog backend codec link true r.store.exports s).0) [
        | inr (e, failed) ↦ cc (rw failed at h)
        | inl (items, done) ↦
            let (synced, aligned) = sync_all backend codec link r.store.exports s items w done in
            let t = (sync_catalog backend codec link true r.store.exports s).1 in
            rw done (agreed r.store.exports items s t synced aligned, saved_up items r up)
      ]
