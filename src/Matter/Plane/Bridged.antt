-- ===== src/Matter/Plane/Bridged.antt =====
-- Which exports `set_exports` of bridge/src/matter/export_plane.rs bridges, and where.
use mathlib.Core.List.{Memᴰ}
use mathlib.Core.List.Memᴰ
use mathlib.Core.List.Memᴰ.{head, tail}
use thatsmatter.Base.{
  Option, ℕ, ◌+◌, ◌≤◌, ◌<◌, ◌≡◌, ◌≢◌, refl, sym, ap, ◌∙◌, true, false, List, [], ◌∷◌, some, arith,
  filter, contains, ◌==◌, Option-cases, Bool-cases, inl, inr,
}
use thatsmatter.Base.Map
use thatsmatter.Base.Map.Entries.{values-get, get-values}
use thatsmatter.Catalog.Model.{Uuid, Export}
use thatsmatter.Catalog.Store.{CatalogStore, list}
use thatsmatter.Catalog.Methods.Invariant.{IsWellFormed}
use thatsmatter.Matter.OnOffMap.{is_matter_bridged_export}
use thatsmatter.Matter.Slot.{Versions, ExportSlot}
use thatsmatter.Matter.Rebuild.{rebuild_identity, rebuild_kind, slot_kind_of}
use thatsmatter.Matter.Plane.{
  ExportPlane, sort_by_key, usable_endpoint, build_slots, set_exports, endpoint_max, slot_for,
}
use thatsmatter.Matter.Plane.Layout.{build_slots-skip, build_slots-use}
use thatsmatter.Matter.Plane.Members.{filter-Mem, Mem-filter, sort_by_key-Mem, Mem-sort_by_key}

-- What is needed of an export for it to get the endpoint above its own.
record IsAlone (e : Export) (p : ℕ) (es : List Export) : Type 0 where
  by_id : (d : Export) → Memᴰ d es → d.export_id ≡ e.export_id → d ≡ e
  by_endpoint : (d : Export) → Memᴰ d es → d.endpoint_id ≡ some p → d ≡ e

IsAlone-tail :
    (e : Export) (p : ℕ) (d : Export) (es : List Export) → IsAlone e p (d ∷ es) → IsAlone e p es
IsAlone-tail e p d es a = record {
  by_id = λ x m. a.by_id x (tail m);
  by_endpoint = λ x m. a.by_endpoint x (tail m);
}

usable_endpoint-own :
    (e : Export) (p : ℕ) (taken : List ℕ)
    → e.endpoint_id ≡ some p
    → 1 ≤ p
    → p < endpoint_max
    → contains taken (p + 1) ≡ false
    → usable_endpoint e taken ≡ some (p + 1)
unfolding usable_endpoint
usable_endpoint-own e p taken q lo hi free = ground arith

usable_endpoint-of :
    (d : Export) (p : ℕ) (taken : List ℕ)
    → usable_endpoint d taken ≡ some (p + 1)
    → d.endpoint_id ≡ some p
unfolding usable_endpoint
usable_endpoint-of d p taken h = ground arith

-- A slot that bridges an export at an endpoint; its state is that of the slot which the export had
-- before, or the default of its type.
pub record Bridges (e : Export) (m : ℕ) (before : Option ExportSlot) (slots : List ExportSlot)
    : Type 0 where
  pub slot : ExportSlot
  pub found : slot_for e.export_id slots ≡ some slot
  pub endpoint : slot.matter_endpoint ≡ m
  pub source : slot.source ≡ e
  pub kind : slot.kind ≡ rebuild_kind e.type_ (slot_kind_of before)

Bridges-here :
    (e : Export) (m : ℕ) (before : Option ExportSlot) (s : ExportSlot) (slots : List ExportSlot)
    → s.export_id ≡ e.export_id
    → s.matter_endpoint ≡ m
    → s.source ≡ e
    → s.kind ≡ rebuild_kind e.type_ (slot_kind_of before)
    → Bridges e m before (s ∷ slots)
unfolding slot_for
Bridges-here e m before s slots i q r k = record {
  slot = s;
  found = ground arith;
  endpoint = q;
  source = r;
  kind = k;
}

Bridges-later :
    (e : Export) (m : ℕ) (before : Option ExportSlot) (s : ExportSlot) (slots : List ExportSlot)
    → s.export_id ≢ e.export_id
    → Bridges e m before slots
    → Bridges e m before (s ∷ slots)
unfolding slot_for
Bridges-later e m before s slots far b = record {
  slot = b.slot;
  found = ground (arith, b.found);
  endpoint = b.endpoint;
  source = b.source;
  kind = b.kind;
}

module _ (random : Uuid → Versions) (previous : List ExportSlot) (e : Export) (p : ℕ)
    (q : e.endpoint_id ≡ some p) (lo : 1 ≤ p) (hi : p < endpoint_max) where
  build_slots-Bridges :
      (es : List Export) (taken : List ℕ)
      → Memᴰ e es
      → IsAlone e p es
      → contains taken (p + 1) ≡ false
      → Bridges e (p + 1) (slot_for e.export_id previous) (build_slots random previous es taken)
  build_slots-Bridges [] taken m a free = absurd (Memᴰ.not-nil m)
  build_slots-Bridges (d ∷ es) taken m a free = elim (Bool-cases (d.export_id == e.export_id)) [
    | inl same ↦
        let is_e : d ≡ e = a.by_id d (head refl) (ground arith) in
        let own = usable_endpoint-own e p taken q lo hi free in
        let (ep, i, src, _, kind) =
          rebuild_identity e (p + 1) (slot_for e.export_id previous) (random e.export_id) in
        rw (is_e, build_slots-use random previous e es taken (p + 1) own)
          (Bridges-here e (p + 1) _ _ _ ep i src kind)
    | inr other ↦
        let differ : d.export_id ≢ e.export_id = λ h. absurd (ground arith) in
        let rest : Memᴰ e es = elim (Memᴰ.cases_cons m) [
          | inl h ↦ absurd (differ (ap (λ x. x.export_id) (sym h)))
          | inr n ↦ n
        ] in
        elim (Option-cases (usable_endpoint d taken)) [
          | inl skip ↦
              rw (build_slots-skip random previous d es taken skip)
                (build_slots-Bridges es taken rest (IsAlone-tail e p d es a) free)
          | inr (k, use_) ↦ rw (build_slots-use random previous d es taken k use_) (
              let id_d =
                (rebuild_identity d k (slot_for d.export_id previous) (random d.export_id)).0 in
              let apart : k ≢ p + 1 = λ h. differ (
                ap (λ x. x.export_id)
                  (a.by_endpoint d (head refl)
                    (usable_endpoint-of d p taken (use_ ∙ ap some h)))) in
              Bridges-later e (p + 1) _ _ _ (λ h. differ (sym id_d ∙ h))
                (build_slots-Bridges es (k ∷ taken) rest (IsAlone-tail e p d es a) (ground arith)))
        ]
  ]

same_entry :
    (s : CatalogStore) (k : ℕ) (d e : Export)
    → Map.get k s.by_id ≡ some d
    → Map.get e.export_id s.by_id ≡ some e
    → k ≡ e.export_id
    → d ≡ e
same_entry s k d e gd ge i = cc

assigned-positive :
    (s : CatalogStore) (e : Export) (p : ℕ)
    → IsWellFormed s
    → Map.get e.export_id s.by_id ≡ some e
    → e.endpoint_id ≡ some p
    → 1 ≤ p
assigned-positive s e p w g q =
    let h = w.assigned e.export_id e g in
    let r : some h.id ≡ some p = sym h.assigned ∙ q in let positive = h.positive in ground arith

-- Every enabled export of a bridged type in a well-formed catalog has a slot after `set_exports`,
-- whatever the plane was before: the slot is found under the export's id, serves the Matter
-- endpoint one above the export's, holds the export, and has the state of the slot that the export
-- had before, if there was one, as `rebuild_kind` carries it over. The endpoint 65535 has none
-- above it and is excluded.
pub set_exports-Bridges :
    (random : Uuid → Versions) (s : CatalogStore) (plane : ExportPlane) (e : Export) (p : ℕ)
    → IsWellFormed s
    → Map.get e.export_id s.by_id ≡ some e
    → is_matter_bridged_export e ≡ true
    → e.endpoint_id ≡ some p
    → p < endpoint_max
    → Bridges e (p + 1) (slot_for e.export_id plane.slots) (set_exports random (list s) plane).slots
unfolding set_exports list
set_exports-Bridges random s plane e p w g bridged q hi =
    build_slots-Bridges random plane.slots e p q (assigned-positive s e p w g q) hi
      (sort_by_key (filter is_matter_bridged_export (Map.values s.by_id))) []
      (Mem-sort_by_key _ e
        (Mem-filter is_matter_bridged_export _ e (get-values s.by_id e.export_id e g) bridged))
      alone refl
  where
    found :
        (d : Export)
        → Memᴰ d (sort_by_key (filter is_matter_bridged_export (Map.values s.by_id)))
        → (k : ℕ) × (Map.get k s.by_id ≡ some d)
    found d m =
        values-get s.by_id d w.sorted
          (filter-Mem is_matter_bridged_export _ d (sort_by_key-Mem _ d m))

    alone : IsAlone e p (sort_by_key (filter is_matter_bridged_export (Map.values s.by_id)))
    alone = record {
      by_id =
          λ d m i. let (k, gd) = found d m in same_entry s k d e gd g (sym (w.keyed k d gd) ∙ i);
      by_endpoint = λ d m j.
          let (k, gd) = found d m in
          same_entry s k d e gd g (w.distinct k e.export_id d e p gd g j q);
    }
