-- ===== src/Matter/Plane/Layout.antt =====
-- The endpoints of the node that `set_exports` of bridge/src/matter/export_plane.rs builds.
use thatsmatter.Base.{
  ℕ, ◌+◌, ◌≤◌, ◌<◌, ◌≡◌, refl, true, false, List, [], ◌∷◌, Option, none, some, arith, filter,
  contains, Option-cases, inl, inr, ◌⊎◌,
}
use thatsmatter.Catalog.Model.{Uuid, Export}
use thatsmatter.Matter.OnOffMap.{is_matter_bridged_export}
use thatsmatter.Matter.Slot.{Versions, ExportSlot, same_surface}
use thatsmatter.Matter.Rebuild.{rebuild, rebuild_identity}
use thatsmatter.Matter.Plane.{
  ExportPlane, sort_key, insert_by_key, sort_by_key, usable_endpoint, build_slots, rebuilt_slots,
  set_exports, endpoint_max, slot_for, same_surfaces,
}

-- Keys from `k` on that never fall.
abbrev KeysFrom : ℕ → List Export → Type 0
KeysFrom k [] = Unit
KeysFrom k (e ∷ es) = (k ≤ sort_key e) × KeysFrom (sort_key e) es

KeysFrom-lower : (j k : ℕ) (es : List Export) → j ≤ k → KeysFrom k es → KeysFrom j es
KeysFrom-lower j k [] h s = tt
KeysFrom-lower j k (e ∷ es) h s = (omega arith, s.1)

insert_by_key-KeysFrom :
    (k : ℕ) (e : Export) (es : List Export)
    → k ≤ sort_key e
    → KeysFrom k es
    → KeysFrom k (insert_by_key e es)
unfolding insert_by_key
insert_by_key-KeysFrom k e [] h s = (h, tt)
insert_by_key-KeysFrom k e (x ∷ es) h s = ground (arith, insert_by_key-KeysFrom (sort_key x) e es)

sort_by_key-KeysFrom : (es : List Export) → KeysFrom 0 (sort_by_key es)
unfolding sort_by_key
sort_by_key-KeysFrom [] = tt
sort_by_key-KeysFrom (e ∷ es) =
    insert_by_key-KeysFrom 0 e (sort_by_key es) (omega arith) (sort_by_key-KeysFrom es)

-- What makes an endpoint usable.
usable_endpoint-eq-some :
    (e : Export) (taken : List ℕ) (m : ℕ)
    → usable_endpoint e taken ≡ some m
    → (m ≡ sort_key e + 1) × (2 ≤ m) × (m ≤ endpoint_max) × (contains taken m ≡ false)
unfolding usable_endpoint
usable_endpoint-eq-some e taken m h = ground arith

-- Endpoints that rise strictly from above `lo`, all of 16 bits.
abbrev pub Rising : ℕ → List ExportSlot → Type 0
Rising lo [] = Unit
Rising lo (s ∷ slots) =
    (lo < s.matter_endpoint) × (s.matter_endpoint ≤ endpoint_max) × Rising s.matter_endpoint slots

module _ (random : Uuid → Versions) (previous : List ExportSlot) where
  pub build_slots-skip :
      (e : Export) (es : List Export) (taken : List ℕ)
      → usable_endpoint e taken ≡ none
      → build_slots random previous (e ∷ es) taken ≡ build_slots random previous es taken
  unfolding build_slots
  build_slots-skip e es taken skip = rw (skip, build_slots) refl

  pub build_slots-use :
      (e : Export) (es : List Export) (taken : List ℕ) (m : ℕ)
      → usable_endpoint e taken ≡ some m
      → build_slots random previous (e ∷ es) taken
        ≡ rebuild e m (slot_for e.export_id previous) (random e.export_id)
          ∷ build_slots random previous es (m ∷ taken)
  unfolding build_slots
  build_slots-use e es taken m use_ = rw (use_, build_slots) refl

  pub build_slots-nil : (taken : List ℕ) → build_slots random previous [] taken ≡ []
  unfolding build_slots
  build_slots-nil taken = refl

  build_slots-Rising :
      (es : List Export) (taken : List ℕ) (lo k : ℕ)
      → KeysFrom k es
      → lo ≤ k + 1
      → ((contains taken lo ≡ true) ⊎ (lo ≤ 1))
      → Rising lo (build_slots random previous es taken)
  build_slots-Rising [] taken lo k s h t = rw build_slots-nil tt
  build_slots-Rising (e ∷ es) taken lo k s h t = elim (Option-cases (usable_endpoint e taken)) [
    | inl skip ↦
        rw (build_slots-skip e es taken skip)
          (build_slots-Rising es taken lo (sort_key e) s.1 (omega arith) t)
    | inr (m, use_) ↦
        let (key, above, fits, free) = usable_endpoint-eq-some e taken m use_ in
        let ep = (rebuild_identity e m (slot_for e.export_id previous) (random e.export_id)).1 in
        rw (build_slots-use e es taken m use_, ep)
          (
            ground arith,
            fits,
            build_slots-Rising es (m ∷ taken) m (sort_key e) s.1 (omega arith) (inl (ground arith)),
          )
  ]

-- After `set_exports`, whatever the exports and whatever the plane was, the slots' endpoints rise
-- strictly from 2 on and are 16-bit numbers: no two slots share an endpoint, none takes that of the
-- root or of the aggregator, and the slots are sorted as the binary search of `slot_at` needs.
pub set_exports-Rising :
    (random : Uuid → Versions) (exports : List Export) (plane : ExportPlane)
    → Rising 1 (set_exports random exports plane).slots
unfolding set_exports
set_exports-Rising random exports plane =
    build_slots-Rising random plane.slots (sort_by_key (filter is_matter_bridged_export exports)) []
      1 0 (sort_by_key-KeysFrom (filter is_matter_bridged_export exports)) (omega arith)
      (inr (omega arith))

same_surface-rebuild :
    (e : Export) (m : ℕ) (p p' : Option ExportSlot) (r r' : Versions)
    → same_surface (rebuild e m p r) (rebuild e m p' r') ≡ true
unfolding same_surface
same_surface-rebuild e m p p' r r' =
    ground (arith, rebuild_identity e m p r, rebuild_identity e m p' r')

-- Two rebuilds from the same exports have the same surfaces, whatever they carry over.
build_same :
    (random random' : Uuid → Versions) (previous previous' : List ExportSlot) (es : List Export)
    (taken : List ℕ)
    → same_surfaces (build_slots random previous es taken) (build_slots random' previous' es taken)
      ≡ true
unfolding same_surfaces
build_same random random' previous previous' [] taken =
    rw (build_slots-nil random previous taken, build_slots-nil random' previous' taken) refl
build_same random random' previous previous' (e ∷ es) taken =
    elim (Option-cases (usable_endpoint e taken)) [
      | inl skip ↦
          rw
            (
              build_slots-skip random previous e es taken skip,
              build_slots-skip random' previous' e es taken skip,
            )
            (build_same random random' previous previous' es taken)
      | inr (m, use_) ↦
          rw
            (
              build_slots-use random previous e es taken m use_,
              build_slots-use random' previous' e es taken m use_,
              same_surface-rebuild,
              build_same random random' previous previous' es (m ∷ taken),
            )
            refl
    ]

rebuilt_same :
    (random random' : Uuid → Versions) (exports : List Export)
    (previous previous' : List ExportSlot)
    → same_surfaces
        (rebuilt_slots random exports previous)
        (rebuilt_slots random' exports previous')
      ≡ true
unfolding rebuilt_slots
rebuilt_same random random' exports previous previous' =
    build_same random random' previous previous'
      (sort_by_key (filter is_matter_bridged_export exports)) []

-- Setting the same exports again asks for no new configuration version and moves no version of the
-- aggregator.
set_exports_idem :
    (random random' : Uuid → Versions) (exports : List Export) (plane : ExportPlane)
    → ((set_exports random' exports (set_exports random exports plane)).config_requested
        ≡ (set_exports random exports plane).config_requested)
      × ((set_exports random' exports (set_exports random exports plane)).aggregator_dataver
          ≡ (set_exports random exports plane).aggregator_dataver)
unfolding set_exports
set_exports_idem random random' exports plane = rw rebuilt_same (refl, refl)
