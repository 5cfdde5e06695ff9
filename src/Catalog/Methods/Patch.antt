-- ===== src/Catalog/Methods/Patch.antt =====
-- `patch` of bridge/src/catalog/store.rs, case by case.
use thatsmatter.Base.{
  ℕ, ◌+◌, ◌%◌, ◌≤◌, ◌≡◌, refl, Option, none, some, subst, arith, Result, err, Exec, inl, inr,
  Option-cases,
}
use thatsmatter.Base.Map
use thatsmatter.Base.Map.{get-insert}
use thatsmatter.Catalog.Model.{Uuid, Export}
use thatsmatter.Catalog.Alloc.{u16_max, u16_mod}
use thatsmatter.Catalog.Store.{
  CatalogError, endpoint_exhausted, CatalogStore, PatchExport, validate_name, validate_primary,
}
use thatsmatter.Catalog.Methods.{patch_fields, through, patch_found}
use thatsmatter.Catalog.Methods.Allocation.{
  exhausted, assigned, alloc_endpoint-Allocation, IsUnused,
}
use thatsmatter.Catalog.Methods.Invariant.{
  IsValidExport, IsWellFormed, len-pos, next-IsWellFormed, insert-IsWellFormed,
}

-- The fields that a patch leaves alone, whether it succeeds or not.
module _ (body : PatchExport) (q : Option ℕ) (e : Export) where
  id_fixed : (patch_fields body q e).1.export_id ≡ e.export_id
  unfolding patch_fields validate_name validate_primary
  id_fixed = ground arith

  pub endpoint_fixed :
      (p : ℕ) → e.endpoint_id ≡ some p → (patch_fields body q e).1.endpoint_id ≡ some p
  unfolding patch_fields validate_name validate_primary
  endpoint_fixed p h = ground arith

  pub endpoint_new :
      (p : ℕ) → e.endpoint_id ≡ none → (patch_fields body q e).1.endpoint_id ≡ some p → q ≡ some p
  unfolding patch_fields validate_name validate_primary
  endpoint_new p h g = ground arith

  patch_fields-IsValidExport : IsValidExport e → IsValidExport (patch_fields body q e).1
  unfolding patch_fields validate_name validate_primary
  patch_fields-IsValidExport v = elim (Option-cases body.name) [
    | inl n ↦ elim (Option-cases body.primary_entity_id) [
      | inl m ↦ ground arith
      | inr (t, m) ↦ ground (arith, len-pos t)
    ]
    | inr (u, n) ↦ elim (Option-cases body.primary_entity_id) [
      | inl m ↦ ground (arith, len-pos u)
      | inr (t, m) ↦ ground (arith, len-pos t, len-pos u)
    ]
  ]

-- Either nothing changed, for want of an endpoint id, or the fields were written through to the
-- entry. `q` is the endpoint that the patch brings: free, and none if the export has one.
pub data Patching (s : CatalogStore) (id : Uuid) (body : PatchExport) (e : Export)
    (r : Result CatalogError Export × CatalogStore) : Type 0 where
  unassigned : r ≡ (err endpoint_exhausted, s) → Patching s id body e r
  patched :
      (q : Option ℕ) (n : ℕ)
      → n ≤ u16_max
      → ((p : ℕ) → q ≡ some p → (e.endpoint_id ≡ none) × IsUnused s p)
      → r ≡ through id e (patch_fields body q) (record s { next_endpoint = n })
      → Patching s id body e r

-- With `next_endpoint` a `u16`, a patch of an export leaves the store as it was for want of an
-- endpoint, or writes the fields that it checked through to the entry; the endpoint that it brings
-- is free, and it brings none if the export has one.
pub patch_found-Patching :
    (s : CatalogStore) (id : Uuid) (body : PatchExport) (e : Export)
    → s.next_endpoint ≤ u16_max
    → Patching s id body e (patch_found id body (some e) s)
unfolding patch_found
patch_found-Patching s id body e fits = elim (Option-cases e.endpoint_id) [
  | inr (p, old) ↦ patched none s.next_endpoint fits (λ p q. cc) (rw old refl)
  | inl none_yet ↦ elim (alloc_endpoint-Allocation s fits) [
    | exhausted full a ↦ unassigned (rw (none_yet, a) refl)
    | assigned p lo hi free a ↦
        patched (some p) ((p + 1) % u16_mod) (omega arith)
          (λ p' q. (none_yet, subst (IsUnused s) (ground arith) free)) (rw (none_yet, a) refl)
  ]
]

through-store :
    (id : Uuid) (e : Export) (m : Exec Export CatalogError (Unit {0})) (s : CatalogStore)
    → (through id e m s).1 ≡ record s { by_id = Map.insert id (m e).1 s.by_id }
unfolding through
through-store id e m s = refl

pub patch_found-IsWellFormed :
    {s : CatalogStore} (id : Uuid) (body : PatchExport) (e : Export)
    → IsWellFormed s
    → Map.get id s.by_id ≡ some e
    → IsWellFormed (patch_found id body (some e) s).1
patch_found-IsWellFormed {s} id body e w g = elim (patch_found-Patching s id body e w.next_fits) [
  | unassigned r ↦ rw r w
  | patched q n fits fresh r ↦
      rw (r, through-store)
        (insert-IsWellFormed (next-IsWellFormed w n fits) id (patch_fields body q e).1
          (ground (arith, id_fixed body q e, w.keyed id e))
          (patch_fields-IsValidExport body q e (w.valid id e g))
          (let a = w.assigned id e g in
            record {
              id = a.id;
              assigned = endpoint_fixed body q e a.id a.assigned;
              positive = a.positive;
              fits = a.fits;
            })
          (λ j d p h k l. apart q fresh j d p h k l))
]
  where
    apart :
        (q : Option ℕ)
        → ((p : ℕ) → q ≡ some p → (e.endpoint_id ≡ none) × IsUnused s p)
        → (j : ℕ) (d : Export) (p : ℕ) → Map.get j s.by_id ≡ some d
        → d.endpoint_id ≡ some p
        → (patch_fields body q e).1.endpoint_id ≡ some p
        → j ≡ id
    apart q fresh j d p h k l = elim (Option-cases e.endpoint_id) [
      | inr (o, old) ↦ w.distinct j id d e p h g k (ground (arith, endpoint_fixed body q e o))
      | inl none_yet ↦ absurd ((fresh p (endpoint_new body q e p none_yet l)).1 j d h k)
    ]
