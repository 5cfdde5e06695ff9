-- ===== src/Catalog/Methods/Create.antt =====
-- `create` of bridge/src/catalog/store.rs, case by case.
use thatsmatter.Base.{
  ℕ, ◌+◌, ◌%◌, ◌≤◌, ◌≡◌, refl, none, some, arith, Result, ok, err, inl, inr, Option-cases,
  Result-cases,
}
use thatsmatter.Base.Map
use thatsmatter.Base.Map.{get-insert}
use thatsmatter.Catalog.Model.{Uuid, Export}
use thatsmatter.Catalog.Alloc.{u16_max, u16_mod}
use thatsmatter.Catalog.Store.{
  CatalogError, invalid, already_exists, endpoint_exhausted, CatalogStore, CreateExport, put,
  validate_export_fields,
}
use thatsmatter.Catalog.Methods.{create_store, unwrap_or}
use thatsmatter.Catalog.Methods.Allocation.{
  exhausted, assigned, alloc_endpoint-Allocation, IsUnused,
}
use thatsmatter.Catalog.Methods.Invariant.{
  IsWellFormed, validate-IsValidExport, next-IsWellFormed, insert-IsWellFormed,
}

-- The export that a body asks for.
abbrev pub new_export : CreateExport → Uuid → ℕ → Export
new_export body id p = record {
  export_id = id;
  name = body.name;
  type_ = body.type_;
  primary_entity_id = body.primary_entity_id;
  linked = body.linked;
  area_id = body.area_id;
  enabled = body.enabled;
  endpoint_id = some p;
}

-- Either the store is as it was, or the export is in it under a new id, with an endpoint that was
-- free.
pub data Creation (s : CatalogStore) (body : CreateExport) (id : Uuid)
    (r : Result CatalogError Export × CatalogStore) : Type 0 where
  refused : (x : CatalogError) → r ≡ (err x, s) → Creation s body id r
  created :
      (p : ℕ)
      → validate_export_fields body.name body.primary_entity_id ≡ ok tt
      → Map.get id s.by_id ≡ none
      → 1 ≤ p
      → p ≤ u16_max
      → IsUnused s p
      → r ≡ (
        ok (new_export body id p),
        put (new_export body id p) (record s { next_endpoint = (p + 1) % u16_mod }),
      )
      → Creation s body id r

-- With `next_endpoint` a `u16`, a creation is refused with the store as it was, or puts the export
-- that the body describes under its id, which was new, with an endpoint of 1 to 65535 that no
-- export had.
pub create_store-Creation :
    (s : CatalogStore) (body : CreateExport) (fresh : Uuid)
    → s.next_endpoint ≤ u16_max
    → Creation s body (unwrap_or body.export_id fresh) (create_store body fresh s)
unfolding create_store Map.get
create_store-Creation s body fresh fits =
    elim (Result-cases (validate_export_fields body.name body.primary_entity_id)) [
      | inr (x, bad) ↦ refused x (rw bad refl)
      | inl (_, good) ↦ elim (Option-cases (Map.get id s.by_id)) [
        | inr (e, old) ↦ refused (invalid (already_exists id)) (rw (good, old) refl)
        | inl new ↦ elim (alloc_endpoint-Allocation s fits) [
          | exhausted full e ↦ refused endpoint_exhausted (rw (good, new, e) refl)
          | assigned p lo hi free e ↦ created p good new lo hi free (rw (good, new, e) refl)
        ]
      ]
    ]
  where
    id : Uuid
    id = unwrap_or body.export_id fresh

pub create_store-IsWellFormed :
    {s : CatalogStore} (body : CreateExport) (fresh : Uuid)
    → IsWellFormed s
    → IsWellFormed (create_store body fresh s).1
create_store-IsWellFormed {s} body fresh w = elim (create_store-Creation s body fresh w.next_fits) [
  | refused x e ↦ rw e w
  | created p good new lo hi free e ↦ rw e (
      insert-IsWellFormed (next-IsWellFormed w ((p + 1) % u16_mod) (omega arith)) _ _ refl
        (validate-IsValidExport _ good)
        (record { id = p; assigned = refl; positive = lo; fits = hi })
        (λ j d q g h k. absurd (free j d g (ground arith))))
]
