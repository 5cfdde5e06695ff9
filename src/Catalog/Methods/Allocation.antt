-- ===== src/Catalog/Methods/Allocation.antt =====
-- What `alloc_endpoint` of bridge/src/catalog/store.rs does on a whole store.
use thatsmatter.Base.{
  ℕ, ◌+◌, ◌%◌, ◌≤◌, ◌≡◌, refl, true, false, List, [], ◌∷◌, Option, none, some, arith, ltb, length,
  contains, filter_map, Result, ok, err, Bool-cases, inl, inr, ◌≢◌,
}
use thatsmatter.Base.Map
use thatsmatter.Catalog.Model.{Export}
use thatsmatter.Catalog.Alloc.{u16_max, u16_mod, set_insert, collect_set, alloc_search}
use thatsmatter.Catalog.Alloc.Free.{contains-collect_set}
use thatsmatter.Catalog.Alloc.Total.{alloc_search-IsFound}
use thatsmatter.Catalog.Store.{
  CatalogError, endpoint_exhausted, CatalogStore, used_endpoints, alloc_endpoint,
}

-- No export of the store has the endpoint.
abbrev pub IsUnused : CatalogStore → ℕ → Type 0
IsUnused s p = (k : ℕ) (e : Export) → Map.get k s.by_id ≡ some e → e.endpoint_id ≢ some p

-- How an allocation ends: the error, with nothing changed, when there are enough exports to take
-- every id; otherwise an assignable id that no export has, with `next_endpoint` one past it, modulo
-- 2^16.
pub data Allocation (s : CatalogStore) (r : Result CatalogError ℕ × CatalogStore) : Type 0 where
  exhausted :
      u16_max ≤ length (Map.values s.by_id) → r ≡ (err endpoint_exhausted, s) → Allocation s r
  assigned :
      (p : ℕ)
      → 1 ≤ p
      → p ≤ u16_max
      → IsUnused s p
      → r ≡ (ok p, record s { next_endpoint = (p + 1) % u16_mod })
      → Allocation s r

search_exhausted :
    (next : ℕ) (used : List ℕ) → u16_max ≤ length used → alloc_search next used ≡ none
unfolding alloc_search
search_exhausted next used h = ground arith

contains_endpoint :
    (m : List (ℕ × Export)) (k : ℕ) (e : Export) (p : ℕ)
    → Map.get k m ≡ some e
    → e.endpoint_id ≡ some p
    → contains (filter_map (λ x. x.endpoint_id) (Map.values m)) p ≡ true
unfolding Map.get Map.values
contains_endpoint [] k e p g q = cc
contains_endpoint ((j, x) ∷ m) k e p g q = ground (arith, contains_endpoint m k e p)

-- An id that the store does not use is no export's endpoint.
free-IsUnused : (s : CatalogStore) (p : ℕ) → contains (used_endpoints s) p ≡ false → IsUnused s p
unfolding used_endpoints
free-IsUnused s p free k e g q = ground (
  arith,
  contains_endpoint s.by_id k e p,
  contains-collect_set (filter_map (λ (x : Export). x.endpoint_id) (Map.values s.by_id)) p,
)

length-set_insert : (a : ℕ) (xs : List ℕ) → length (set_insert a xs) ≤ length xs + 1
unfolding set_insert
length-set_insert a [] = omega arith
length-set_insert a (x ∷ xs) = ground (arith, length-set_insert a xs)

length-collect_set : (xs : List ℕ) → length (collect_set xs) ≤ length xs
unfolding collect_set
length-collect_set [] = omega arith
length-collect_set (x ∷ xs) =
    omega (arith, length-set_insert x (collect_set xs), length-collect_set xs)

length-filter_map :
    {A B : Type 0} (f : A → Option B) (xs : List A) → length (filter_map f xs) ≤ length xs
length-filter_map f [] = omega arith
length-filter_map f (x ∷ xs) = ground (arith, length-filter_map f xs)

-- There are no more endpoints in use than exports.
length-used_endpoints : (s : CatalogStore) → length (used_endpoints s) ≤ length (Map.values s.by_id)
unfolding used_endpoints
length-used_endpoints s = omega (
  arith,
  length-collect_set (filter_map (λ (x : Export). x.endpoint_id) (Map.values s.by_id)),
  length-filter_map (λ (x : Export). x.endpoint_id) (Map.values s.by_id),
)

-- With `next_endpoint` a `u16`, `alloc_endpoint` ends: it returns an id of 1 to 65535 that no export
-- has, and goes on from the one after it, or it fails and changes nothing, which happens only if
-- there are at least 65535 exports.
pub alloc_endpoint-Allocation :
    (s : CatalogStore) → s.next_endpoint ≤ u16_max → Allocation s (alloc_endpoint s)
unfolding alloc_endpoint
alloc_endpoint-Allocation s fits = elim (Bool-cases (ltb (length (used_endpoints s)) u16_max)) [
  | inl room ↦
      let (r, searched, found) =
        alloc_search-IsFound s.next_endpoint (used_endpoints s) (ground arith) fits in
      assigned found.candidate found.positive found.fits
        (free-IsUnused s found.candidate found.free) (rw (searched, found.found, found.after) refl)
  | inr full ↦
      exhausted (ground (arith, length-used_endpoints s))
        (rw (search_exhausted s.next_endpoint (used_endpoints s) (ground arith)) refl)
]
