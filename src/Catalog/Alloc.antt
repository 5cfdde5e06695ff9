-- ===== src/Catalog/Alloc.antt =====
-- `alloc_endpoint` of bridge/src/catalog/store.rs: the search for a free endpoint id.
pub mod Free
pub mod Total
use thatsmatter.Base.{
  ℕ, zero, suc, ◌+◌, ◌%◌, ◌≡◌, refl, Bool, true, false, List, [], ◌∷◌, Option, none, some, arith,
  ltb, leb, ◌==◌, if◌then◌else◌, contains, length,
}

-- A `u16` counts modulo this.
abbrev pub u16_mod : ℕ
u16_mod = 65536

abbrev pub u16_max : ℕ
u16_max = 65535

abbrev pub first_endpoint_id : ℕ
first_endpoint_id = 1

-- `BTreeSet<u16>`: insertion in order, and `collect()`.
unfoldable pub set_insert : ℕ → List ℕ → List ℕ
set_insert a [] = a ∷ []
set_insert a (x ∷ xs) =
    let rest = set_insert a xs in
    if ltb a x then a ∷ x ∷ xs else if x == a then x ∷ xs else x ∷ rest

unfoldable pub collect_set : List ℕ → List ℕ
collect_set [] = []
collect_set (x ∷ xs) = set_insert x (collect_set xs)

-- The loop, with fuel: the candidate that it returns and the new `next_endpoint`. `none` means
-- that the fuel ran out.
unfoldable pub alloc_loop : ℕ → ℕ → List ℕ → Option (ℕ × ℕ)
alloc_loop zero next_endpoint used = none
alloc_loop (suc fuel) next_endpoint used =
    let candidate = if next_endpoint == 0 then first_endpoint_id else next_endpoint in
    let next = (candidate + 1) % u16_mod in
    let rest = alloc_loop fuel next used in
    if contains used candidate then rest else some (candidate, next)

-- One round for each `u16`.
unfoldable pub alloc_fuel : ℕ
alloc_fuel = u16_mod

-- The result of the search, before the error: `none` is `EndpointExhausted`, `some none` is a
-- search that did not end.
unfoldable pub alloc_search : ℕ → List ℕ → Option (Option (ℕ × ℕ))
alloc_search next_endpoint used =
    if leb u16_max (length used) then none else some (alloc_loop alloc_fuel next_endpoint used)
