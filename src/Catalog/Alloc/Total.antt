-- ===== src/Catalog/Alloc/Total.antt =====
-- The search of `alloc_endpoint` of bridge/src/catalog/store.rs within its fuel.
use thatsmatter.Base.{
  ℕ, zero, suc, ◌+◌, ◌-◌, ◌%◌, ◌≤◌, ◌<◌, ◌≡◌, refl, false, List, Option, some, arith, ◌==◌, leb,
  if◌then◌else◌, contains, length, Bool-cases, inl, inr,
}
use thatsmatter.Catalog.Alloc.{u16_max, u16_mod, alloc_loop, alloc_fuel, alloc_search}
use thatsmatter.Catalog.Alloc.Free.{free_in_interval}

-- The rounds before the search that starts at `next` comes to `c`.
distance : ℕ → ℕ → ℕ
distance next c = if next == 0 then c - 1 else if leb next c then c - next else u16_max - next + c

distance-lt-alloc_fuel :
    (next c : ℕ) → 1 ≤ c → c ≤ u16_max → next ≤ u16_max → distance next c < alloc_fuel
unfolding distance alloc_fuel
distance-lt-alloc_fuel next c lo hi n = ground arith

-- What a search that has ended shows.
pub record IsFound (used : List ℕ) (r : Option (ℕ × ℕ)) : Type 0 where
  pub candidate : ℕ
  pub next : ℕ
  pub found : r ≡ some (candidate, next)
  pub positive : 1 ≤ candidate
  pub fits : candidate ≤ u16_max
  pub free : contains used candidate ≡ false
  pub after : next ≡ (candidate + 1) % u16_mod

alloc_loop-IsFound :
    (fuel next : ℕ) (used : List ℕ) (c : ℕ)
    → contains used c ≡ false
    → 1 ≤ c
    → c ≤ u16_max
    → next ≤ u16_max
    → distance next c < fuel
    → IsFound used (alloc_loop fuel next used)
unfolding alloc_loop distance
alloc_loop-IsFound zero next used c free lo hi n h = elim h [ ]
alloc_loop-IsFound (suc fuel) next used c free lo hi n h =
    let candidate : ℕ = if next == 0 then 1 else next in
    elim (Bool-cases (contains used candidate)) [
      | inl hit ↦ rw hit (
          alloc_loop-IsFound fuel ((candidate + 1) % u16_mod) used c free lo hi (ground arith)
            (ground arith))
      | inr miss ↦ rw miss (record {
        candidate = candidate;
        next = (candidate + 1) % u16_mod;
        found = refl;
        positive = ground arith;
        fits = ground arith;
        free = miss;
        after = refl;
      })
    ]

-- Below the limit the search ends: some id of 1 to 65535 is free, and the loop, which goes round
-- all of them, returns a free one.
pub alloc_search-IsFound :
    (next : ℕ) (used : List ℕ)
    → length used < u16_max
    → next ≤ u16_max
    → (r : Option (ℕ × ℕ)) × (alloc_search next used ≡ some r) × IsFound used r
unfolding alloc_search
alloc_search-IsFound next used room fits = (alloc_loop alloc_fuel next used, ground arith, found)
  where
    found : IsFound used (alloc_loop alloc_fuel next used)
    found =
        let (c, lo, hi, free) = free_in_interval used 1 u16_max room in
        alloc_loop-IsFound alloc_fuel next used c free lo (omega arith) fits
          (distance-lt-alloc_fuel next c lo (omega arith) fits)
