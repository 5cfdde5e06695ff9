-- ===== src/Catalog/Alloc/Free.antt =====
-- A free endpoint id exists below the limit: the numbers of an interval that a list contains are
-- at most as many as the list is long.
use thatsmatter.Base.{
  ℕ, zero, suc, ◌+◌, ◌≤◌, ◌<◌, ◌≡◌, refl, false, List, [], ◌∷◌, arith, ◌==◌, ◌||◌, if◌then◌else◌,
  contains, length, Bool-cases, inl, inr,
}
use thatsmatter.Catalog.Alloc.{set_insert, collect_set}

-- How many of the numbers a, …, a + n - 1 the list contains.
hits : List ℕ → ℕ → ℕ → ℕ
hits used a zero = 0
hits used a (suc n) = (if contains used (a + n) then 1 else 0) + hits used a n

hits-nil : (a n : ℕ) → hits [] a n ≡ 0
unfolding hits
hits-nil a zero = refl
hits-nil a (suc n) = omega (arith, hits-nil a n)

-- Past the interval's end one more element counts nowhere.
hits-cons_of_le :
    (x : ℕ) (used : List ℕ) (a n : ℕ) → a + n ≤ x → hits (x ∷ used) a n ≡ hits used a n
unfolding hits
hits-cons_of_le x used a zero h = refl
hits-cons_of_le x used a (suc n) h = ground (arith, hits-cons_of_le x used a n)

hits-cons-le : (x : ℕ) (used : List ℕ) (a n : ℕ) → hits (x ∷ used) a n ≤ suc (hits used a n)
unfolding hits
hits-cons-le x used a zero = omega arith
hits-cons-le x used a (suc n) = ground (arith, hits-cons-le x used a n, hits-cons_of_le x used a n)

hits-le-length : (used : List ℕ) (a n : ℕ) → hits used a n ≤ length used
hits-le-length [] a n = omega (arith, hits-nil a n)
hits-le-length (x ∷ used) a n = omega (arith, hits-cons-le x used a n, hits-le-length used a n)

-- An interval that is not all hits has a number that the list lacks.
free_of_hits :
    (used : List ℕ) (a n : ℕ)
    → hits used a n < n
    → (c : ℕ) × (a ≤ c) × (c < a + n) × (contains used c ≡ false)
unfolding hits
free_of_hits used a zero h = elim h [ ]
free_of_hits used a (suc n) h = elim (Bool-cases (contains used (a + n))) [
  | inl hit ↦
      let (c, lo, hi, free) = free_of_hits used a n (ground arith) in (c, lo, omega arith, free)
  | inr miss ↦ (a + n, omega arith, omega arith, miss)
]

-- A list shorter than the interval misses one of its numbers.
pub free_in_interval :
    (used : List ℕ) (a n : ℕ)
    → length used < n
    → (c : ℕ) × (a ≤ c) × (c < a + n) × (contains used c ≡ false)
free_in_interval used a n h = free_of_hits used a n (omega (arith, hits-le-length used a n))

contains-set_insert :
    (a : ℕ) (xs : List ℕ) (c : ℕ) → contains (set_insert a xs) c ≡ ((a == c) || contains xs c)
unfolding set_insert
contains-set_insert a [] c = refl
contains-set_insert a (x ∷ xs) c = ground (arith, contains-set_insert a xs c)

-- Collecting into a set keeps what is contained.
pub contains-collect_set : (xs : List ℕ) (c : ℕ) → contains (collect_set xs) c ≡ contains xs c
unfolding collect_set
contains-collect_set [] c = refl
contains-collect_set (x ∷ xs) c =
    ground (arith, contains-set_insert x (collect_set xs) c, contains-collect_set xs c)
