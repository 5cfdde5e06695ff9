-- ===== src/Base/Lists.antt =====
-- Lists with native lengths, and what Rust's iterators do on them.
use Prim.Native.Nat.{ℕ, suc, ◌+◌}
use mathlib.Core.Path.{◌≡◌, refl}
use mathlib.Core.Bool.{Bool, true, false, ◌&&◌, ◌||◌}
use mathlib.Core.Option.{Option, none, some}
use mathlib.Core.List.{List, [], ◌∷◌, ◌++◌}
use native.Mathlib.Omega.{arith}
use thatsmatter.Base.Tests.{◌==◌, if◌then◌else◌}

module _ {ℓ} {A : Type ℓ} where
  abbrev pub length : List A → ℕ
  length [] = 0
  length (x ∷ xs) = suc (length xs)

  -- `iter().any(p)`, `iter().filter(p)` and `iter().find(p)`.
  abbrev pub any : (A → Bool) → List A → Bool
  any p [] = false
  any p (x ∷ xs) = p x || any p xs

  abbrev pub all : (A → Bool) → List A → Bool
  all p [] = true
  all p (x ∷ xs) = p x && all p xs

  abbrev pub filter : (A → Bool) → List A → List A
  filter p [] = []
  filter p (x ∷ xs) = if p x then x ∷ filter p xs else filter p xs

  abbrev pub find : (A → Bool) → List A → Option A
  find p [] = none
  find p (x ∷ xs) = if p x then some x else find p xs

  -- A predicate that holds of every element.
  abbrev pub All {κ} : (A → Type κ) → List A → Type κ
  All P [] = Unit
  All P (x ∷ xs) = P x × All P xs

  pub length-append : (xs ys : List A) → length (xs ++ ys) ≡ length xs + length ys
  length-append [] ys = omega arith
  length-append (x ∷ xs) ys = omega (arith, length-append xs ys)

  -- What `find` returns satisfies the test.
  pub find-test : (p : A → Bool) (xs : List A) (a : A) → find p xs ≡ some a → p a ≡ true
  find-test p [] a h = ground arith
  find-test p (x ∷ xs) a h = ground (arith, find-test p xs a)

module _ {ℓ κ} {A : Type ℓ} {B : Type κ} where
  -- `iter().filter_map(f)`.
  abbrev pub filter_map : (A → Option B) → List A → List B
  filter_map f [] = []
  filter_map f (x ∷ xs) = elim (f x) [ none ↦ filter_map f xs | some b ↦ b ∷ filter_map f xs ]

  pub filter_map_snoc :
      (f : A → Option B) (xs : List A) (x : A) (b : B)
      → f x ≡ some b
      → filter_map f (xs ++ x ∷ []) ≡ filter_map f xs ++ b ∷ []
  filter_map_snoc f [] x b h = rw h refl
  filter_map_snoc f (y ∷ xs) x b h = ground (arith, filter_map_snoc f xs x b h)

-- `contains` on a list of numbers.
abbrev pub contains : List ℕ → ℕ → Bool
contains [] a = false
contains (x ∷ xs) a = (x == a) || contains xs a
