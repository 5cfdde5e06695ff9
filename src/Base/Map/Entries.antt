-- ===== src/Base/Map/Entries.antt =====
-- The values of a map in key order are what lookups find.
use Prim.Native.Nat.{ℕ}
use mathlib.Core.Path.{◌≡◌}
use mathlib.Core.Logic.{inl, inr}
use mathlib.Core.Option.{some}
use mathlib.Core.List.{List, [], ◌∷◌, Memᴰ}
use mathlib.Core.List.Memᴰ
use mathlib.Core.List.Memᴰ.{head, tail}
use native.Mathlib.Omega.{arith}
use thatsmatter.Base.Tests.{◌==◌, Bool-cases}
use thatsmatter.Base.Map.{get, values, IsSorted}
use thatsmatter.Base.Map.Order.{Above-get, IsSorted-tail}

module _ {V : Type 0} where
  pub values-get :
      (m : List (ℕ × V)) (d : V) → IsSorted m → Memᴰ d (values m) → (k : ℕ) × (get k m ≡ some d)
  unfolding get values
  values-get [] d s n = absurd (Memᴰ.not-nil n)
  values-get ((j, v) ∷ m) d s n = elim (Memᴰ.cases_cons n) [
    | inl e ↦ (j, ground arith)
    | inr t ↦
        let (k, g) = values-get m d (IsSorted-tail j v m s) t in
        (k, ground (arith, Above-get j k d m s g))
  ]

  pub get-values : (m : List (ℕ × V)) (k : ℕ) (d : V) → get k m ≡ some d → Memᴰ d (values m)
  unfolding get values
  get-values [] k d g = absurd (ground arith)
  get-values ((j, v) ∷ m) k d g = elim (Bool-cases (j == k)) [
    | inl t ↦ head (ground arith)
    | inr f ↦ tail (get-values m k d (ground arith))
  ]
