-- ===== src/Base/Map.antt =====
-- `BTreeMap<K, V>` with a numeric key, as the list of its entries in key order, and
-- `BTreeSet<u16>`, as the list of its elements in order.
pub mod Order
pub mod Entries
use Prim.Native.Nat.{ℕ, ◌≤◌, ◌<◌}
use mathlib.Core.Path.{◌≡◌, refl}
use mathlib.Core.Logic.{◌≢◌}
use mathlib.Core.Bool.{Bool, true, false}
use mathlib.Core.Option.{Option, none, some}
use mathlib.Core.List.{List, [], ◌∷◌}
use native.Mathlib.Omega.{arith}
use thatsmatter.Base.Tests.{ltb, ◌==◌, if◌then◌else◌}

module _ {ℓ} {V : Type ℓ} where
  unfoldable pub get : ℕ → List (ℕ × V) → Option V
  get k [] = none
  get k ((j, v) ∷ m) = if j == k then some v else get k m

  unfoldable pub insert : ℕ → V → List (ℕ × V) → List (ℕ × V)
  insert k v [] = (k, v) ∷ []
  insert k v ((j, w) ∷ m) =
      let rest = insert k v m in
      if ltb k j then (k, v) ∷ (j, w) ∷ m else if j == k then (k, v) ∷ m else (j, w) ∷ rest

  unfoldable pub remove : ℕ → List (ℕ × V) → List (ℕ × V)
  remove k [] = []
  remove k ((j, v) ∷ m) = let rest = remove k m in if j == k then rest else (j, v) ∷ rest

  unfoldable pub values : List (ℕ × V) → List V
  values [] = []
  values ((j, v) ∷ m) = v ∷ values m

  abbrev pub contains_key : ℕ → List (ℕ × V) → Bool
  contains_key k m = elim (get k m) [ none ↦ false | some _ ↦ true ]

  pub get-insert :
      (k j : ℕ) (v : V) (m : List (ℕ × V))
      → get j (insert k v m) ≡ (if k == j then some v else get j m)
  unfolding get insert
  get-insert k j v [] = refl
  get-insert k j v ((i, w) ∷ m) = ground (arith, get-insert k j v m)

  pub get-remove :
      (k j : ℕ) (m : List (ℕ × V)) → get j (remove k m) ≡ (if k == j then none else get j m)
  unfolding get remove
  get-remove k j [] = ground arith
  get-remove k j ((i, w) ∷ m) = ground (arith, get-remove k j m)

  pub get-insert_ne : (k j : ℕ) (v : V) (m : List (ℕ × V)) → k ≢ j → get j (insert k v m) ≡ get j m
  get-insert_ne k j v m far = ground (arith, get-insert k j v m)

  pub get-insert_self : (k : ℕ) (v : V) (m : List (ℕ × V)) → get k (insert k v m) ≡ some v
  get-insert_self k v m = ground (arith, get-insert k k v m)

  pub get-remove_ne : (k j : ℕ) (m : List (ℕ × V)) → k ≢ j → get j (remove k m) ≡ get j m
  get-remove_ne k j m far = ground (arith, get-remove k j m)

  -- The keys rise strictly: every key of the map is above `lo`, which is `none` at the front.
  abbrev pub Above : ℕ → List (ℕ × V) → Type 0
  Above lo [] = Unit
  Above lo ((j, v) ∷ m) = (lo < j) × Above j m

  abbrev pub IsSorted : List (ℕ × V) → Type 0
  IsSorted [] = Unit
  IsSorted ((j, v) ∷ m) = Above j m

  Above-insert :
      (lo k : ℕ) (v : V) (m : List (ℕ × V)) → lo < k → Above lo m → Above lo (insert k v m)
  unfolding insert
  Above-insert lo k v [] h a = (h, tt)
  Above-insert lo k v ((j, w) ∷ m) h a = ground (arith, Above-insert j k v m)

  pub insert-IsSorted : (k : ℕ) (v : V) (m : List (ℕ × V)) → IsSorted m → IsSorted (insert k v m)
  unfolding insert
  insert-IsSorted k v [] s = tt
  insert-IsSorted k v ((j, w) ∷ m) s = ground (arith, Above-insert j k v m)

  Above-lower : (lo j : ℕ) (m : List (ℕ × V)) → lo ≤ j → Above j m → Above lo m
  Above-lower lo j [] h a = tt
  Above-lower lo j ((i, w) ∷ m) h a = (omega arith, a.1)

  Above-remove : (lo k : ℕ) (m : List (ℕ × V)) → Above lo m → Above lo (remove k m)
  unfolding remove
  Above-remove lo k [] a = tt
  Above-remove lo k ((j, w) ∷ m) a =
      ground (arith, Above-remove j k m, Above-lower lo j (remove k m))

  pub remove-IsSorted : (k : ℕ) (m : List (ℕ × V)) → IsSorted m → IsSorted (remove k m)
  unfolding remove
  remove-IsSorted k [] s = tt
  remove-IsSorted k ((j, w) ∷ m) s =
      ground (arith, Above-remove j k m, sorted_of_above j (remove k m))
    where
      sorted_of_above : (j : ℕ) (m : List (ℕ × V)) → Above j m → IsSorted m
      sorted_of_above j [] a = tt
      sorted_of_above j ((i, w) ∷ m) a = a.1

pub ruleset map_laws = (get-insert, get-remove)
