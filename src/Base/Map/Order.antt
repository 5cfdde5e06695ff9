-- ===== src/Base/Map/Order.antt =====
-- Maps in key order: what holds of every lookup holds of every entry, and entries inserted in
-- order come out as they were.
use thatsmatter.Base.Lists.{All}
use thatsmatter.Base.Map.{get, insert, Above, IsSorted}
use Prim.Native.Nat.{ℕ, ◌<◌}
use mathlib.Core.Path.{◌≡◌, refl}
use mathlib.Core.Option.{some}
use mathlib.Core.List.{List, [], ◌∷◌, ◌++◌}
use native.Mathlib.Omega.{arith}

module _ {V : Type 0} where
  pub Above-get : (lo j : ℕ) (x : V) (m : List (ℕ × V)) → Above lo m → get j m ≡ some x → lo < j
  unfolding get
  Above-get lo j x [] a g = absurd (ground arith)
  Above-get lo j x ((i, w) ∷ m) a g = ground (arith, Above-get i j x m)

  pub IsSorted-tail : (k : ℕ) (v : V) (m : List (ℕ × V)) → IsSorted ((k, v) ∷ m) → IsSorted m
  IsSorted-tail k v [] s = tt
  IsSorted-tail k v ((j, w) ∷ m) s = s.1

  -- What holds of every lookup holds of every entry.
  pub All-entries :
      (P : ℕ → V → Type 0) (m : List (ℕ × V))
      → IsSorted m
      → ((k : ℕ) (v : V) → get k m ≡ some v → P k v)
      → All (λ (x : ℕ × V). P x.0 x.1) m
  unfolding get
  All-entries P [] s h = tt
  All-entries P ((k, v) ∷ m) s h = (
    h k v (ground arith),
    All-entries P m (IsSorted-tail k v m s) (λ j w g. h j w (ground (arith, Above-get k j w m s))),
  )

  Above-middle : (lo k : ℕ) (v : V) (acc m : List (ℕ × V)) → Above lo (acc ++ (k, v) ∷ m) → lo < k
  Above-middle lo k v [] m a = a.0
  Above-middle lo k v ((j, w) ∷ acc) m a = ground (arith, Above-middle j k v acc m)

  insert_end-Above :
      (lo k : ℕ) (v : V) (acc m : List (ℕ × V))
      → Above lo (acc ++ (k, v) ∷ m)
      → insert k v acc ≡ acc ++ (k, v) ∷ []
  unfolding insert
  insert_end-Above lo k v [] m a = refl
  insert_end-Above lo k v ((j, w) ∷ acc) m a =
      ground (arith, Above-middle j k v acc m a.1, insert_end-Above j k v acc m a.1)

  -- An entry above all others goes to the end.
  pub insert_end :
      (k : ℕ) (v : V) (acc m : List (ℕ × V))
      → IsSorted (acc ++ (k, v) ∷ m)
      → insert k v acc ≡ acc ++ (k, v) ∷ []
  unfolding insert
  insert_end k v [] m s = refl
  insert_end k v ((j, w) ∷ acc) m s =
      ground (arith, Above-middle j k v acc m s, insert_end-Above j k v acc m s)
