-- ===== src/Ha/Client/Dict.antt =====
-- Python's `dict` with ids as keys, as the list of its entries in the order of insertion.
use thatsmatter.Base.{
  ℕ, ◌≡◌, refl, subst, All, find, map, false, List, [], ◌∷◌, Option, none, some, arith, ◌==◌,
  if◌then◌else◌, Option-cases, inl, inr, ◌⊎◌, Bool-cases,
}
use thatsmatter.Base.Map.{get, values, IsSorted, Above}
use thatsmatter.Base.Map.Order.{Above-get, IsSorted-tail}
use mathlib.Core.Option

module _ {V : Type 0} where
  unfoldable pub set_item : ℕ → V → List (ℕ × V) → List (ℕ × V)
  set_item k v [] = (k, v) ∷ []
  set_item k v ((j, w) ∷ d) =
      let rest = set_item k v d in if j == k then (j, v) ∷ d else (j, w) ∷ rest

  unfoldable pub fill : (V → ℕ) → List V → List (ℕ × V) → List (ℕ × V)
  unfolding set_item
  fill key [] d = d
  fill key (x ∷ xs) d = fill key xs (set_item (key x) x d)

  -- `{key(x): x for x in xs}`.
  unfoldable pub by_id : (V → ℕ) → List V → List (ℕ × V)
  unfolding fill
  by_id key xs = fill key xs []

  -- No key twice.
  abbrev pub NodupKeys : List (ℕ × V) → Type 0
  NodupKeys [] = Unit
  NodupKeys ((k, v) ∷ d) = (get k d ≡ none) × NodupKeys d

  get-set_item :
      (k j : ℕ) (v : V) (d : List (ℕ × V))
      → get j (set_item k v d) ≡ (if k == j then some v else get j d)
  unfolding get set_item
  get-set_item k j v [] = refl
  get-set_item k j v ((i, w) ∷ d) = ground (arith, get-set_item k j v d)

  set_item-NodupKeys : (k : ℕ) (v : V) (d : List (ℕ × V)) → NodupKeys d → NodupKeys (set_item k v d)
  unfolding get set_item
  set_item-NodupKeys k v [] n = (refl, tt)
  set_item-NodupKeys k v ((i, w) ∷ d) n =
      ground (arith, set_item-NodupKeys k v d, get-set_item k i v d)

  fill-NodupKeys :
      (key : V → ℕ) (xs : List V) (d : List (ℕ × V)) → NodupKeys d → NodupKeys (fill key xs d)
  unfolding fill
  fill-NodupKeys key [] d n = n
  fill-NodupKeys key (x ∷ xs) d n =
      fill-NodupKeys key xs (set_item (key x) x d) (set_item-NodupKeys (key x) x d n)

  pub by_id-NodupKeys : (key : V → ℕ) (xs : List V) → NodupKeys (by_id key xs)
  unfolding by_id
  by_id-NodupKeys key xs = fill-NodupKeys key xs [] tt

  -- An entry stands under its own key.
  fill-key :
      (key : V → ℕ) (xs : List V) (d : List (ℕ × V))
      → ((j : ℕ) (v : V) → get j d ≡ some v → key v ≡ j)
      → (j : ℕ) (v : V) → get j (fill key xs d) ≡ some v
      → key v ≡ j
  unfolding fill
  fill-key key [] d h j v g = h j v g
  fill-key key (x ∷ xs) d h j v g =
      fill-key key xs (set_item (key x) x d)
        (λ i w e. ground (arith, get-set_item (key x) i x d, h i w)) j v g

  pub by_id-key :
      (key : V → ℕ) (xs : List V) (j : ℕ) (v : V) → get j (by_id key xs) ≡ some v → key v ≡ j
  unfolding by_id get
  by_id-key key xs j v g = fill-key key xs [] (λ i w e. absurd (ground arith)) j v g

  -- The entries of a sorted map come back.
  abbrev Keyed : (V → ℕ) → List (ℕ × V) → Type 0
  Keyed key m = (j : ℕ) (v : V) → get j m ≡ some v → key v ≡ j

  Keyed-tail :
      (key : V → ℕ) (k : ℕ) (w : V) (m : List (ℕ × V))
      → IsSorted ((k, w) ∷ m)
      → Keyed key ((k, w) ∷ m)
      → Keyed key m
  unfolding get
  Keyed-tail key k w m s h j v g = h j v (ground (arith, Above-get k j v m))

  absent_below : (k : ℕ) (m : List (ℕ × V)) → Above k m → get k m ≡ none
  absent_below k m a = elim (Option-cases (get k m)) [
    | inl e ↦ e
    | inr (x, e) ↦ absurd (omega (arith, Above-get k k x m a e))
  ]

  get-fill-values :
      (key : V → ℕ) (m d : List (ℕ × V)) (j : ℕ)
      → IsSorted m
      → Keyed key m
      → get j (fill key (values m) d) ≡ elim (get j m) [ none ↦ get j d | some v ↦ some v ]
  unfolding get values fill
  get-fill-values key [] d j s h = refl
  get-fill-values key ((k, w) ∷ m) d j s h =
      let own : key w ≡ k = h k w (ground arith) in
      let ih =
        get-fill-values key m (set_item (key w) w d) j (IsSorted-tail k w m s)
          (Keyed-tail key k w m s h) in
      ground (arith, get-set_item (key w) j w d, absent_below k m s)

  pub get-by_id :
      (key : V → ℕ) (m : List (ℕ × V)) (j : ℕ)
      → IsSorted m
      → Keyed key m
      → get j (by_id key (values m)) ≡ get j m
  unfolding by_id get
  get-by_id key m j s h = ground (arith, get-fill-values key m [] j s h)

  pub get_head : (k : ℕ) (v : V) (d : List (ℕ × V)) → get k ((k, v) ∷ d) ≡ some v
  unfolding get
  get_head k v d = ground arith

  -- With the key of the first entry absent from the rest, a key of the rest is another.
  pub get_tail :
      (k : ℕ) (v : V) (d : List (ℕ × V)) (j : ℕ) (x : V)
      → get k d ≡ none
      → get j d ≡ some x
      → (get j ((k, v) ∷ d) ≡ some x) × ((k == j) ≡ false)
  unfolding get
  get_tail k v d j x n g = ground arith

  pub get_cases :
      (k : ℕ) (v : V) (d : List (ℕ × V)) (j : ℕ) (o : Option V)
      → get j ((k, v) ∷ d) ≡ o
      → ((k ≡ j) × (o ≡ some v)) ⊎ (((k == j) ≡ false) × (get j d ≡ o))
  unfolding get
  get_cases k v d j o g = elim (Bool-cases (k == j)) [
    | inl here ↦ inl (ground arith, ground arith)
    | inr there ↦ inr (there, ground arith)
  ]

  -- What holds of every element holds of every entry.
  fill-All :
      (P : V → Type 0) (key : V → ℕ) (xs : List V) (d : List (ℕ × V))
      → All P xs
      → ((j : ℕ) (v : V) → get j d ≡ some v → P v)
      → (j : ℕ) (v : V) → get j (fill key xs d) ≡ some v
      → P v
  unfolding fill
  fill-All P key [] d a h j v g = h j v g
  fill-All P key (x ∷ xs) d a h j v g =
      fill-All P key xs (set_item (key x) x d) a.1
        (λ i w e. elim (Bool-cases (key x == i)) [
          | inl here ↦ subst P (ground (arith, get-set_item (key x) i x d)) a.0
          | inr there ↦ h i w (ground (arith, get-set_item (key x) i x d))
        ])
        j v g

  pub by_id-All :
      (P : V → Type 0) (key : V → ℕ) (xs : List V)
      → All P xs
      → (j : ℕ) (v : V) → get j (by_id key xs) ≡ some v
      → P v
  unfolding by_id get
  by_id-All P key xs a j v g = fill-All P key xs [] a (λ i w e. absurd (ground arith)) j v g

  -- No two elements have one key.
  abbrev pub NodupBy : (V → ℕ) → List V → Type 0
  NodupBy key [] = Unit
  NodupBy key (x ∷ xs) = (find (λ y. key y == key x) xs ≡ none) × NodupBy key xs

  get-fill-find :
      (key : V → ℕ) (xs : List V) (d : List (ℕ × V)) (j : ℕ)
      → NodupBy key xs
      → get j (fill key xs d)
        ≡ elim (find (λ y. key y == j) xs) [ none ↦ get j d | some v ↦ some v ]
  unfolding fill
  get-fill-find key [] d j n = refl
  get-fill-find key (x ∷ xs) d j n =
      let ih = get-fill-find key xs (set_item (key x) x d) j n.1 in
      elim (Bool-cases (key x == j)) [
        | inl here ↦
            let same : key x ≡ j = ground arith in
            let absent : find (λ y. key y == j) xs ≡ none =
              subst (λ i. find (λ y. key y == i) xs ≡ none) same n.0 in
            ground (arith, get-set_item (key x) j x d)
        | inr there ↦ ground (arith, get-set_item (key x) j x d)
      ]

  pub get-by_id_find :
      (key : V → ℕ) (xs : List V) (j : ℕ)
      → NodupBy key xs
      → get j (by_id key xs) ≡ find (λ y. key y == j) xs
  unfolding by_id get
  get-by_id_find key xs j n = ground (arith, get-fill-find key xs [] j n)

  -- A change of the elements that keeps their keys.
  fill-map :
      (key : V → ℕ) (f : V → V) (xs : List V) (d d' : List (ℕ × V)) (j : ℕ)
      → ((x : V) → key (f x) ≡ key x)
      → ((i : ℕ) → get i d' ≡ Option.map f (get i d))
      → get j (fill key (map f xs) d') ≡ Option.map f (get j (fill key xs d))
  unfolding fill
  fill-map key f [] d d' j k h = h j
  fill-map key f (x ∷ xs) d d' j k h =
      fill-map key f xs (set_item (key x) x d) (set_item (key (f x)) (f x) d') j k (λ i.
        ground (arith, get-set_item (key (f x)) i (f x) d', get-set_item (key x) i x d, k x, h i))

  pub by_id-map :
      (key : V → ℕ) (f : V → V) (xs : List V) (j : ℕ)
      → ((x : V) → key (f x) ≡ key x)
      → get j (by_id key (map f xs)) ≡ Option.map f (get j (by_id key xs))
  unfolding by_id get
  by_id-map key f xs j k = fill-map key f xs [] [] j k (λ i. refl)
