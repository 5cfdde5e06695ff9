-- ===== src/Matter/Plane/Members.antt =====
-- What the filter and the sort of `set_exports` in bridge/src/matter/export_plane.rs keep: the
-- members of the list.
use mathlib.Core.List.{Memᴰ}
use mathlib.Core.List.Memᴰ
use mathlib.Core.List.Memᴰ.{head, tail}
use thatsmatter.Base.{◌≡◌, sym, ap, ◌∙◌, Bool, true, List, [], ◌∷◌, filter, Bool-cases, inl, inr}
use thatsmatter.Catalog.Model.{Export}
use thatsmatter.Matter.Plane.{key_le, insert_by_key, sort_by_key}

pub filter-Mem :
    (p : Export → Bool) (xs : List Export) (d : Export) → Memᴰ d (filter p xs) → Memᴰ d xs
filter-Mem p [] d m = m
filter-Mem p (x ∷ xs) d m = elim (Bool-cases (p x)) [
  | inl t ↦ elim (Memᴰ.cases_cons (rw t at m)) [
    | inl e ↦ head e
    | inr n ↦ tail (filter-Mem p xs d n)
  ]
  | inr f ↦ tail (filter-Mem p xs d (rw f at m))
]

pub Mem-filter :
    (p : Export → Bool) (xs : List Export) (d : Export)
    → Memᴰ d xs
    → p d ≡ true
    → Memᴰ d (filter p xs)
Mem-filter p [] d m t = m
Mem-filter p (x ∷ xs) d m t = elim (Memᴰ.cases_cons m) [
  | inl e ↦ rw (ap p (sym e) ∙ t) (head e)
  | inr n ↦ elim (Bool-cases (p x)) [
    | inl y ↦ rw y (tail (Mem-filter p xs d n t))
    | inr f ↦ rw f (Mem-filter p xs d n t)
  ]
]

insert_by_key-Mem :
    (x : Export) (xs : List Export) (d : Export) → Memᴰ d (insert_by_key x xs) → Memᴰ d (x ∷ xs)
unfolding insert_by_key
insert_by_key-Mem x [] d m = m
insert_by_key-Mem x (y ∷ ys) d m = elim (Bool-cases (key_le x y)) [
  | inl t ↦ rw t at m
  | inr f ↦ elim (Memᴰ.cases_cons (rw f at m)) [
    | inl e ↦ tail (head e)
    | inr n ↦ elim (Memᴰ.cases_cons (insert_by_key-Mem x ys d n)) [
      | inl e ↦ head e
      | inr k ↦ tail (tail k)
    ]
  ]
]

Mem-insert_by_key :
    (x : Export) (xs : List Export) (d : Export) → Memᴰ d (x ∷ xs) → Memᴰ d (insert_by_key x xs)
unfolding insert_by_key
Mem-insert_by_key x [] d m = m
Mem-insert_by_key x (y ∷ ys) d m = elim (Bool-cases (key_le x y)) [
  | inl t ↦ rw t m
  | inr f ↦ rw f (elim (Memᴰ.cases_cons m) [
    | inl e ↦ tail (Mem-insert_by_key x ys d (head e))
    | inr n ↦ elim (Memᴰ.cases_cons n) [
      | inl e ↦ head e
      | inr k ↦ tail (Mem-insert_by_key x ys d (tail k))
    ]
  ])
]

pub sort_by_key-Mem : (xs : List Export) (d : Export) → Memᴰ d (sort_by_key xs) → Memᴰ d xs
unfolding sort_by_key
sort_by_key-Mem [] d m = m
sort_by_key-Mem (x ∷ xs) d m = elim (Memᴰ.cases_cons (insert_by_key-Mem x (sort_by_key xs) d m)) [
  | inl e ↦ head e
  | inr n ↦ tail (sort_by_key-Mem xs d n)
]

pub Mem-sort_by_key : (xs : List Export) (d : Export) → Memᴰ d xs → Memᴰ d (sort_by_key xs)
unfolding sort_by_key
Mem-sort_by_key [] d m = m
Mem-sort_by_key (x ∷ xs) d m =
    Mem-insert_by_key x (sort_by_key xs) d
      (elim (Memᴰ.cases_cons m) [ inl e ↦ head e | inr n ↦ tail (Mem-sort_by_key xs d n) ])
