-- ===== src/Ha/Store/Curated.antt =====
-- Catalogs of custom_components/thatsmatter/store.py in which no id and no entity comes twice.
use thatsmatter.Base.{
  ◌≡◌, ◌≢◌, sym, ap, subst, ◌∙◌, Bool, List, [], ◌∷◌, some, arith, ◌==◌, find, find-test, All, inl,
  inr, Bool-cases,
}
use thatsmatter.Catalog.Model.{Uuid}
use thatsmatter.Ha.Models.{HaExport}
use thatsmatter.Ha.Store.{get, upsert, delete}

-- No two exports have one id or one primary entity.
abbrev pub Apart : HaExport → HaExport → Type 0
Apart x y = (x.export_id ≢ y.export_id) × (x.primary_entity_id ≢ y.primary_entity_id)

abbrev pub IsCurated : List HaExport → Type 0
IsCurated [] = Unit
IsCurated (x ∷ xs) = All (Apart x) xs × IsCurated xs

-- Another export of the list has another entity.
abbrev pub Fits : HaExport → HaExport → Type 0
Fits e y = y.export_id ≢ e.export_id → y.primary_entity_id ≢ e.primary_entity_id

module _ (P : HaExport → Type 0) where
  All-upsert : (e : HaExport) (xs : List HaExport) → P e → All P xs → All P (upsert e xs)
  unfolding upsert
  All-upsert e [] p a = (p, tt)
  All-upsert e (x ∷ xs) p a = elim (Bool-cases (x.export_id == e.export_id)) [
    | inl same ↦ rw same (p, a.1)
    | inr other ↦ rw other (a.0, All-upsert e xs p a.1)
  ]

  All-delete : (id : Uuid) (xs : List HaExport) → All P xs → All P (delete id xs)
  unfolding delete
  All-delete id [] a = tt
  All-delete id (x ∷ xs) a = elim (Bool-cases (x.export_id == id)) [
    | inl same ↦ rw same a.1
    | inr other ↦ rw other (a.0, All-delete id xs a.1)
  ]

  find-All :
      (p : HaExport → Bool) (xs : List HaExport) (d : HaExport)
      → All P xs
      → find p xs ≡ some d
      → P d
  find-All p [] d a g = cc
  find-All p (x ∷ xs) d a g = elim (Bool-cases (p x)) [
    | inl here ↦ subst P (ground arith) a.0
    | inr there ↦ find-All p xs d a.1 (ground arith)
  ]

-- The rest of a list whose first export is replaced.
replaced :
    (x e : HaExport) (xs : List HaExport)
    → x.export_id ≡ e.export_id
    → All (Apart x) xs
    → All (Fits e) xs
    → All (Apart e) xs
replaced x e [] same a f = tt
replaced x e (y ∷ ys) same a f = (
  (λ h. a.0.0 (same ∙ h), λ h. f.0 (λ i. a.0.0 (same ∙ sym i)) (sym h)),
  replaced x e ys same a.1 f.1,
)

pub upsert-IsCurated :
    (e : HaExport) (xs : List HaExport) → IsCurated xs → All (Fits e) xs → IsCurated (upsert e xs)
unfolding upsert
upsert-IsCurated e [] c f = (tt, tt)
upsert-IsCurated e (x ∷ xs) c f = elim (Bool-cases (x.export_id == e.export_id)) [
  | inl same ↦ rw same (replaced x e xs (ground arith) c.0 f.1, c.1)
  | inr other ↦
      let far : x.export_id ≢ e.export_id = ground arith in
      rw other (All-upsert (Apart x) e xs (far, f.0 far) c.0, upsert-IsCurated e xs c.1 f.1)
]

pub delete-IsCurated : (id : Uuid) (xs : List HaExport) → IsCurated xs → IsCurated (delete id xs)
unfolding delete
delete-IsCurated id [] c = tt
delete-IsCurated id (x ∷ xs) c = elim (Bool-cases (x.export_id == id)) [
  | inl same ↦ rw same c.1
  | inr other ↦ rw other (All-delete (Apart x) id xs c.0, delete-IsCurated id xs c.1)
]

-- An export with the entity of another that is apart from the list.
Apart-Fits :
    (e x : HaExport) (xs : List HaExport)
    → e.primary_entity_id ≡ x.primary_entity_id
    → All (Apart x) xs
    → All (Fits e) xs
Apart-Fits e x [] p a = tt
Apart-Fits e x (y ∷ ys) p a = (λ far same. a.0.1 (sym (same ∙ p)), Apart-Fits e x ys p a.1)

-- An export that keeps the entity of the one that it replaces.
pub kept-Fits :
    (e : HaExport) (xs : List HaExport) (d : HaExport)
    → IsCurated xs
    → find (λ x. x.export_id == e.export_id) xs ≡ some d
    → e.primary_entity_id ≡ d.primary_entity_id
    → All (Fits e) xs
kept-Fits e [] d c g p = tt
kept-Fits e (x ∷ xs) d c g p = elim (Bool-cases (x.export_id == e.export_id)) [
  | inl here ↦
      let same : x ≡ d = ground arith in
      (
        λ far clash. far (ground arith),
        Apart-Fits e x xs (p ∙ ap (λ (y : HaExport). y.primary_entity_id) (sym same)) c.0,
      )
  | inr there ↦
      let g' : find (λ y. y.export_id == e.export_id) xs ≡ some d = ground arith in
      (
        λ far clash.
            (find-All (Apart x) (λ y. y.export_id == e.export_id) xs d c.0 g').1 (clash ∙ p),
        kept-Fits e xs d c.1 g' p,
      )
]

pub get-id : (xs : List HaExport) (id : Uuid) (d : HaExport) → get xs id ≡ some d → d.export_id ≡ id
unfolding get
get-id xs id d g = let t = find-test (λ (x : HaExport). x.export_id == id) xs d g in ground arith

pub renamed_found :
    (xs : List HaExport) (id : Uuid) (d : HaExport)
    → get xs id ≡ some d
    → find (λ x. x.export_id == d.export_id) xs ≡ some d
unfolding get
renamed_found xs id d g =
    subst (λ i. find (λ (x : HaExport). x.export_id == i) xs ≡ some d) (sym (get-id xs id d g)) g
