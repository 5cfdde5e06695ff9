-- ===== src/Ipc/Race.antt =====
-- Concurrent requests to the handlers of bridge/src/ipc/handlers.rs. A request that changes the
-- catalog holds its lock for the method; `sync_exports` takes the lock again to list the exports,
-- and calls the backend after it: three steps, between which other requests may take theirs.
use thatsmatter.Base.{
  ℕ, ◌+◌, ◌-◌, ◌≤◌, ◌≡◌, refl, List, [], ◌∷◌, ◌++◌, arith, Result, ok, err, ap, sym, ◌∙◌,
  Result-cases, inl, inr,
}
use thatsmatter.Catalog.Model.{Export}
use thatsmatter.Catalog.Store.{CatalogError, list}
use thatsmatter.Catalog.Persist.{Codec, PersistIo}
use thatsmatter.Catalog.Methods.{Catalog}
use thatsmatter.Ipc.{Backend}
use thatsmatter.Ipc.Sync.{Change, method}

-- `unsynced` counts the requests between their method and their listing, `listings` are those
-- between their listing and the backend, the newest first.
pub record World (Raw B : Type 0) : Type 0 where
  pub catalog : Catalog Raw
  pub backend : B
  pub unsynced : ℕ
  pub listings : List (List Export)

-- A request whose method fails does not synchronise.
unfoldable pub owes : {E A : Type 0} → Result E A → ℕ
owes (ok a) = 1
owes (err e) = 0

-- A listing out of the list.
pub data Takes (x : List Export) : List (List Export) → List (List Export) → Type 0 where
  first : {xs : List (List Export)} → Takes x (x ∷ xs) xs
  later : {y : List Export} {xs ys : List (List Export)} → Takes x xs ys → Takes x (y ∷ xs) (y ∷ ys)

module _ {V Raw B : Type 0} (backend : Backend V B) (codec : Codec Raw) where
  pub data Step (s : World Raw B) (t : World Raw B) : Type 0 where
    calls_method :
        (change : Change) (io : PersistIo)
        → t ≡ record s {
          catalog = (method codec io change s.catalog).1;
          unsynced = s.unsynced + owes (method codec io change s.catalog).0;
        }
        → Step s t
    lists :
        1 ≤ s.unsynced
        → t ≡ record s { unsynced = s.unsynced - 1; listings = list s.catalog.store ∷ s.listings }
        → Step s t
    pushes :
        (x : List Export) (rest : List (List Export))
        → Takes x s.listings rest
        → t ≡ record s { backend = (backend.set_exports x s.backend).1; listings = rest }
        → Step s t

  pub data Reach (s : World Raw B) : World Raw B → Type 0 where
    here : Reach s s
    next : {t u : World Raw B} → Reach s t → Step t u → Reach s u

-- No request is under way.
abbrev pub settled : {Raw B : Type 0} → Catalog Raw → B → World Raw B
settled c b = record { catalog = c; backend = b; unsynced = 0; listings = [] }

-- A run in which no listing overtakes an older one on the way to the backend, and a method that
-- fails leaves the exports as they were.
module _ {V Raw B : Type 0} (backend : Backend V B) (codec : Codec Raw) where
  abbrev pub IsOrderly : {s t : World Raw B} → Step backend codec s t → Type 0
  IsOrderly {s} (calls_method change io e) =
      (x : CatalogError)
      → (method codec io change s.catalog).0 ≡ err x
      → list (method codec io change s.catalog).1.store ≡ list s.catalog.store
  IsOrderly (lists h e) = Unit
  IsOrderly {s} (pushes x rest takes e) = s.listings ≡ rest ++ x ∷ []

  pub data Orderly (s : World Raw B) : World Raw B → Type 0 where
    begins : Orderly s s
    goes_on :
        {t u : World Raw B}
        → Orderly s t
        → (step : Step backend codec t u) → IsOrderly step
        → Orderly s u

-- What the backend holds once the listings under way have reached it in their order.
abbrev newest : List Export → List (List Export) → List Export
newest held [] = held
newest held (x ∷ xs) = x

newest-snoc :
    (held held' x : List Export) (rest : List (List Export))
    → held' ≡ x
    → newest held' rest ≡ newest held (rest ++ x ∷ [])
newest-snoc held held' x [] e = e
newest-snoc held held' x (y ∷ rest) e = refl

module _ {V Raw B : Type 0} (backend : Backend V B) (codec : Codec Raw) (held : B → List Export)
    (holds : (exports : List Export) (b : B)
      → held (backend.set_exports exports b).1 ≡ exports) where
  -- Unless a request has still to list, the newest listing is that of the catalog.
  abbrev IsSound : World Raw B → Type 0
  IsSound s = s.unsynced ≡ 0 → newest (held s.backend) s.listings ≡ list s.catalog.store

  called-IsSound :
      (s : World Raw B) (change : Change) (io : PersistIo)
      → ((x : CatalogError)
          → (method codec io change s.catalog).0 ≡ err x
          → list (method codec io change s.catalog).1.store ≡ list s.catalog.store)
      → IsSound s
      → s.unsynced + owes (method codec io change s.catalog).0 ≡ 0
      → newest (held s.backend) s.listings ≡ list (method codec io change s.catalog).1.store
  unfolding owes
  called-IsSound s change io orderly v none_left =
      elim (Result-cases (method codec io change s.catalog).0) [
        | inl (e, done) ↦ absurd (omega (arith, rw done at none_left))
        | inr (x, failed) ↦ v (omega (arith, rw failed at none_left)) ∙ sym (orderly x failed)
      ]

  Step-IsSound :
      {s t : World Raw B} (step : Step backend codec s t)
      → IsOrderly backend codec step
      → IsSound s
      → IsSound t
  Step-IsSound {s} (calls_method change io e) orderly v =
      rw e (called-IsSound s change io orderly v)
  Step-IsSound {s} (lists h e) orderly v = rw e (λ q. refl)
  Step-IsSound {s} (pushes x rest takes e) orderly v = rw e (λ q.
      newest-snoc (held s.backend) (held (backend.set_exports x s.backend).1) x rest
        (holds x s.backend)
      ∙ ap (newest (held s.backend)) (sym orderly)
      ∙ v q)

  Orderly-IsSound : {s t : World Raw B} → IsSound s → Orderly backend codec s t → IsSound t
  Orderly-IsSound v begins = v
  Orderly-IsSound v (goes_on r step orderly) = Step-IsSound step orderly (Orderly-IsSound v r)

  -- For a backend that holds what it was last given: however requests interleave, if no listing
  -- overtakes an older one on the way to the backend and no method that fails changes the exports,
  -- then whenever no request is under way the backend holds the exports of the catalog.
  pub Orderly-syncs :
      (c : Catalog Raw) (b : B) {t : World Raw B}
      → held b ≡ list c.store
      → Orderly backend codec (settled c b) t
      → t.unsynced ≡ 0
      → t.listings ≡ []
      → held t.backend ≡ list t.catalog.store
  Orderly-syncs c b {t} h r none_left all_pushed =
      ap (newest (held t.backend)) (sym all_pushed) ∙ Orderly-IsSound (λ q. h) r none_left

  -- Two requests that succeed can leave the backend, when both are answered, with the exports as
  -- they were before the second: the first lists them, the second changes the catalog, lists and
  -- pushes, and the first pushes last.
  pub stale_push :
      (c : Catalog Raw) (b : B) (one two : Change) (io io' : PersistIo) (e d : Export)
      → (method codec io one c).0 ≡ ok e
      → (method codec io' two (method codec io one c).1).0 ≡ ok d
      → (t : World Raw B) × Reach backend codec (settled c b) t
        × (t.unsynced ≡ 0)
        × (t.listings ≡ [])
        × (t.catalog ≡ (method codec io' two (method codec io one c).1).1)
        × (held t.backend ≡ list (method codec io one c).1.store)
  unfolding owes
  stale_push c b one two io io' e d p q = (
    _,
    next
        (next
          (next
            (next (next (next here (calls_method one io refl)) (lists (rw p (omega arith)) refl))
              (calls_method two io' refl))
            (lists (rw (p, q) (omega arith)) refl))
          (pushes _ _ first refl))
        (pushes _ _ first refl),
    rw (p, q) refl,
    refl,
    refl,
    holds _ _,
  )
