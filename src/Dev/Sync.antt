-- ===== src/Dev/Sync.antt =====
-- The control plane of bridge/src/ipc/handlers.rs over the backend of bridge/src/matter/dev.rs.
use thatsmatter.Base.{
  ℕ, ◌≡◌, ◌≢◌, refl, Bool, true, false, List, [], ◌∷◌, some, arith, if◌then◌else◌, ap, ◌∙◌, sym,
  Bool-cases, inl, inr,
}
use thatsmatter.Base.Text.{Text, text_eq, text_eq_refl, text_eq→eq}
use thatsmatter.Catalog.Model.{HaStateValue}
use thatsmatter.Catalog.Store.{list}
use thatsmatter.Catalog.Persist.{Codec, PersistIo}
use thatsmatter.Ipc.{AppState}
use thatsmatter.Ipc.Sync.{
  Change, serve, refused, pushed, push_failed, serve-Served, good_status, catalog_err-status,
}
use thatsmatter.Dev.{DevMatterBackend, dev_backend, put_state, get_state}

module _ {V Raw : Type 0} (codec : Codec Raw) (io : PersistIo) (now : ℕ) where
  -- After a request that is answered with its success status, the backend for development holds
  -- exactly the exports of the catalog; any other request leaves the backend as it was.
  serve_in_sync :
      (change : Change) (s : AppState Raw (DevMatterBackend V))
      → ((serve (dev_backend V now) codec io change s).0.status ≡ good_status change
          → (serve (dev_backend V now) codec io change s).1.backend.exports
            ≡ list (serve (dev_backend V now) codec io change s).1.catalog.store)
        × ((serve (dev_backend V now) codec io change s).0.status ≢ good_status change
            → (serve (dev_backend V now) codec io change s).1.backend ≡ s.backend)
  serve_in_sync change s = elim ((serve-Served (dev_backend V now) codec io change s).1) [
    | refused e f a b ↦
        (λ h. absurd (catalog_err-status e change (ap (λ x. x.status) (sym a) ∙ h)), λ h. b)
    | push_failed e m f p a b ↦ (λ h. ap (λ x. x.exports) b, λ h. absurd (ground arith))
    | pushed e f p a b ↦ (λ h. ap (λ x. x.exports) b, λ h. absurd (h (ap (λ x. x.status) a)))
  ]

distinct : (k e id : Text) → text_eq k e ≡ false → text_eq k id ≡ true → text_eq e id ≡ true → ⊥
distinct k e id o p q =
    let a : k ≡ id = text_eq→eq k id p in
    let b : e ≡ id = text_eq→eq e id q in
    let c : text_eq k e ≡ true = rw (a, b) (text_eq_refl id) in ground arith

if_twice :
    {A : Type 0} (p : Bool) (x y z : A)
    → (if p then x else y) ≡ (if p then x else if p then z else y)
if_twice true x y z = refl
if_twice false x y z = refl

if_swap :
    {A : Type 0} (p q : Bool) (x y z : A)
    → (p ≡ true → q ≡ true → ⊥)
    → (if p then x else if q then y else z) ≡ (if q then y else if p then x else z)
if_swap true true x y z h = absurd (h refl refl)
if_swap true false x y z h = refl
if_swap false q x y z h = refl

module _ {V : Type 0} where
  -- Pushing a state makes it the state of its entity and of no other.
  get-put_state :
      (st : HaStateValue V) (id : Text) (m : List (Text × HaStateValue V))
      → get_state id (put_state st m)
        ≡ (if text_eq st.entity_id id then some st else get_state id m)
  unfolding get_state put_state
  get-put_state st id [] = ground arith
  get-put_state st id ((k, old) ∷ m) = elim (Bool-cases (text_eq k st.entity_id)) [
    | inl same ↦
        let e : k ≡ st.entity_id = text_eq→eq k st.entity_id same in
        rw (same, e) (if_twice (text_eq st.entity_id id) (some st) (get_state id m) (some old))
    | inr other ↦
        rw (other, get-put_state st id m)
          (if_swap (text_eq k id) (text_eq st.entity_id id) (some old) (some st) (get_state id m)
            (λ p q. absurd (distinct k st.entity_id id other p q)))
  ]
