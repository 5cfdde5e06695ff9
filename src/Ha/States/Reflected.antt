-- ===== src/Ha/States/Reflected.antt =====
-- What the pushes of custom_components/thatsmatter/coordinator.py leave in the endpoints of the
-- bridge.
use thatsmatter.Base.{
  ◌≡◌, ◌≢◌, refl, sym, subst, ◌∙◌, Bool, true, List, [], ◌∷◌, Option, none, some, arith, ◌==◌, ◌&&◌,
  inl, inr, Option-cases, Bool-cases, find, filter, ap, filter_map, map,
}
use thatsmatter.Base.Text.{Text}
use thatsmatter.Catalog.Model.{Uuid, Export, HaStateValue}
use thatsmatter.Catalog.Store
use thatsmatter.Matter.Plane.{ExportPlane, slot_for}
use thatsmatter.Matter.Slot.{ExportSlot}
use thatsmatter.Matter.WindowCovering.{ValueReads}
use thatsmatter.Matter.Apply.{apply_slot, apply_state}
use thatsmatter.Matter.Apply.Echo.{apply_state-slot, apply_state_lem}
use thatsmatter.Ipc.{AppState, push_state}
use thatsmatter.RsMatter.{RsMatterBackend}
use thatsmatter.RsMatter.Backend.{Answers, rs_backend}
use thatsmatter.Ha.Models.{HaExport}
use thatsmatter.Ha.Store.{get, uses_entity, find_by_entity}
use thatsmatter.Ha.Client.Dict.{NodupBy}
use thatsmatter.Ha.States.{
  HomeStates, ha_state_value, state_of, export_states, send_states, async_push_export_state,
  push_each, async_handle_state_event,
}

-- The exports that a test lets through, by id.
module _ (p : HaExport → Bool) where
  find-filter-none :
      (xs : List HaExport) (id : Uuid)
      → find (λ x. x.export_id == id) xs ≡ none
      → find (λ x. x.export_id == id) (filter p xs) ≡ none
  find-filter-none [] id h = refl
  find-filter-none (x ∷ xs) id h = ground (arith, find-filter-none xs id)

  find-filter-some :
      (xs : List HaExport) (id : Uuid) (e : HaExport)
      → find (λ x. x.export_id == id) xs ≡ some e
      → p e ≡ true
      → find (λ x. x.export_id == id) (filter p xs) ≡ some e
  find-filter-some [] id e h k = ground arith
  find-filter-some (x ∷ xs) id e h k = ground (arith, find-filter-some xs id e)

  filter-NodupBy :
      (xs : List HaExport)
      → NodupBy (λ x. x.export_id) xs
      → NodupBy (λ x. x.export_id) (filter p xs)
  filter-NodupBy [] n = tt
  filter-NodupBy (x ∷ xs) n = elim (Bool-cases (p x)) [
    | inl kept ↦ rw kept (find-filter-none xs x.export_id n.0, filter-NodupBy xs n.1)
    | inr gone ↦ rw gone (filter-NodupBy xs n.1)
  ]

-- States of one export leave the slots of the others.
slots_kept :
    {V : Type 0} (reads : ValueReads V) (states : List (HaStateValue V)) (own other : Uuid)
    (plane : ExportPlane)
    → other ≢ own
    → slot_for other (apply_state reads own states plane).0.slots ≡ slot_for other plane.slots
slots_kept reads states own other plane far = elim (Option-cases (slot_for own plane.slots)) [
  | inl absent ↦
      ap (λ (q : ExportPlane). slot_for other q.slots)
        ((apply_state_lem reads states own plane).1 absent)
  | inr (slot, here) ↦ (apply_state-slot reads states own plane slot here).1 other far
]

module _ {V : Type 0} (Raw : Type 0) (a : Answers V) (arrives : Uuid → Bool) where
  abbrev State : Type 0
  State = AppState Raw RsMatterBackend

  abbrev slot_of : Uuid → State → Option ExportSlot
  slot_of id s = slot_for id s.backend.plane.slots

  abbrev send : Uuid → List (HaStateValue V) → State → State
  send id states s = send_states (rs_backend a) arrives id states s

  send-catalog :
      (id : Uuid) (states : List (HaStateValue V)) (s : State)
      → (send id states s).catalog ≡ s.catalog
  unfolding send_states push_state
  send-catalog id [] s = refl
  send-catalog id (x ∷ states) s = elim (Bool-cases (arrives id)) [
    | inr lost ↦ rw lost refl
    | inl arrived ↦ elim (Option-cases (Store.get s.catalog.store id)) [
      | inl unknown ↦ rw (arrived, unknown) refl
      | inr (b, stored) ↦ rw (arrived, stored) refl
    ]
  ]

  send-other :
      (id : Uuid) (states : List (HaStateValue V)) (s : State) (other : Uuid)
      → other ≢ id
      → slot_of other (send id states s) ≡ slot_of other s
  unfolding send_states push_state
  send-other id [] s other far = refl
  send-other id (x ∷ states) s other far = elim (Bool-cases (arrives id)) [
    | inr lost ↦ rw lost refl
    | inl arrived ↦ elim (Option-cases (Store.get s.catalog.store id)) [
      | inl unknown ↦ rw (arrived, unknown) refl
      | inr (b, stored) ↦
          rw (arrived, stored) (slots_kept a.reads (x ∷ states) id other s.backend.plane far)
    ]
  ]

  send-own :
      (id : Uuid) (x : HaStateValue V) (states : List (HaStateValue V)) (s : State) (b : Export)
      (slot : ExportSlot)
      → arrives id ≡ true
      → Store.get s.catalog.store id ≡ some b
      → slot_of id s ≡ some slot
      → slot_of id (send id (x ∷ states) s) ≡ some (apply_slot a.reads (x ∷ states) slot).0
  unfolding send_states push_state
  send-own id x states s b slot arrived stored here =
      rw (arrived, stored) (apply_state-slot a.reads (x ∷ states) id s.backend.plane slot here).0

  module _ (home : HomeStates V) where
    first_state :
        (e : HaExport) (st : Text × List (Text × V))
        → home e.primary_entity_id ≡ some st
        → (x : HaStateValue V) × (xs : List (HaStateValue V)) × (export_states home e ≡ x ∷ xs)
    unfolding export_states state_of
    first_state e st has = (
      ha_state_value e.primary_entity_id st.0 st.1,
      filter_map (state_of home) (map (λ (x : Text × Text). x.1) e.linked),
      rw (has, filter_map) refl,
    )

    abbrev each : List HaExport → State → State
    each es s = push_each (rs_backend a) arrives home es s

    each-other :
        (es : List HaExport) (s : State) (id : Uuid)
        → find (λ e. e.export_id == id) es ≡ none
        → slot_of id (each es s) ≡ slot_of id s
    unfolding push_each async_push_export_state
    each-other [] s id h = refl
    each-other (e ∷ es) s id h =
        let far : id ≢ e.export_id = ground arith in
        each-other es (send e.export_id (export_states home e) s) id (ground arith)
        ∙ send-other e.export_id (export_states home e) s id far

    each-own :
        (es : List HaExport) (s : State) (e : HaExport) (b : Export) (slot : ExportSlot)
        (x : HaStateValue V) (xs : List (HaStateValue V))
        → NodupBy (λ y. y.export_id) es
        → find (λ y. y.export_id == e.export_id) es ≡ some e
        → export_states home e ≡ x ∷ xs
        → arrives e.export_id ≡ true
        → Store.get s.catalog.store e.export_id ≡ some b
        → slot_of e.export_id s ≡ some slot
        → slot_of e.export_id (each es s) ≡ some (apply_slot a.reads (x ∷ xs) slot).0
    unfolding push_each async_push_export_state
    each-own [] s e b slot x xs n f known arrived stored here = cc
    each-own (y ∷ ys) s e b slot x xs n f known arrived stored here =
        elim (Bool-cases (y.export_id == e.export_id)) [
          | inl own ↦
              let same : y ≡ e = ground arith in
              let absent : find (λ z. z.export_id == e.export_id) ys ≡ none =
                subst
                  (λ (i : HaExport). find (λ (z : HaExport). z.export_id == i.export_id) ys ≡ none)
                  same n.0 in
              let stays : Option ExportSlot → Type 0 =
                λ o. o ≡ some (apply_slot a.reads (x ∷ xs) slot).0 in
              let pushed =
                each-other ys (send e.export_id (x ∷ xs) s) e.export_id absent
                ∙ send-own e.export_id x xs s b slot arrived stored here in
              subst
                (λ i.
                  stays (slot_of e.export_id (each ys (send i.export_id (export_states home i) s))))
                (sym same)
                (subst (λ t. stays (slot_of e.export_id (each ys (send e.export_id t s))))
                  (sym known) pushed)
          | inr other ↦
              let far : e.export_id ≢ y.export_id = ground arith in
              let states = export_states home y in
              each-own ys (send y.export_id states s) e b slot x xs n.1 (ground arith) known arrived
                (ap (λ c. Store.get c.store e.export_id) (send-catalog y.export_id states s)
                  ∙ stored)
                (send-other y.export_id states s e.export_id far ∙ here)
        ]

    -- When the state of an entity changes and the bridge is connected, each enabled export that
    -- uses the entity, whose push arrives, whose primary entity has a state and which is bridged,
    -- ends up with the slot that the states of all its entities make of its slot before, whatever
    -- the pushes of the other exports do.
    pub state_event_reflected :
        (exports : List HaExport) (entity_id : Text) (s : State) (e : HaExport) (b : Export)
        (slot : ExportSlot) (st : Text × List (Text × V))
        → NodupBy (λ y. y.export_id) exports
        → get exports e.export_id ≡ some e
        → e.enabled && uses_entity entity_id e ≡ true
        → home e.primary_entity_id ≡ some st
        → arrives e.export_id ≡ true
        → Store.get s.catalog.store e.export_id ≡ some b
        → slot_of e.export_id s ≡ some slot
        → slot_of e.export_id
            (async_handle_state_event (rs_backend a) arrives true home exports entity_id s)
          ≡ some (apply_slot a.reads (export_states home e) slot).0
    unfolding async_handle_state_event find_by_entity get
    state_event_reflected exports entity_id s e b slot st n known uses has arrived stored here =
        let p : HaExport → Bool = λ y. y.enabled && uses_entity entity_id y in
        let (x, xs, states) = first_state e st has in
        subst
          (λ t.
            slot_of e.export_id (each (filter p exports) s) ≡ some (apply_slot a.reads t slot).0)
          (sym states)
          (each-own (filter p exports) s e b slot x xs (filter-NodupBy p exports n)
            (find-filter-some p exports e.export_id e known uses) states arrived stored here)
