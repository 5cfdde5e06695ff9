-- ===== src/Matter/Apply/Shown.antt =====
-- What Home Assistant's states make of an endpoint of bridge/src/matter/export_plane.rs, told by
-- the words of its primary entity's state.
pub mod Cover
use thatsmatter.Base.{
  ◌≡◌, ◌≢◌, refl, Bool, true, false, not, List, [], ◌∷◌, Option, none, some, arith, any, find, ap,
  Bool-cases, inl, inr,
}
use thatsmatter.Base.Text.{Text, codes, text_eq, trim, to_ascii_lowercase}
use thatsmatter.Catalog.Model.{Uuid, Export, HaStateValue, is_on_off_capable}
use thatsmatter.Matter.OnOffMap.{primary_state, state_on, ha_state_is_on, on_off_from_states}
use thatsmatter.Matter.WindowCovering.{ValueReads, ha_cover_from_state, state_value_from_ha_on}
use thatsmatter.Matter.Slot.{
  SlotKind, CoverState, ExportSlot, next_version, store_on, store_closed, store_occupied,
  apply_cover_ha, apply_motion, mark_functional_changed,
}
use thatsmatter.Matter.Plane.{ExportPlane, slot_for}
use thatsmatter.Matter.Apply.{
  apply_slot, apply_kind, store_known, cover_known, primary_ha_on, apply_state,
}
use thatsmatter.Matter.Apply.Echo.{apply_state-slot, apply_kind-Tells}
use thatsmatter.Matter.Apply.Shown.Cover.{Moved, motion_by, apply_motion-Moved}

abbrev is_one_of : List Text → Text → Bool
is_one_of words w = any (text_eq w) words

abbrev says_on : Text → Bool
says_on w =
    is_one_of
      (codes "on" ∷ codes "true" ∷ codes "1" ∷ codes "open" ∷ codes "home" ∷ codes "locked" ∷ []) w

abbrev says_off : Text → Bool
says_off w =
    is_one_of
      (codes "off"
        ∷ codes "false"
        ∷ codes "0"
        ∷ codes "closed"
        ∷ codes "not_home"
        ∷ codes "unlocked"
        ∷ [])
      w

-- A word of either list decides, and any other changes nothing.
abbrev Switched : Text → (Bool → SlotKind) → SlotKind → SlotKind → Type 0
Switched w shows k k' =
    (says_on w ≡ true → k' ≡ shows true)
    × (says_on w ≡ false → says_off w ≡ true → k' ≡ shows false)
    × (says_on w ≡ false → says_off w ≡ false → k' ≡ k)

-- A slot that keeps its kind is the same; one that does not owes a report, its functional version
-- has moved, and nothing else of it has changed.
abbrev pub Marked : ExportSlot → ExportSlot → Type 0
Marked slot slot' =
    (slot'.kind ≡ slot.kind → slot' ≡ slot)
    × (slot'.kind ≢ slot.kind
        → slot' ≡ record slot {
          kind = slot'.kind;
          versions = record slot.versions { functional = next_version slot.versions.functional };
          pending = record slot.pending { functional = true };
        })

module _ {V : Type 0} (reads : ValueReads V) where
  abbrev word : HaStateValue V → Text
  word st = to_ascii_lowercase (trim st.state)

  abbrev KindShown : Export → HaStateValue V → SlotKind → SlotKind → Type 0
  KindShown e st (SlotKind.on_off b) k' =
      (is_on_off_capable e.type_ ≡ true
        → Switched (word st) (λ v. SlotKind.on_off v) (SlotKind.on_off b) k')
      × (is_on_off_capable e.type_ ≡ false → k' ≡ SlotKind.on_off b)
  -- A contact that is on is open.
  KindShown e st (SlotKind.contact b) k' =
      Switched (word st) (λ v. SlotKind.contact (not v)) (SlotKind.contact b) k'
  KindShown e st (SlotKind.motion b) k' =
      Switched (word st) (λ v. SlotKind.motion v) (SlotKind.motion b) k'
  KindShown e st (SlotKind.cover c) k' =
      (c' : CoverState) × (k' ≡ SlotKind.cover c')
      × Moved (word st) (ha_cover_from_state reads st).position c c'

  -- By the first state of the primary entity, if there is one.
  abbrev pub Shown : Export → List (HaStateValue V) → SlotKind → SlotKind → Type 0
  Shown e states k k' =
      ((st : HaStateValue V)
        → find (λ s. text_eq s.entity_id e.primary_entity_id) states ≡ some st
        → KindShown e st k k')
      × (find (λ s. text_eq s.entity_id e.primary_entity_id) states ≡ none → k' ≡ k)

  module _ (e : Export) (states : List (HaStateValue V)) where
    absent-kind :
        (k : SlotKind)
        → find (λ s. text_eq s.entity_id e.primary_entity_id) states ≡ none
        → (apply_kind reads e states k).0 ≡ k
    unfolding apply_kind store_known cover_known on_off_from_states primary_ha_on state_on
        primary_state
    absent-kind (SlotKind.on_off b) h = rw h (ground arith)
    absent-kind (SlotKind.contact b) h = rw h refl
    absent-kind (SlotKind.motion b) h = rw h refl
    absent-kind (SlotKind.cover c) h = rw h refl

    stored :
        (store : Bool → SlotKind → SlotKind × Bool) (shows : Bool → SlotKind) (k : SlotKind)
        (st : HaStateValue V)
        → ((v : Bool) → (store v k).0 ≡ shows v)
        → Switched (word st) shows k (store_known store (ha_state_is_on st.state) k).0
    unfolding store_known ha_state_is_on
    stored store shows k st h = elim (Bool-cases (says_on (word st))) [
      | inl on ↦ rw on (λ x. h true, λ x. cc, λ x. cc)
      | inr not_on ↦ elim (Bool-cases (says_off (word st))) [
        | inl off ↦ rw (not_on, off) (λ x. cc, λ x y. h false, λ x y. cc)
        | inr neither ↦ rw (not_on, neither) (λ x. cc, λ x y. cc, λ x y. refl)
      ]
    ]

    motion_lem : (st : HaStateValue V) → (ha_cover_from_state reads st).motion ≡ motion_by (word st)
    unfolding ha_cover_from_state
    motion_lem st = refl

    covered :
        (st : HaStateValue V) (c : CoverState)
        → KindShown e st
            (SlotKind.cover c)
            (apply_cover_ha (ha_cover_from_state reads st) (SlotKind.cover c)).0
    unfolding apply_cover_ha
    covered st c =
        let ha = ha_cover_from_state reads st in
        (
          (apply_motion ha.motion ha.position c).0,
          refl,
          rw (motion_lem st) (apply_motion-Moved (word st) ha.position c),
        )

    found-Shown :
        (k : SlotKind) (st : HaStateValue V)
        → find (λ s. text_eq s.entity_id e.primary_entity_id) states ≡ some st
        → KindShown e st k (apply_kind reads e states k).0
    unfolding apply_kind cover_known on_off_from_states primary_ha_on state_on primary_state
        store_known store_on store_closed store_occupied state_value_from_ha_on
    found-Shown (SlotKind.on_off b) st h = (
      λ t. rw (h, t) (stored store_on (λ v. SlotKind.on_off v) (SlotKind.on_off b) st (λ v. refl)),
      λ f. rw f refl,
    )
    found-Shown (SlotKind.contact b) st h = rw h (
        stored (λ on. store_closed (not on)) (λ v. SlotKind.contact (not v)) (SlotKind.contact b) st
          (λ v. refl))
    found-Shown (SlotKind.motion b) st h =
        rw h (stored store_occupied (λ v. SlotKind.motion v) (SlotKind.motion b) st (λ v. refl))
    found-Shown (SlotKind.cover c) st h = rw h (covered st c)

    apply_kind-Shown : (k : SlotKind) → Shown e states k (apply_kind reads e states k).0
    apply_kind-Shown k = (found-Shown k, absent-kind k)

  apply_slot-Shown :
      (states : List (HaStateValue V)) (slot : ExportSlot)
      → Shown slot.source states slot.kind (apply_slot reads states slot).0.kind
        × Marked slot (apply_slot reads states slot).0
  unfolding apply_slot mark_functional_changed
  apply_slot-Shown states slot =
      let shown = apply_kind-Shown slot.source states slot.kind in
      let tells = apply_kind-Tells reads states slot.source slot.kind in
      elim (Bool-cases (apply_kind reads slot.source states slot.kind).1) [
        | inl moved ↦ rw moved (shown, (λ same. cc (moved, tells.1 same), λ other. refl))
        | inr still ↦
            let same = tells.0 still in
            rw still
              (shown, (λ x. ap (λ k. record slot { kind = k }) same, λ other. absurd (other same)))
      ]

  -- When Home Assistant's states are applied to a bridged export, its slot shows what the first
  -- state of its primary entity says: an on-off slot of a capable type, a contact, which is open
  -- when on, or a motion sensor takes the value that the word says, a cover moves as its word and
  -- its position say, and a word of neither value, or no state, changes nothing. If that is another
  -- kind than before, the slot owes a report and its functional version has moved; nothing else of
  -- the slot changes, nor does any other slot.
  pub apply_state-Shown :
      (states : List (HaStateValue V)) (id : Uuid) (plane : ExportPlane) (slot : ExportSlot)
      → slot_for id plane.slots ≡ some slot
      → (slot' : ExportSlot) × (slot_for id (apply_state reads id states plane).0.slots
          ≡ some slot')
        × Shown slot.source states slot.kind slot'.kind
        × Marked slot slot'
        × ((other : Uuid)
            → other ≢ id
            → slot_for other (apply_state reads id states plane).0.slots
              ≡ slot_for other plane.slots)
  apply_state-Shown states id plane slot h =
      let (own, others) = apply_state-slot reads states id plane slot h in
      let (shown, marked) = apply_slot-Shown states slot in
      ((apply_slot reads states slot).0, own, shown, marked, others)
