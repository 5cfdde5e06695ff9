-- ===== src/Matter/Apply/Shown/Cover.antt =====
-- What a state of Home Assistant makes of a cover of bridge/src/matter/export_plane.rs.
use thatsmatter.Base.{
  ℕ, ◌<◌, ◌≤◌, ◌≡◌, true, false, Option, none, some, arith, Bool-cases, inl, inr, if◌then◌else◌,
}
use thatsmatter.Base.Text.{Text, codes, text_eq}
use thatsmatter.Matter.WindowCovering.{CoverMotion, opening, closing, stopped}
use thatsmatter.Matter.Slot.{CoverState, apply_motion}

-- A reported position is taken over. A cover that opens or closes moves and keeps a target ahead of
-- it, or else aims for the end; one that does neither rests, at its target if it reports a position.
abbrev pub Moved : Text → Option ℕ → CoverState → CoverState → Type 0
Moved w reported c c' =
    ((p : ℕ) → reported ≡ some p → c'.position ≡ p)
    × (reported ≡ none → c'.position ≡ c.position)
    × (text_eq w (codes "opening") ≡ true
        → (c'.moving ≡ true)
          × (c.position < c.target → c'.target ≡ c.target)
          × (c.target ≤ c.position → c'.target ≡ 100))
    × (text_eq w (codes "opening") ≡ false
        → text_eq w (codes "closing") ≡ true
        → (c'.moving ≡ true)
          × (c.target < c.position → c'.target ≡ c.target)
          × (c.position ≤ c.target → c'.target ≡ 0))
    × (text_eq w (codes "opening") ≡ false
        → text_eq w (codes "closing") ≡ false
        → (c'.moving ≡ false)
          × ((p : ℕ) → reported ≡ some p → c'.target ≡ p)
          × (reported ≡ none → c'.target ≡ c.target))

opening-Moves :
    (o : Option ℕ) (c : CoverState)
    → let c' = (apply_motion opening o c).0 in
      ((p : ℕ) → o ≡ some p → c'.position ≡ p)
      × (o ≡ none → c'.position ≡ c.position)
      × (c'.moving ≡ true)
      × (c.position < c.target → c'.target ≡ c.target)
      × (c.target ≤ c.position → c'.target ≡ 100)
unfolding apply_motion
opening-Moves none c = ground arith
opening-Moves (some p) c = ground arith

closing-Moves :
    (o : Option ℕ) (c : CoverState)
    → let c' = (apply_motion closing o c).0 in
      ((p : ℕ) → o ≡ some p → c'.position ≡ p)
      × (o ≡ none → c'.position ≡ c.position)
      × (c'.moving ≡ true)
      × (c.target < c.position → c'.target ≡ c.target)
      × (c.position ≤ c.target → c'.target ≡ 0)
unfolding apply_motion
closing-Moves none c = ground arith
closing-Moves (some p) c = ground arith

stopped-Moves :
    (o : Option ℕ) (c : CoverState)
    → let c' = (apply_motion stopped o c).0 in
      ((p : ℕ) → o ≡ some p → c'.position ≡ p)
      × (o ≡ none → c'.position ≡ c.position)
      × (c'.moving ≡ false)
      × ((p : ℕ) → o ≡ some p → c'.target ≡ p)
      × (o ≡ none → c'.target ≡ c.target)
unfolding apply_motion
stopped-Moves none c = ground arith
stopped-Moves (some p) c = ground arith

abbrev pub motion_by : Text → CoverMotion
motion_by w =
    if text_eq w (codes "opening")
    then opening
    else if text_eq w (codes "closing")
    then closing
    else stopped

pub apply_motion-Moved :
    (w : Text) (o : Option ℕ) (c : CoverState) → Moved w o c (apply_motion (motion_by w) o c).0
apply_motion-Moved w o c = elim (Bool-cases (text_eq w (codes "opening"))) [
  | inl opens ↦
      let (a, b, x, y, z) = opening-Moves o c in rw opens (a, b, λ h. (x, y, z), λ h. cc, λ h. cc)
  | inr not_opens ↦ elim (Bool-cases (text_eq w (codes "closing"))) [
    | inl closes ↦
        let (a, b, x, y, z) = closing-Moves o c in
        rw (not_opens, closes) (a, b, λ h. cc, λ h k. (x, y, z), λ h k. cc)
    | inr rests ↦
        let (a, b, x, y, z) = stopped-Moves o c in
        rw (not_opens, rests) (a, b, λ h. cc, λ h k. cc, λ h k. (x, y, z))
  ]
]
