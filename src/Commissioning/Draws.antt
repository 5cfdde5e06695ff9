-- ===== src/Commissioning/Draws.antt =====
-- What `generate` of bridge/src/matter/commissioning.rs draws.
use thatsmatter.Base.{
  ℕ, ◌≤◌, ◌≡◌, refl, true, false, not, List, [], ◌∷◌, some, arith, contains, any, All, ok,
  Option-cases, Bool-cases, inl, inr,
}
use thatsmatter.Commissioning.{
  CommissioningMaterial, is_valid, draw_passcode, generate, invalid_passcodes, passcode_min,
  passcode_max, discriminator_max,
}

-- The range that `gen_range` draws from.
abbrev pub InRange : ℕ → Type 0
InRange c = (passcode_min ≤ c) × (c ≤ passcode_max)

draw_passcode-allowed :
    (draws : List ℕ) (p : ℕ)
    → All InRange draws
    → draw_passcode draws ≡ some p
    → InRange p × (contains invalid_passcodes p ≡ false)
unfolding draw_passcode
draw_passcode-allowed [] p d h = absurd (ground arith)
draw_passcode-allowed (c ∷ draws) p (r, d) h = elim (Bool-cases (contains invalid_passcodes c)) [
  | inl bad ↦ draw_passcode-allowed draws p d (ground arith)
  | inr good ↦ (ground arith, ground arith)
]

pub draw_passcode-some :
    (draws : List ℕ)
    → any (λ c. not (contains invalid_passcodes c)) draws ≡ true
    → (p : ℕ) × (draw_passcode draws ≡ some p)
unfolding draw_passcode
draw_passcode-some [] h = absurd (ground arith)
draw_passcode-some (c ∷ draws) h = elim (Bool-cases (contains invalid_passcodes c)) [
  | inl bad ↦ let (p, e) = draw_passcode-some draws (ground arith) in (p, rw bad e)
  | inr good ↦ (c, rw good refl)
]

pub generate-some :
    (draws : List ℕ) (discriminator p : ℕ)
    → draw_passcode draws ≡ some p
    → generate draws discriminator ≡ ok (record { passcode = p; discriminator = discriminator })
unfolding generate
generate-some draws discriminator p e = rw (generate, e) refl

allowed-valid :
    (p discriminator : ℕ)
    → InRange p
    → contains invalid_passcodes p ≡ false
    → discriminator ≤ discriminator_max
    → is_valid (record { passcode = p; discriminator = discriminator }) ≡ true
unfolding is_valid
allowed-valid p discriminator r good b = rw good (ground arith)

pub generate-valid :
    (draws : List ℕ) (discriminator : ℕ) (m : CommissioningMaterial)
    → All InRange draws
    → discriminator ≤ discriminator_max
    → generate draws discriminator ≡ ok m
    → is_valid m ≡ true
unfolding generate is_valid
generate-valid draws discriminator m d b h = elim (Option-cases (draw_passcode draws)) [
  | inl n ↦ absurd (ground arith)
  | inr (p, e) ↦
      let (r, good) = draw_passcode-allowed draws p d e in
      let made : m ≡ record { passcode = p; discriminator = discriminator } = ground arith in
      rw made (allowed-valid p discriminator r good b)
]
