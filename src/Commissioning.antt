-- ===== src/Commissioning.antt =====
-- bridge/src/matter/commissioning.rs: the passcode and the discriminator of an installation, drawn
-- once and kept in `commissioning.json`. `Codec` stands for serde_json; the draws of the random
-- number generator are lists.
pub mod Draws
pub mod Stable
pub mod Examples
use thatsmatter.Base.{
  ℕ, ◌≤◌, ◌≡◌, refl, Bool, true, false, not, ◌&&◌, List, [], ◌∷◌, Option, none, some, arith, leb,
  if◌then◌else◌, contains, Result, ok, err, Exec, ◌>>=◌, ◌>>◌, pure, lift,
}

abbrev pub passcode_min : ℕ
passcode_min = 1

abbrev pub passcode_max : ℕ
passcode_max = 99999998

abbrev pub discriminator_max : ℕ
discriminator_max = 4095

abbrev pub invalid_passcodes : List ℕ
invalid_passcodes =
    0 ∷ 11111111 ∷ 22222222 ∷ 33333333 ∷ 44444444 ∷ 55555555 ∷ 66666666 ∷ 77777777 ∷ 88888888
    ∷ 99999999 ∷ 12345678 ∷ 87654321 ∷ []

pub record CommissioningMaterial : Type 0 where
  pub passcode : ℕ
  pub discriminator : ℕ

unfoldable pub is_valid : CommissioningMaterial → Bool
is_valid m =
    leb passcode_min m.passcode
    && leb m.passcode passcode_max
    && not (contains invalid_passcodes m.passcode)
    && leb m.discriminator discriminator_max

-- serde_json for the file. What is printed parses back.
pub record Codec (Raw : Type 0) : Type 0 where
  pub to_string : CommissioningMaterial → Option Raw
  pub from_str : Raw → Option CommissioningMaterial
  pub round_trip :
      (m : CommissioningMaterial) (r : Raw) → to_string m ≡ some r → from_str r ≡ some m

-- `commissioning.json` and the file that is renamed to it.
pub record Files (Raw : Type 0) : Type 0 where
  pub stored : Option Raw
  pub tmp : Option Raw

-- Whether each call of the file system succeeds.
pub record Io : Type 0 where
  pub read : Bool
  pub create_dir : Bool
  pub write : Bool
  pub rename : Bool

-- `still_drawing`: the draws that are given end before the loop does.
pub data StartError : Type 0 where
  read_error write_error json_error still_drawing : StartError

-- What is stored is used if it parses and is valid.
unfoldable pub usable : Option CommissioningMaterial → Option CommissioningMaterial
unfolding is_valid
usable none = none
usable (some m) = if is_valid m then some m else none

module _ {Raw : Type 0} (codec : Codec Raw) (io : Io) where
  unfoldable pub load : Files Raw → Result StartError (Option CommissioningMaterial)
  unfolding usable
  load files = elim files.stored [
    | none ↦ ok none
    | some raw ↦ if io.read then ok (usable (codec.from_str raw)) else err read_error
  ]

  unfoldable pub step : Bool → (Files Raw → Files Raw) → Exec (Files Raw) StartError (Unit {0})
  step true f files = (ok tt, f files)
  step false f files = (err write_error, files)

  unfoldable pub printed : Option Raw → Exec (Files Raw) StartError Raw
  printed none files = (err json_error, files)
  printed (some raw) files = (ok raw, files)

  unfoldable pub persist : CommissioningMaterial → Exec (Files Raw) StartError (Unit {0})
  unfolding step printed
  persist m = do
    step io.create_dir (λ f. f)
    raw ← printed (codec.to_string m)
    step io.write (λ f. record f { tmp = some raw })
    step io.rename (λ f. record f { stored = f.tmp; tmp = none })

-- The loop of `generate`: the first draw that is not forbidden.
unfoldable pub draw_passcode : List ℕ → Option ℕ
draw_passcode [] = none
draw_passcode (c ∷ draws) =
    let rest = draw_passcode draws in if contains invalid_passcodes c then rest else some c

unfoldable pub generate : List ℕ → ℕ → Result StartError CommissioningMaterial
unfolding draw_passcode
generate draws discriminator = elim (draw_passcode draws) [
  | none ↦ err still_drawing
  | some p ↦ ok (record { passcode = p; discriminator = discriminator })
]

module _ {Raw : Type 0} (codec : Codec Raw) (io : Io) where
  unfoldable pub generate_and_persist :
      List ℕ → ℕ → Exec (Files Raw) StartError CommissioningMaterial
  unfolding generate persist
  generate_and_persist draws discriminator = do
    m ← lift (generate draws discriminator)
    persist codec io m
    pure m

  unfoldable pub with_loaded :
      Result StartError (Option CommissioningMaterial)
      → List ℕ
      → ℕ
      → Exec (Files Raw) StartError CommissioningMaterial
  unfolding generate_and_persist
  with_loaded (err e) draws discriminator files = (err e, files)
  with_loaded (ok (some m)) draws discriminator files = (ok m, files)
  with_loaded (ok none) draws discriminator files = generate_and_persist draws discriminator files

  unfoldable pub load_or_generate : List ℕ → ℕ → Exec (Files Raw) StartError CommissioningMaterial
  unfolding load with_loaded
  load_or_generate draws discriminator files =
      with_loaded (load codec io files) draws discriminator files
