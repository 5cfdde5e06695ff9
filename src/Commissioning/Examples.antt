-- ===== src/Commissioning/Examples.antt =====
-- The material of bridge/src/matter/commissioning.rs on a first start.
use thatsmatter.Base.{
  ℕ, ◌≡◌, ◌≢◌, refl, sym, true, false, not, List, [], ◌∷◌, none, some, arith, any, contains, ok,
  err,
}
use thatsmatter.Commissioning.{
  CommissioningMaterial, Codec, Files, Io, is_valid, invalid_passcodes, load_or_generate,
  read_error,
}
use thatsmatter.Commissioning.Stable.{load_or_generate_stable, load_or_generate_total}

-- A file holds what was printed to it.
abbrev pub plain : Codec CommissioningMaterial
plain = record { to_string = λ m. some m; from_str = λ r. some r; round_trip = λ m r h. sym h }

abbrev pub working : Io
working = record { read = true; create_dir = true; write = true; rename = true }

abbrev pub no_file : Files CommissioningMaterial
no_file = record { stored = none; tmp = none }

-- The first draw is forbidden.
abbrev pub draws : List ℕ
draws = 11111111 ∷ 20202021 ∷ []

abbrev pub drawn : CommissioningMaterial
drawn = record { passcode = 20202021; discriminator = 3840 }

load_or_generate_stable_example :
    (is_valid drawn ≡ true)
    × ((later : Io) (others : List ℕ) (other : ℕ)
        → later.read ≡ true
        → load_or_generate plain later others other
            (load_or_generate plain working draws 3840 no_file).1
          ≡ (ok drawn, (load_or_generate plain working draws 3840 no_file).1))
unfolding load_or_generate
load_or_generate_stable_example =
    load_or_generate_stable plain working draws 3840 drawn no_file
      ((omega arith, omega arith), ((omega arith, omega arith), tt)) (omega arith) refl

load_or_generate_total_example :
    ((raw : CommissioningMaterial)
      → no_file.stored ≡ some raw
      → working.read ≡ false
      → load_or_generate plain working draws 3840 no_file ≡ (err read_error, no_file))
    × (any (λ c. not (contains invalid_passcodes c)) draws ≡ true
        → ((m : CommissioningMaterial) → plain.to_string m ≢ none)
        → working ≡ record { read = true; create_dir = true; write = true; rename = true }
        → (m : CommissioningMaterial) × ((load_or_generate plain working draws 3840 no_file).0
            ≡ ok m))
load_or_generate_total_example = load_or_generate_total plain working draws 3840 no_file
