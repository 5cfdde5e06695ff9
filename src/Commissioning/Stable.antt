-- ===== src/Commissioning/Stable.antt =====
-- Successive starts of `load_or_generate` of bridge/src/matter/commissioning.rs.
use thatsmatter.Base.{
  ℕ, ◌≤◌, ◌≡◌, ◌≢◌, refl, sym, ap, ◌∙◌, true, false, not, List, Option, none, some, arith, contains,
  any, All, Result, ok, err, Option-cases, Result-cases, Bool-cases, inl, inr,
}
use thatsmatter.Commissioning.{
  CommissioningMaterial, Codec, Files, Io, StartError, read_error, is_valid, usable, load, persist,
  draw_passcode, generate, generate_and_persist, with_loaded, load_or_generate, invalid_passcodes,
  discriminator_max,
}
use thatsmatter.Commissioning.Draws.{InRange, draw_passcode-some, generate-some, generate-valid}

usable-valid :
    (o : Option CommissioningMaterial) (m : CommissioningMaterial)
    → usable o ≡ some m
    → (o ≡ some m) × (is_valid m ≡ true)
unfolding usable
usable-valid none m h = absurd (ground arith)
usable-valid (some n) m h = elim (Bool-cases (is_valid n)) [
  | inl v ↦ let same : n ≡ m = ground arith in (ap some same, rw (sym same) v)
  | inr bad ↦ absurd (ground arith)
]

module _ {Raw : Type 0} (codec : Codec Raw) where
  persist-stored :
      (io : Io) (m : CommissioningMaterial) (files : Files Raw)
      → (persist codec io m files).0 ≡ ok tt
      → (raw : Raw) × ((persist codec io m files).1.stored ≡ some raw)
        × (codec.from_str raw ≡ some m)
  unfolding persist
  persist-stored io m files h = elim (Option-cases (codec.to_string m)) [
    | inl x ↦ absurd (ground arith)
    | inr (raw, p) ↦ (raw, ground arith, codec.round_trip m raw p)
  ]

  -- What a start that succeeded leaves: material that is valid, and stored.
  pub record Kept (files : Files Raw) (m : CommissioningMaterial) : Type 0 where
    pub valid : is_valid m ≡ true
    pub raw : Raw
    pub stored : files.stored ≡ some raw
    pub reads : codec.from_str raw ≡ some m

  load-Kept :
      (io : Io) (m : CommissioningMaterial) (files : Files Raw)
      → load codec io files ≡ ok (some m)
      → Kept files m
  unfolding load
  load-Kept io m files h = elim (Option-cases files.stored) [
    | inl x ↦ absurd (ground arith)
    | inr (raw, p) ↦
        let (reads, valid) = usable-valid (codec.from_str raw) m (ground arith) in
        record { valid = valid; raw = raw; stored = p; reads = reads }
  ]

  Kept-load :
      (io : Io) (m : CommissioningMaterial) (files : Files Raw)
      → io.read ≡ true
      → Kept files m
      → load codec io files ≡ ok (some m)
  unfolding load usable
  Kept-load io m files readable k = rw (k.stored, readable, k.reads, k.valid) refl

  generated :
      (io : Io) (draws : List ℕ) (discriminator : ℕ) (n : CommissioningMaterial) (files : Files Raw)
      → generate draws discriminator ≡ ok n
      → (persist codec io n files).0 ≡ ok tt
      → generate_and_persist codec io draws discriminator files
        ≡ (ok n, (persist codec io n files).1)
  unfolding generate_and_persist
  generated io draws discriminator n files e p = rw (e, p) refl

  persist-ok :
      (io : Io) (m : CommissioningMaterial) (raw : Raw) (files : Files Raw)
      → codec.to_string m ≡ some raw
      → io ≡ record { read = true; create_dir = true; write = true; rename = true }
      → (persist codec io m files).0 ≡ ok tt
  unfolding persist
  persist-ok io m raw files w good = rw (w, good) refl

  drawn_and_kept :
      (io : Io) (draws : List ℕ) (discriminator p : ℕ) (raw : Raw) (files : Files Raw)
      → draw_passcode draws ≡ some p
      → codec.to_string (record { passcode = p; discriminator = discriminator }) ≡ some raw
      → io ≡ record { read = true; create_dir = true; write = true; rename = true }
      → (generate_and_persist codec io draws discriminator files).0
        ≡ ok (record { passcode = p; discriminator = discriminator })
  drawn_and_kept io draws discriminator p raw files e w good =
      ap (λ x. x.0)
        (generated io draws discriminator _ files (generate-some draws discriminator p e)
          (persist-ok io _ raw files w good))

  generate-Kept :
      (io : Io) (draws : List ℕ) (discriminator : ℕ) (m : CommissioningMaterial) (files : Files Raw)
      → All InRange draws
      → discriminator ≤ discriminator_max
      → (generate_and_persist codec io draws discriminator files).0 ≡ ok m
      → Kept (generate_and_persist codec io draws discriminator files).1 m
  unfolding generate_and_persist
  generate-Kept io draws discriminator m files d b h =
      elim (Result-cases (generate draws discriminator)) [
        | inr (x, e) ↦ absurd (ground arith)
        | inl (n, e) ↦ elim (Result-cases (persist codec io n files).0) [
          | inr (x, p) ↦ absurd (ground arith)
          | inl (_, p) ↦
              let (raw, stored, reads) = persist-stored io n files p in
              let q : ok n ≡ ok m =
                sym (ap (λ x. x.0) (generated io draws discriminator n files e p)) ∙ h in
              let same : n ≡ m = ground arith in
              record {
                valid = rw (sym same) (generate-valid draws discriminator n d b e);
                raw = raw;
                stored = rw (generated io draws discriminator n files e p) stored;
                reads = rw (sym same) reads;
              }
        ]
      ]

  started :
      (io : Io) (draws : List ℕ) (discriminator : ℕ) (files : Files Raw)
      (r : Result StartError (Option CommissioningMaterial))
      → load codec io files ≡ r
      → load_or_generate codec io draws discriminator files
        ≡ with_loaded codec io r draws discriminator files
  unfolding load_or_generate
  started io draws discriminator files r e =
      ap (λ x. with_loaded codec io x draws discriminator files) e

  -- When a start returns material, that is in the range of the Matter specification and not
  -- forbidden, and every later start that can read the file returns it again and changes no file,
  -- whatever it would draw.
  pub load_or_generate_stable :
      (io : Io) (draws : List ℕ) (discriminator : ℕ) (m : CommissioningMaterial) (files : Files Raw)
      → All InRange draws
      → discriminator ≤ discriminator_max
      → (load_or_generate codec io draws discriminator files).0 ≡ ok m
      → (is_valid m ≡ true)
        × ((later : Io) (others : List ℕ) (other : ℕ)
            → later.read ≡ true
            → load_or_generate codec later others other
                (load_or_generate codec io draws discriminator files).1
              ≡ (ok m, (load_or_generate codec io draws discriminator files).1))
  unfolding load_or_generate
  load_or_generate_stable io draws discriminator m files d b h = (
    k.valid,
    λ later others other readable.
        started later others other (load_or_generate codec io draws discriminator files).1
          (ok (some m)) (Kept-load later m _ readable k),
  )
    where
      k : Kept (load_or_generate codec io draws discriminator files).1 m
      k = elim (Result-cases (load codec io files)) [
        | inr (x, e) ↦ absurd (ground arith)
        | inl (none, e) ↦ rw (started io draws discriminator files (ok none) e) (
            generate-Kept io draws discriminator m files d b
              (sym (ap (λ x. x.0) (started io draws discriminator files (ok none) e)) ∙ h))
        | inl (some n, e) ↦
            let q : ok n ≡ ok m =
              sym (ap (λ x. x.0) (started io draws discriminator files (ok (some n)) e)) ∙ h in
            let same : n ≡ m = ground arith in
            rw (started io draws discriminator files (ok (some n)) e)
              (load-Kept io m files (rw (sym same) e))
      ]

  load-fails :
      (files : Files Raw) (io : Io) (x : StartError) → load codec io files ≡ err x → io.read ≢ true
  unfolding load
  load-fails files io x e h = ground arith

  -- A file that cannot be read is an error, never a reason to draw again: no file changes. A file
  -- that is absent, or does not hold valid material, is not: if one of the draws is allowed and the
  -- file system and serde_json do their part, the start succeeds.
  pub load_or_generate_total :
      (io : Io) (draws : List ℕ) (discriminator : ℕ) (files : Files Raw)
      → ((raw : Raw)
          → files.stored ≡ some raw
          → io.read ≡ false
          → load_or_generate codec io draws discriminator files ≡ (err read_error, files))
        × (any (λ c. not (contains invalid_passcodes c)) draws ≡ true
            → ((m : CommissioningMaterial) → codec.to_string m ≢ none)
            → io ≡ record { read = true; create_dir = true; write = true; rename = true }
            → (m : CommissioningMaterial) × ((load_or_generate codec io draws discriminator files).0
                ≡ ok m))
  unfolding load_or_generate load
  load_or_generate_total io draws discriminator files = (
    λ raw e r. rw (e, r) refl,
    λ some_draw prints good. elim (Result-cases (load codec io files)) [
      | inr (x, e) ↦ absurd (load-fails files io x e (ap Io.read good))
      | inl (some n, e) ↦ (n, ap (λ x. x.0) (started io draws discriminator files (ok (some n)) e))
      | inl (none, e) ↦
          let (p, drawn) = draw_passcode-some draws some_draw in
          let n : CommissioningMaterial = record { passcode = p; discriminator = discriminator } in
          elim (Option-cases (codec.to_string n)) [
            | inl x ↦ absurd (prints n x)
            | inr (raw, w) ↦ (
              n,
              ap (λ x. x.0) (started io draws discriminator files (ok none) e)
                  ∙ drawn_and_kept io draws discriminator p raw files drawn w good,
            )
          ]
    ],
  )
