-- ===== src/Startup/Synced.antt =====
-- What the start of bridge/src/main.rs has done once it gives the bridge to the control plane.
use thatsmatter.Base.{
  ◌+◌, ◌≤◌, ◌≡◌, refl, true, false, Option, none, arith, Result, ok, err, Result-cases, Bool-cases,
  inl, inr, ◌⊎◌,
}
use thatsmatter.Base.Text.{Text}
use thatsmatter.Catalog.Store.{CatalogStore, list}
use thatsmatter.Catalog.Persist.{Files}
use thatsmatter.Catalog.Persist
use thatsmatter.Catalog.Load.{load_or_new}
use thatsmatter.Commissioning
use thatsmatter.Commissioning.{CommissioningMaterial}
use thatsmatter.Ipc.{BackendKind, dev, rs_matter}
use thatsmatter.Lan.{pin_of}
use thatsmatter.Matter.Plane
use thatsmatter.Matter.Plane.{ExportPlane}
use thatsmatter.Pairing.{Codes, pairing_material_for}
use thatsmatter.RsMatter
use thatsmatter.RsMatter.Threads.{StartFailure, Process}
use thatsmatter.Dev
use thatsmatter.RsMatter.{RsMatterBackend}
use thatsmatter.RsMatter.Start.{thread_steps}
use thatsmatter.RsMatter.Start.Outcome.{Status, start_runs, later-Status}
use thatsmatter.RsMatter.Checks.{Prepared}
use thatsmatter.Startup.{
  Config, Machine, Bridge, dev_bridge, rs_bridge, BootError, ensure_loopback, is_loopback, boot,
  boot_dev, boot_rs, rs_started, boot_backend, told, or_boot, no_catalog, made, commissioned,
  dir_result,
}

module _ {V Raw : Type 0} (m : Machine V) where
  -- The bridge has the catalog, its backend was given the exports of the catalog, and it runs unless
  -- it is of the Matter stack and the stack thread has come to its fifth step.
  abbrev pub IsSynced : Config → CatalogStore → Bridge V Raw → Type 0
  IsSynced cfg store (dev_bridge s) =
      (cfg.matter_backend ≡ dev)
      × (s.catalog.store ≡ store)
      × (s.backend.running ≡ true)
      × (s.backend.exports ≡ list store)
  IsSynced cfg store (rs_bridge s) =
      (cfg.matter_backend ≡ rs_matter)
      × (s.catalog.store ≡ store)
      × (((s.backend.running ≡ true) × (s.backend.error ≡ none))
          ⊎ ((s.backend.running ≡ false) × (5 ≤ m.pace.before + m.after)))
      × Prepared m.host (pin_of cfg.mdns_interface)
      × ((plane : ExportPlane) × (s.backend.plane
            ≡ Plane.set_exports m.answers.random (list store) plane))

  abbrev OkSynced : Config → CatalogStore → Result BootError (Bridge V Raw) → Type 0
  OkSynced cfg store (ok bridge) = IsSynced cfg store bridge
  OkSynced cfg store (err e) = Unit

  module _ (pairing : Codes) (cfg : Config) (material : CommissioningMaterial)
      (store : CatalogStore) (files : Files Raw) where
    dev-OkSynced :
        cfg.matter_backend ≡ dev → OkSynced cfg store (boot_dev m pairing material store files)
    unfolding boot_dev told Dev.start Dev.open_window
    dev-OkSynced k = elim (Bool-cases m.backend_dir) [
      | inr f ↦ rw f tt
      | inl t ↦
          elim (Bool-cases (
            Dev.is_open m.now
              (Dev.new {V = V} m.now (pairing_material_for pairing material)).window)) [
                | inl o ↦ rw (t, o) (k, refl, refl, refl)
                | inr c ↦ rw (t, c) (k, refl, refl, refl)
              ]
    ]

    started-OkSynced :
        (mdns_interface : Option Text) (out : Result StartFailure (Unit {0}) × Process)
        → cfg.matter_backend ≡ rs_matter
        → (out.0 ≡ ok tt → Prepared m.host (pin_of cfg.mdns_interface))
        → (out.0 ≡ ok tt
            → Status m.host mdns_interface
                (m.pace.before + m.after)
                (thread_steps m.host mdns_interface m.after out.1))
        → OkSynced cfg store (rs_started m pairing mdns_interface store files out)
    unfolding rs_started told
    started-OkSynced mdns_interface (err e, p) k ready status = tt
    started-OkSynced mdns_interface (ok u, p) k ready status =
        (k, refl, status refl, ready refl, (_, refl))

    rs-OkSynced :
        cfg.matter_backend ≡ rs_matter
        → OkSynced cfg store (boot_rs m pairing cfg.mdns_interface material store files)
    unfolding boot_rs RsMatter.new
    rs-OkSynced k =
        let b = RsMatter.new m.random pairing cfg.mdns_interface material in
        let dir = dir_result m.backend_dir in
        started-OkSynced b.mdns_interface _ k
          (λ h. ((start_runs m.host b.mdns_interface b dir m.spawned m.pace).2 h).0)
          (later-Status m.host b.mdns_interface b dir m.spawned m.pace m.after)

    backend-OkSynced :
        (kind : BackendKind)
        → cfg.matter_backend ≡ kind
        → OkSynced cfg store (boot_backend m pairing kind cfg.mdns_interface material store files)
    unfolding boot_backend
    backend-OkSynced dev k = dev-OkSynced k
    backend-OkSynced rs_matter k = rs-OkSynced k

loopback-ok :
    (cfg : Config)
    → ensure_loopback cfg ≡ ok tt
    → (cfg.allow_non_loopback ≡ true) ⊎ (is_loopback cfg.listen.ip ≡ true)
unfolding ensure_loopback
loopback-ok cfg h = elim (Bool-cases cfg.allow_non_loopback) [
  | inl t ↦ inl t
  | inr f ↦ elim (Bool-cases (is_loopback cfg.listen.ip)) [
    | inl t ↦ inr t
    | inr g ↦ absurd (ground (arith, rw (f, g) at h))
  ]
]

or_boot-ok :
    {E A : Type 0} (fail : E → BootError) (r : Result E A) (a : A)
    → or_boot fail r ≡ ok a
    → r ≡ ok a
unfolding or_boot
or_boot-ok fail (ok b) a h = ground (arith, h)
or_boot-ok fail (err e) a h = ground (arith, h)

module _ {V Raw CommRaw : Type 0} (m : Machine V) (pairing : Codes) (codec : Persist.Codec Raw)
    (comm : Commissioning.Codec CommRaw) where
  -- When the process gets as far as its control plane: the address that it listens on is a loopback
  -- one, or the configuration allows others; the catalog is the one loaded from the data directory;
  -- the backend is of the configured kind and was given exactly the exports of that catalog; the
  -- development backend runs; and behind the Matter backend the checks of the ports, the stack's
  -- startup and the LAN interface have passed, and the status says running, without an error,
  -- unless the stack thread has come to its fifth step, at which it clears the status since the
  -- stack has left.
  pub boot-IsSynced :
      (cfg : Config) (files : Files Raw) (before : Commissioning.Files CommRaw)
      (bridge : Bridge V Raw)
      → (boot m pairing codec comm cfg files before).0 ≡ ok bridge
      → ((cfg.allow_non_loopback ≡ true) ⊎ (is_loopback cfg.listen.ip ≡ true))
        × ((store : CatalogStore) × (load_or_new codec m.load files cfg.bridge_name ≡ ok store)
            × IsSynced m cfg store bridge)
  unfolding boot
  boot-IsSynced cfg files before bridge h = elim (Result-cases (ensure_loopback cfg)) [
    | inr (e, l) ↦ absurd (ground (arith, rw l at h))
    | inl (u, l) ↦ elim (Result-cases (made m.create_data_dir)) [
      | inr (e, d) ↦ absurd (ground (arith, rw (l, d) at h))
      | inl (u', d) ↦
          elim (Result-cases
            (or_boot no_catalog (load_or_new codec m.load files cfg.bridge_name))) [
              | inr (e, c) ↦ absurd (ground (arith, rw (l, d, c) at h))
              | inl (store, c) ↦ elim (Result-cases (commissioned m comm before).0) [
                | inr (e, g) ↦ absurd (ground (arith, rw (l, d, c, g) at h))
                | inl (material, g) ↦
                    let booted : boot_backend m pairing cfg.matter_backend cfg.mdns_interface
                          material store files
                        ≡ ok bridge =
                      rw (l, d, c, g) at h in
                    let synced : OkSynced m cfg store (
                        boot_backend m pairing cfg.matter_backend cfg.mdns_interface material store
                          files) =
                      backend-OkSynced m pairing cfg material store files cfg.matter_backend refl in
                    (
                      loopback-ok cfg l,
                      (store, or_boot-ok no_catalog _ store c, rw booted at synced),
                    )
              ]
            ]
    ]
  ]
