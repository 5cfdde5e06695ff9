-- ===== src/Startup.antt =====
-- The start of the process, bridge/src/main.rs with bridge/src/config.rs: what is read and started
-- before the control plane listens. `Machine` is what the operating system and the clock answer, and
-- how far the stack thread gets meanwhile: `pace` for the start, `after` for the time after it.
pub mod Synced
pub mod Restart
mod Examples
use thatsmatter.Base.{
  ℕ, ◌≡◌, refl, Bool, true, false, not, ◌&&◌, List, [], ◌∷◌, Option, none, some, arith, ◌==◌,
  if◌then◌else◌, Result, ok, err, Exec, ◌>>=◌, ◌>>◌, pure, lift,
}
use thatsmatter.Base.Text.{Text, codes}
use thatsmatter.Catalog.Model.{Uuid}
use thatsmatter.Catalog.Store.{CatalogError, CatalogStore, list}
use thatsmatter.Catalog.Persist.{Files}
use thatsmatter.Catalog.Persist
use thatsmatter.Catalog.Load.{LoadIo, load_or_new}
use thatsmatter.Commissioning
use thatsmatter.Commissioning.{CommissioningMaterial, load_or_generate}
use thatsmatter.Dev
use thatsmatter.Dev.{DevMatterBackend, dev_backend}
use thatsmatter.Ipc.{BackendKind, dev, rs_matter, Backend, AppState}
use thatsmatter.Lan.{Ipv4Addr, Ipv6Addr}
use thatsmatter.Pairing.{Codes, pairing_material_for}
use thatsmatter.RsMatter
use thatsmatter.RsMatter.{RsMatterBackend, Host}
use thatsmatter.RsMatter.Backend.{Answers, rs_backend}
use thatsmatter.RsMatter.Threads.{StartFailure, Process, about_to_start}
use thatsmatter.RsMatter.Start
use thatsmatter.RsMatter.Start.{Pace, thread_steps}

unfoldable pub as_wire_str : BackendKind → Text
as_wire_str dev = codes "dev"
as_wire_str rs_matter = codes "rs_matter"

pub data IpAddr : Type 0 where
  v4 : Ipv4Addr → IpAddr
  v6 : Ipv6Addr → IpAddr

pub record SocketAddr : Type 0 where
  pub ip : IpAddr
  pub port : ℕ

-- `std::net::IpAddr::is_loopback`.
unfoldable pub is_loopback : IpAddr → Bool
is_loopback (v4 i) = i.a == 127
is_loopback (v6 i) =
    i.s0 == 0
    && i.s1 == 0
    && i.s2 == 0
    && i.s3 == 0
    && i.s4 == 0
    && i.s5 == 0
    && i.s6 == 0
    && i.s7 == 1

-- `data_dir` is the files that it holds.
pub record Config : Type 0 where
  pub listen : SocketAddr
  pub bridge_name : Text
  pub matter_backend : BackendKind
  pub allow_non_loopback : Bool
  pub mdns_interface : Option Text

pub data BootError : Type 0 where
  not_loopback no_data_dir : BootError
  no_catalog : CatalogError → BootError
  no_commissioning : Commissioning.StartError → BootError
  backend_failed : Text → BootError
  stack_failed : StartFailure → BootError

unfoldable pub ensure_loopback : Config → Result BootError (Unit {0})
unfolding is_loopback
ensure_loopback cfg =
    if cfg.allow_non_loopback
    then ok tt
    else if not (is_loopback cfg.listen.ip)
    then err not_loopback
    else ok tt

pub record Machine (V : Type 0) : Type 0 where
  pub create_data_dir : Bool
  pub load : LoadIo
  pub commissioning : Commissioning.Io
  pub draws : List ℕ
  pub discriminator : ℕ
  pub now : ℕ
  pub random : ℕ
  pub backend_dir : Bool
  pub spawned : Bool
  pub pace : Pace
  pub after : ℕ
  pub host : Host
  pub answers : Answers V

-- The application's state, whose backend is one of the two.
pub data Bridge (V Raw : Type 0) : Type 0 where
  dev_bridge : AppState Raw (DevMatterBackend V) → Bridge V Raw
  rs_bridge : AppState Raw RsMatterBackend → Bridge V Raw

unfoldable pub or_boot : {E A : Type 0} → (E → BootError) → Result E A → Result BootError A
or_boot fail (ok a) = ok a
or_boot fail (err e) = err (fail e)

unfoldable pub made : Bool → Result BootError (Unit {0})
made true = ok tt
made false = err no_data_dir

unfoldable pub dir_result : Bool → Result Text (Unit {0})
dir_result true = ok tt
dir_result false = err []

module _ {V CommRaw : Type 0} (m : Machine V) where
  -- The commissioning material, which either backend's `new` loads first.
  unfoldable pub commissioned :
      Commissioning.Codec CommRaw
      → Exec (Commissioning.Files CommRaw) BootError CommissioningMaterial
  unfolding or_boot
  commissioned comm files =
      let (r, files') = load_or_generate comm m.commissioning m.draws m.discriminator files in
      (or_boot no_commissioning r, files')

module _ {V Raw : Type 0} (m : Machine V) (pairing : Codes) where
  -- `set_exports` with the catalog's list, and `AppState::new`.
  unfoldable pub told :
      {B : Type 0} → Backend V B → CatalogStore → Files Raw → B → Result Text (AppState Raw B)
  told backend store files b =
      let (r, b') = backend.set_exports (list store) b in
      elim r [
        | err e ↦ err e
        | ok u ↦ ok (record { catalog = record { store = store; files = files }; backend = b' })
      ]

  unfoldable pub boot_dev :
      CommissioningMaterial → CatalogStore → Files Raw → Result BootError (Bridge V Raw)
  unfolding told or_boot
  boot_dev material store files =
      let (r, b) =
        Dev.start m.now m.backend_dir (Dev.new m.now (pairing_material_for pairing material)) in
      elim r [
        | err e ↦ err (backend_failed e)
        | ok u ↦ elim (told (dev_backend V m.now) store files b) [
          | err e ↦ err (backend_failed e)
          | ok s ↦ ok (dev_bridge s)
        ]
      ]

  -- The end of the branch of the Matter stack, once `start` has returned. The thread goes on
  -- meanwhile; its steps and `set_exports` change different fields.
  unfoldable pub rs_started :
      Option Text
      → CatalogStore
      → Files Raw
      → Result StartFailure (Unit {0}) × Process
      → Result BootError (Bridge V Raw)
  unfolding told
  rs_started mdns_interface store files (err e, p) = err (stack_failed e)
  rs_started mdns_interface store files (ok u, p) =
      let q = thread_steps m.host mdns_interface m.after p in
      elim (told (rs_backend m.answers) store files q.backend) [
        | err e ↦ err (backend_failed e)
        | ok s ↦ ok (rs_bridge s)
      ]

  unfoldable pub boot_rs :
      Option Text
      → CommissioningMaterial
      → CatalogStore
      → Files Raw
      → Result BootError (Bridge V Raw)
  unfolding rs_started dir_result
  boot_rs mdns_interface material store files =
      let b = RsMatter.new m.random pairing mdns_interface material in
      rs_started b.mdns_interface store files (
        RsMatter.Start.start m.host b.mdns_interface (dir_result m.backend_dir) m.spawned m.pace
          (about_to_start b))

  unfoldable pub boot_backend :
      BackendKind
      → Option Text
      → CommissioningMaterial
      → CatalogStore
      → Files Raw
      → Result BootError (Bridge V Raw)
  unfolding boot_dev boot_rs
  boot_backend dev mdns_interface material store files = boot_dev material store files
  boot_backend rs_matter mdns_interface material store files =
      boot_rs mdns_interface material store files

  -- `main` up to `ipc::serve`, which gets the bridge. The state is the commissioning file.
  unfoldable pub boot :
      {CommRaw : Type 0}
      → Persist.Codec Raw
      → Commissioning.Codec CommRaw
      → Config
      → Files Raw
      → Exec (Commissioning.Files CommRaw) BootError (Bridge V Raw)
  unfolding boot_backend ensure_loopback made or_boot commissioned
  boot codec comm cfg files = do
    lift (ensure_loopback cfg)
    lift (made m.create_data_dir)
    store ← lift (or_boot no_catalog (load_or_new codec m.load files cfg.bridge_name))
    material ← commissioned m comm
    lift (boot_backend cfg.matter_backend cfg.mdns_interface material store files)
