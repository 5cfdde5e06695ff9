-- ===== src/RsMatter.antt =====
-- bridge/src/matter/rs_matter_backend.rs: the backend that runs the Matter stack on a thread of its
-- own. What the operating system and the rs-matter stack answer to one start is `Host`.
use thatsmatter.Base.{
  ℕ, ◌≡◌, refl, Bool, true, false, not, ◌&&◌, List, [], ◌∷◌, Option, none, some, arith,
  if◌then◌else◌, Result, ok, err, Exec, ◌>>=◌, ◌>>◌, pure, lift, modify,
}
pub mod Threads
pub mod Checks
pub mod Invariant
pub mod Honest
pub mod Backend
pub mod Start
pub mod Examples
use Prim.Native.Nat.{min}
use thatsmatter.Base.Text.{Text}
use thatsmatter.Catalog.Model.{Uuid, PairingMaterial}
use thatsmatter.Commissioning.{CommissioningMaterial}
use thatsmatter.Lan
use thatsmatter.Lan.{UnixNetif, validate_for_start, pin_of}
use thatsmatter.Pairing.{Codes, pairing_material_for}
use thatsmatter.Matter.Plane
use thatsmatter.Matter.Plane.{ExportPlane}
use thatsmatter.Matter.Window.{note_startup_commissioning_state}

pub data StackError : Type 0 where
  port_in_use : (ipv6 : Bool) → StackError
  create_dir_failed startup_failed run_failed : Text → StackError
  netifs_failed : Text → StackError
  no_lan : Lan.StartError → StackError
  exited_unexpectedly start_timed_out : StackError

-- `UdpSocket::bind`.
pub data Bind : Type 0 where
  bound addr_in_use other_error : Bind

pub data MdnsChoice : Type 0 where
  avahi builtin : MdnsChoice

-- `system_bus` and `avahi_answers` are `Connection::system` and `probe_avahi`, `fabrics` the
-- fabrics that the stack has restored, `run` how `run_preex` ends.
pub record Host : Type 0 where
  pub bind_ipv6 : Bind
  pub bind_ipv4 : Bind
  pub create_data_dir : Result Text (Unit {0})
  pub create_store_dir : Result Text (Unit {0})
  pub startup : Result Text (Unit {0})
  pub fabrics : ℕ
  pub now : ℕ
  pub netifs : Result Text (List UnixNetif)
  pub system_bus : Bool
  pub avahi_answers : Bool
  pub run : Result Text (Unit {0})

unfoldable pub preflight_ipv4 : Bind → Result StackError (Unit {0})
preflight_ipv4 bound = ok tt
preflight_ipv4 addr_in_use = err (port_in_use false)
preflight_ipv4 other_error = ok tt

unfoldable pub preflight_matter_udp_port : Bind → Bind → Result StackError (Unit {0})
unfolding preflight_ipv4
preflight_matter_udp_port bound ipv4 = preflight_ipv4 ipv4
preflight_matter_udp_port addr_in_use ipv4 = err (port_in_use true)
preflight_matter_udp_port other_error ipv4 = preflight_ipv4 ipv4

unfoldable pub choose_mdns : (system_bus avahi_answers : Bool) → MdnsChoice
choose_mdns true true = avahi
choose_mdns true false = builtin
choose_mdns false avahi_answers = builtin

unfoldable pub or_fail : {A : Type 0} → (Text → StackError) → Result Text A → Result StackError A
or_fail fail (ok a) = ok a
or_fail fail (err e) = err (fail e)

unfoldable pub lan_ok : Result Lan.StartError (Unit {0}) → Result StackError (Unit {0})
lan_ok (ok _) = ok tt
lan_ok (err e) = err (no_lan e)

-- `run_matter_stack` up to its signal of readiness. The plane is the state.
unfoldable pub prepare : Host → Option Text → Exec ExportPlane StackError MdnsChoice
unfolding preflight_matter_udp_port or_fail lan_ok choose_mdns
prepare host mdns_interface = do
  lift (preflight_matter_udp_port host.bind_ipv6 host.bind_ipv4)
  lift (or_fail create_dir_failed host.create_data_dir)
  lift (or_fail create_dir_failed host.create_store_dir)
  lift (or_fail startup_failed host.startup)
  modify (note_startup_commissioning_state host.now (min host.fabrics 255))
  netifs ← lift (or_fail netifs_failed host.netifs)
  lift (lan_ok (validate_for_start (pin_of mdns_interface) netifs))
  pure (choose_mdns host.system_bus host.avahi_answers)

-- `running` and `error` are shared with the stack thread. `stack_thread` says whether its handle is
-- kept.
pub record RsMatterBackend : Type 0 where
  pub mdns_interface : Option Text
  pub plane : ExportPlane
  pub running : Bool
  pub error : Option StackError
  pub stack_thread : Bool
  pub commissioning : CommissioningMaterial
  pub pairing : PairingMaterial

-- `new`, once the commissioning material is loaded.
unfoldable pub new : (random : ℕ) → Codes → Option Text → CommissioningMaterial → RsMatterBackend
unfolding pin_of Plane.new
new random codes mdns_interface commissioning = record {
  mdns_interface = pin_of mdns_interface;
  plane = Plane.new random;
  running = false;
  error = none;
  stack_thread = false;
  commissioning = commissioning;
  pairing = pairing_material_for codes commissioning;
}
