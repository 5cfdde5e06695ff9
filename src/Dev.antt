-- ===== src/Dev.antt =====
-- bridge/src/matter/dev.rs: the backend for development, which keeps the catalog's exports, the
-- states that are pushed and a pairing window, and starts no Matter stack.
pub mod Window
pub mod Sync
use Prim.Native.Nat.{min}
use thatsmatter.Base.{
  ℕ, ◌+◌, ◌≡◌, refl, Bool, true, false, not, ◌&&◌, List, [], ◌∷◌, ◌++◌, Option, none, some, arith,
  ltb, ◌==◌, if◌then◌else◌, length, find, filter, Result, ok, err,
}
use thatsmatter.Base.Text.{Text, text_eq}
use thatsmatter.Catalog.Model.{Uuid, Export, HaStateValue, CommandRequest, PairingMaterial}
use thatsmatter.Matter.OnOffMap.{on_off_command}
use thatsmatter.Matter.Window.{clamp_pairing_timeout, saturating_add}
use thatsmatter.Ipc.{Backend, BackendKind, dev}

-- `generation` counts opens and closes and does not wrap.
pub record WindowState : Type 0 where
  pub deadline : ℕ
  pub generation : ℕ

abbrev pub startup_pairing_timeout_secs : ℕ
startup_pairing_timeout_secs = 900

unfoldable pub new_open_startup : (now : ℕ) → WindowState
new_open_startup now = record {
  deadline = saturating_add now startup_pairing_timeout_secs;
  generation = 0;
}

unfoldable pub is_open : (now : ℕ) → WindowState → Bool
is_open now w = not (w.deadline == 0) && ltb now w.deadline

-- The generation of the window that was opened, beside it.
unfoldable pub open_until : (now timeout : ℕ) → WindowState → ℕ × WindowState
open_until now timeout w = (
  w.generation + 1,
  record { deadline = saturating_add now timeout; generation = w.generation + 1 },
)

unfoldable pub close : WindowState → WindowState
close w = record { deadline = 0; generation = w.generation + 1 }

-- The task of `schedule_expiry`, once its sleep is over.
unfoldable pub expire : (generation : ℕ) → WindowState → WindowState
expire generation w = if w.generation == generation then record w { deadline = 0 } else w

-- `tasks` holds the generations of the expiry tasks that were scheduled.
pub record DevMatterBackend (V : Type 0) : Type 0 where
  pub running : Bool
  pub window : WindowState
  pub tasks : List ℕ
  pub exports : List Export
  pub entity_state : List (Text × HaStateValue V)
  pub commands : List CommandRequest
  pub error : Option Text
  pub pairing : PairingMaterial

module _ {V : Type 0} where
  unfoldable pub new : (now : ℕ) → PairingMaterial → DevMatterBackend V
  unfolding new_open_startup
  new now pairing = record {
    running = false;
    window = new_open_startup now;
    tasks = [];
    exports = [];
    entity_state = [];
    commands = [];
    error = none;
    pairing = pairing;
  }

  unfoldable pub open_window : (now timeout : ℕ) → DevMatterBackend V → DevMatterBackend V
  unfolding open_until
  open_window now timeout b =
      let (generation, w) = open_until now timeout b.window in
      record b { window = w; tasks = generation ∷ b.tasks }

  unfoldable pub start :
      (now : ℕ) → Bool → DevMatterBackend V → Result Text (Unit {0}) × DevMatterBackend V
  unfolding open_window is_open
  start now false b = (err [], b)
  start now true b = (
    ok tt,
    if is_open now b.window
        then record b { running = true }
        else open_window now startup_pairing_timeout_secs (record b { running = true }),
  )

  unfoldable pub push_command : CommandRequest → DevMatterBackend V → DevMatterBackend V
  push_command cmd b = record b { commands = b.commands ++ cmd ∷ [] }

  unfoldable pub simulate_controller_on_off : Uuid → Bool → DevMatterBackend V → DevMatterBackend V
  unfolding push_command
  simulate_controller_on_off id on b = push_command (on_off_command id on) b

  -- The map of states, by entity.
  unfoldable pub put_state :
      HaStateValue V → List (Text × HaStateValue V) → List (Text × HaStateValue V)
  put_state st [] = (st.entity_id, st) ∷ []
  put_state st ((k, old) ∷ m) =
      let rest = put_state st m in if text_eq k st.entity_id then (k, st) ∷ m else (k, old) ∷ rest

  unfoldable pub get_state : Text → List (Text × HaStateValue V) → Option (HaStateValue V)
  get_state id [] = none
  get_state id ((k, st) ∷ m) = let rest = get_state id m in if text_eq k id then some st else rest

  unfoldable pub put_states :
      List (HaStateValue V) → List (Text × HaStateValue V) → List (Text × HaStateValue V)
  unfolding put_state
  put_states [] m = m
  put_states (st ∷ states) m = put_states states (put_state st m)

  unfoldable pub apply_found :
      Option Export
      → List (HaStateValue V)
      → DevMatterBackend V
      → Result Text ℕ × DevMatterBackend V
  unfolding put_states
  apply_found none states b = (ok 0, b)
  apply_found (some e) states b =
      (ok (length states), record b { entity_state = put_states states b.entity_state })

  unfoldable pub apply_state :
      Uuid → List (HaStateValue V) → DevMatterBackend V → Result Text ℕ × DevMatterBackend V
  unfolding apply_found
  apply_state id states b = apply_found (find (λ e. e.export_id == id) b.exports) states b

-- The backend behind the control plane, at a time.
abbrev pub dev_backend : (V : Type 0) (now : ℕ) → Backend V (DevMatterBackend V)
dev_backend V now = record {
  kind = dev;
  is_running = λ b. b.running;
  pairing_open = λ b. is_open now b.window;
  open_pairing_window = λ timeout b. (ok tt, open_window now (clamp_pairing_timeout timeout) b);
  close_pairing_window = λ b. (ok tt, record b { window = close b.window });
  commissioned_fabrics = λ b. 0;
  set_exports = λ exports b. (ok tt, record b { exports = exports });
  apply_state = apply_state;
  take_commands = λ b. (b.commands, record b { commands = [] });
  pairing_info = λ b. b.pairing;
  status_error = λ b. b.error;
}
