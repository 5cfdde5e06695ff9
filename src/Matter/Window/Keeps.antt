-- ===== src/Matter/Window/Keeps.antt =====
-- What the window decisions of bridge/src/matter/export_plane.rs leave alone.
use thatsmatter.Base.{
  ℕ, ◌<◌, ◌≡◌, refl, Bool, true, false, List, [], ◌∷◌, ◌||◌, ◌==◌, arith, Bool-cases, Result-cases,
  inl, inr,
}
use thatsmatter.Matter.Plane.{ExportPlane}
use thatsmatter.Matter.Window.{
  WindowOp, open_window, close_window, StackOps, StackCall, open_basic_comm_window,
  execute_window_op, open_attempt, close_attempt, mark_window_opened, establish_fabric_baseline,
  mark_window_closed, apply_fabric_sample, pairing_open,
}

-- The slots and the two counters.
pub record Keeps (plane : ExportPlane) (after : ExportPlane) : Type 0 where
  pub slots : after.slots ≡ plane.slots
  pub requested : after.config_requested ≡ plane.config_requested
  pub applied : after.config_applied ≡ plane.config_applied

pub execute-Keeps :
    (now later : ℕ) (ops : StackOps) (op : WindowOp) (plane : ExportPlane)
    → Keeps plane (execute_window_op now later ops op plane).plane
unfolding execute_window_op open_attempt close_attempt mark_window_opened establish_fabric_baseline
    mark_window_closed
execute-Keeps now later ops (open_window t) plane = elim (Bool-cases (pairing_open now plane)) [
  | inl o ↦ rw o (record { slots = refl; requested = refl; applied = refl })
  | inr c ↦ elim (Result-cases ops.opened) [
    | inl (u, r) ↦ rw (c, r) (record { slots = refl; requested = refl; applied = refl })
    | inr (e, r) ↦ rw (c, r) (record { slots = refl; requested = refl; applied = refl })
  ]
]
execute-Keeps now later ops close_window plane = elim (Bool-cases (pairing_open now plane)) [
  | inl o ↦ elim (Result-cases ops.closed) [
    | inl (u, r) ↦ rw (o, r) (record { slots = refl; requested = refl; applied = refl })
    | inr (e, r) ↦ rw (o, r) (record { slots = refl; requested = refl; applied = refl })
  ]
  | inr c ↦ rw c (record { slots = refl; requested = refl; applied = refl })
]

pub sample-Keeps :
    (now count : ℕ) (plane : ExportPlane) → Keeps plane (apply_fabric_sample now count plane)
unfolding apply_fabric_sample
sample-Keeps now count plane = record { slots = refl; requested = refl; applied = refl }

-- A sample that finds more fabrics than before closes the window; after it no window is open.
pub sample_closes :
    (now count later : ℕ) (plane : ExportPlane)
    → plane.fabric_count < count
    → pairing_open later (apply_fabric_sample now count plane) ≡ false
unfolding apply_fabric_sample pairing_open
sample_closes now count later plane h = ground arith

abbrev pub contains_open : ℕ → List StackCall → Bool
contains_open t [] = false
contains_open t (open_basic_comm_window u ∷ calls) = u == t || contains_open t calls
contains_open t (call ∷ calls) = contains_open t calls

pub open-calls :
    (now later t : ℕ) (ops : StackOps) (plane : ExportPlane)
    → pairing_open now plane ≡ false
    → contains_open t (execute_window_op now later ops (open_window t) plane).calls ≡ true
unfolding execute_window_op open_attempt
open-calls now later t ops plane c = elim (Result-cases ops.opened) [
  | inl (u, r) ↦ rw (c, r) (ground arith)
  | inr (e, r) ↦ rw (c, r) (ground arith)
]
