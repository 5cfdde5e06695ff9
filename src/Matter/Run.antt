-- ===== src/Matter/Run.antt =====
-- One pass of the loop `run` of bridge/src/matter/export_plane.rs on the stack thread, once it has
-- woken: the fabrics are sampled, a window request is carried out, configuration changes are bumped
-- and reports are drained. `PassAnswers` is what the clock and the Matter stack answer.
pub mod Settled
mod Examples
use Prim.Native.Nat.{min}
use thatsmatter.Base.{
  ℕ, ◌+◌, ◌≤◌, ◌<◌, ◌≡◌, refl, Bool, true, false, not, List, [], ◌∷◌, ◌++◌, map, Option, none, some,
  arith, ◌==◌, ltb, leb, if◌then◌else◌, Result, ok, err, Bool-cases, Option-cases, inl, inr, ap,
  sym, ◌∙◌,
}
use thatsmatter.Matter.Ids.{ClusterId, desc}
use thatsmatter.Matter.Plane.{ExportPlane, aggregator_endpoint_id}
use thatsmatter.Matter.Reports.{Report, drain_reports, all_reports, clear_pending}
use thatsmatter.Matter.Generation.{acknowledge}
use thatsmatter.Matter.Window.{
  WindowOp, open_window, close_window, WindowError, StackOps, StackCall, WindowResult,
  execute_window_op, apply_fabric_sample,
}
use thatsmatter.Matter.Mailbox.{WindowRequest, take_request}

abbrev pub root_endpoint_id : ℕ
root_endpoint_id = 0

-- `fabrics` is the count in the stack; `bumps` says of each call of `bump_configuration_version`,
-- in order, whether it succeeds. A pass makes one call more than it has successes at most.
pub record PassAnswers : Type 0 where
  pub fabrics : ℕ
  pub sampled_at : ℕ
  pub now : ℕ
  pub later : ℕ
  pub ops : StackOps
  pub bumps : List Bool

pub data Notified : Type 0 where
  cluster_changed : ℕ → ClusterId → Notified
  attr_changed : Report → Notified

pub record Pass : Type 0 where
  pub plane : ExportPlane
  pub mailbox : Option WindowRequest
  pub replies : List (ℕ × Result WindowError (Unit {0}))
  pub calls : List StackCall
  pub notified : List Notified

-- `read_fabric_count`: the count as a `u8`, saturated.
unfoldable pub read_fabric_count : ℕ → ℕ
read_fabric_count fabrics = min fabrics 255

-- `sample_fabrics`.
unfoldable pub sample_fabrics : PassAnswers → ExportPlane → ExportPlane
unfolding read_fabric_count
sample_fabrics a = apply_fabric_sample a.sampled_at (read_fabric_count a.fabrics)

abbrev pub with_window : PassAnswers → Option WindowRequest → ExportPlane → Pass
with_window a none plane = record {
  plane = plane;
  mailbox = none;
  replies = [];
  calls = [];
  notified = [];
}
with_window a (some r) plane =
    let done = execute_window_op a.now a.later a.ops r.op plane in
    record {
      plane = done.plane;
      mailbox = none;
      replies = (r.call, done.result) ∷ [];
      calls = done.calls;
      notified = [];
    }

-- `drain_window_request`.
unfoldable pub drain_window_request : PassAnswers → Option WindowRequest → ExportPlane → Pass
unfolding take_request
drain_window_request a mailbox plane =
    let (request, rest) = take_request mailbox in
    record (with_window a request plane) { mailbox = rest }

unfoldable pub acknowledged : ExportPlane → ExportPlane
unfolding acknowledge
acknowledged plane = record plane {
  config_applied = acknowledge plane.config_applied plane.config_requested;
}

-- The loop over the outstanding generations, by the answers to its bumps.
unfoldable pub drain_config : List Bool → ExportPlane → ExportPlane × List Notified
unfolding acknowledged
drain_config [] plane = (plane, [])
drain_config (bumped ∷ bumps) plane =
    let (after, notified) = drain_config bumps (acknowledged plane) in
    if plane.config_requested == plane.config_applied
    then (plane, [])
    else if bumped
    then (
      after,
      cluster_changed root_endpoint_id desc
          ∷ cluster_changed aggregator_endpoint_id desc
          ∷ notified,
    )
    else (plane, [])

-- One pass.
unfoldable pub pass : PassAnswers → Option WindowRequest → ExportPlane → Pass
unfolding sample_fabrics drain_window_request drain_config
pass a mailbox plane =
    let w = drain_window_request a mailbox (sample_fabrics a plane) in
    let (configured, changes) = drain_config a.bumps w.plane in
    let (drained, reports) = drain_reports configured in
    record w { plane = drained; notified = changes ++ map attr_changed reports }
