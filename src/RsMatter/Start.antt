-- ===== src/RsMatter/Start.antt =====
-- `start` and `spawn_stack` of bridge/src/matter/rs_matter_backend.rs, for each pace at which the
-- stack thread goes on while the caller waits: until the caller hears of it or thirty seconds have
-- passed, and between the caller's two writes after a failure.
pub mod Steps
pub mod Outcome
use thatsmatter.Base.{
  ℕ, zero, suc, ◌≡◌, Bool, true, false, Option, none, some, Result, ok, err, if◌then◌else◌,
}
use thatsmatter.Base.Text.{Text}
use thatsmatter.RsMatter.{Host, StackError, start_timed_out, run_failed, or_fail, prepare}
use thatsmatter.RsMatter.Threads.{
  StartFailure, waiting, failing, returned, failed_to_start, no_data_dir, no_thread, Thread, absent,
  starting, prepared, announcing, serving, left, stopped, refusing, ended, Process, set_running,
  set_error, receive, after_prepare, report,
}

-- How many steps the thread takes before the caller goes on, and between its two writes.
pub record Pace : Type 0 where
  pub before : ℕ
  pub between : ℕ

module _ (host : Host) (mdns_interface : Option Text) where
  -- The next step of the thread, which its place fixes; one that has ended stays.
  thread_step_at : Thread → Process → Process
  unfolding after_prepare set_running report
  thread_step_at absent p = p
  thread_step_at starting p = after_prepare (prepare host mdns_interface p.backend.plane) p
  thread_step_at (prepared c) p = record p {
    backend = set_running true p.backend;
    thread = announcing c;
  }
  thread_step_at (announcing c) p = record p { ready = some (ok tt); thread = serving c }
  thread_step_at (serving c) p = record p { thread = left (or_fail run_failed host.run) true }
  thread_step_at (left result was_ready) p = record p {
    backend = set_running false p.backend;
    thread = stopped result was_ready;
  }
  thread_step_at (stopped result was_ready) p = report result was_ready p
  thread_step_at (refusing e) p = record p { ready = some (err e); thread = ended (err e) }
  thread_step_at (ended result) p = p

  unfoldable pub thread_steps : ℕ → Process → Process
  unfolding thread_step_at
  thread_steps zero p = p
  thread_steps (suc n) p = thread_steps n (thread_step_at p.thread p)

  -- The caller's two writes after a failure.
  unfoldable pub fail_start : ℕ → StackError → Process → Result StartFailure (Unit {0}) × Process
  unfolding set_running
  fail_start between e p =
      let q = thread_steps between (record p { caller = failing e }) in
      (
        err (failed_to_start e),
        record q {
          backend = set_running false q.backend;
          caller = returned (err (failed_to_start e));
        },
      )

  -- What `recv_timeout` brings; `none` is the timeout.
  unfoldable pub received :
      ℕ → Option (Result StackError (Unit {0})) → Process → Result StartFailure (Unit {0}) × Process
  unfolding receive fail_start set_error
  received between (some (ok u)) p = (ok tt, receive (ok tt) p)
  received between (some (err e)) p = fail_start between e (receive (err e) p)
  received between none p =
      fail_start between start_timed_out
        (record p { backend = set_error (some start_timed_out) p.backend })

  unfoldable pub spawn_stack :
      (spawned : Bool) → Pace → Process → Result StartFailure (Unit {0}) × Process
  unfolding received
  spawn_stack false pace p = (err no_thread, record p { caller = returned (err no_thread) })
  spawn_stack true pace p =
      let q = thread_steps pace.before (record p { caller = waiting; thread = starting }) in
      received pace.between q.ready q

  unfoldable pub start :
      Result Text (Unit {0})
      → (spawned : Bool) → Pace
      → Process
      → Result StartFailure (Unit {0}) × Process
  unfolding spawn_stack set_error
  start dir spawned pace p =
      if p.backend.running then (ok tt, record p { caller = returned (ok tt) }) else elim dir [
        | err e ↦ (err no_data_dir, record p { caller = returned (err no_data_dir) })
        | ok u ↦ spawn_stack spawned pace (record p { backend = set_error none p.backend })
      ]
