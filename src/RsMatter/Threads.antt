-- ===== src/RsMatter/Threads.antt =====
-- The start of the stack in bridge/src/matter/rs_matter_backend.rs, by the caller of `start` with
-- `spawn_stack` and by the thread of `run_matter_stack`, as interleaved steps: each writes the
-- flags that they share at one point, and the channel `ready` carries one message. Other threads
-- may change the plane at any time.
use thatsmatter.Base.{◌≡◌, Bool, true, false, if◌then◌else◌, Option, none, some, Result, ok, err}
use thatsmatter.Base.Text.{Text}
use thatsmatter.Matter.Plane.{ExportPlane}
use thatsmatter.RsMatter.{
  Host, StackError, MdnsChoice, RsMatterBackend, exited_unexpectedly, start_timed_out, run_failed,
  or_fail, prepare,
}

pub data StartFailure : Type 0 where
  no_data_dir no_thread : StartFailure
  failed_to_start : StackError → StartFailure

-- Where the caller of `start` is.
pub data Caller : Type 0 where
  calling : Caller
  waiting : Caller
  -- It has written the error, and not the flag yet.
  failing : StackError → Caller
  returned : Result StartFailure (Unit {0}) → Caller

-- Where the stack thread is. `left` and `stopped` carry the closure's result and `ready_sent`.
pub data Thread : Type 0 where
  absent : Thread
  starting : Thread
  prepared : MdnsChoice → Thread
  announcing : MdnsChoice → Thread
  serving : MdnsChoice → Thread
  left : Result StackError (Unit {0}) → Bool → Thread
  stopped : Result StackError (Unit {0}) → Bool → Thread
  refusing : StackError → Thread
  ended : Result StackError (Unit {0}) → Thread

pub record Process : Type 0 where
  pub backend : RsMatterBackend
  pub ready : Option (Result StackError (Unit {0}))
  pub caller : Caller
  pub thread : Thread

unfoldable pub set_running : Bool → RsMatterBackend → RsMatterBackend
set_running running b = record b { running = running }

unfoldable pub set_error : Option StackError → RsMatterBackend → RsMatterBackend
set_error error b = record b { error = error }

-- `start` up to its wait: the data directory, the stale error and the thread.
unfoldable pub begin_start : Result Text (Unit {0}) → (spawned : Bool) → Process → Process
unfolding set_error
begin_start dir spawned p =
    if p.backend.running then record p { caller = returned (ok tt) } else elim dir [
      | err e ↦ record p { caller = returned (err no_data_dir) }
      | ok u ↦
          if spawned
          then record p { backend = set_error none p.backend; caller = waiting; thread = starting }
          else record p { backend = set_error none p.backend; caller = returned (err no_thread) }
    ]

-- The caller once `ready_rx` has answered; the failures go on with the flag.
unfoldable pub receive : Result StackError (Unit {0}) → Process → Process
unfolding set_error
receive (ok u) p = record p {
  backend = record p.backend { stack_thread = true };
  ready = none;
  caller = returned (ok tt);
}
receive (err e) p = record p {
  backend = set_error (some e) p.backend;
  ready = none;
  caller = failing e;
}

-- The thread once `prepare` has ended.
unfoldable pub after_prepare : Result StackError MdnsChoice × ExportPlane → Process → Process
after_prepare (ok c, plane) p = record p {
  backend = record p.backend { plane = plane };
  thread = prepared c;
}
after_prepare (err e, plane) p = record p {
  backend = record p.backend { plane = plane };
  thread = left (err e) false;
}

-- The thread's `match` on its result, before the message of a failed start.
unfoldable pub report : Result StackError (Unit {0}) → (was_ready : Bool) → Process → Process
unfolding set_error
report (err e) false p = record p { backend = set_error (some e) p.backend; thread = refusing e }
report (err e) true p = record p { backend = set_error (some e) p.backend; thread = ended (err e) }
report (ok u) true p = record p {
  backend = set_error (some exited_unexpectedly) p.backend;
  thread = ended (ok tt);
}
report (ok u) false p = record p { thread = ended (ok tt) }

module _ (host : Host) (mdns_interface : Option Text) where
  pub data Step (p : Process) (q : Process) : Type 0 where
    starts :
        (dir : Result Text (Unit {0})) (spawned : Bool)
        → p.caller ≡ calling
        → q ≡ begin_start dir spawned p
        → Step p q
    receives :
        (message : Result StackError (Unit {0}))
        → p.caller ≡ waiting
        → p.ready ≡ some message
        → q ≡ receive message p
        → Step p q
    -- Thirty seconds have passed.
    times_out :
        p.caller ≡ waiting
        → p.ready ≡ none
        → q ≡ record p {
          backend = set_error (some start_timed_out) p.backend;
          caller = failing start_timed_out;
        }
        → Step p q
    fails :
        (e : StackError)
        → p.caller ≡ failing e
        → q ≡ record p {
          backend = set_running false p.backend;
          caller = returned (err (failed_to_start e));
        }
        → Step p q
    prepares :
        p.thread ≡ starting
        → q ≡ after_prepare (prepare host mdns_interface p.backend.plane) p
        → Step p q
    runs :
        (c : MdnsChoice)
        → p.thread ≡ prepared c
        → q ≡ record p { backend = set_running true p.backend; thread = announcing c }
        → Step p q
    announces :
        (c : MdnsChoice)
        → p.thread ≡ announcing c
        → q ≡ record p { ready = some (ok tt); thread = serving c }
        → Step p q
    -- `run_preex` has returned.
    leaves :
        (c : MdnsChoice)
        → p.thread ≡ serving c
        → q ≡ record p { thread = left (or_fail run_failed host.run) true }
        → Step p q
    stops :
        (result : Result StackError (Unit {0})) (was_ready : Bool)
        → p.thread ≡ left result was_ready
        → q ≡ record p { backend = set_running false p.backend; thread = stopped result was_ready }
        → Step p q
    reports :
        (result : Result StackError (Unit {0})) (was_ready : Bool)
        → p.thread ≡ stopped result was_ready
        → q ≡ report result was_ready p
        → Step p q
    refuses :
        (e : StackError)
        → p.thread ≡ refusing e
        → q ≡ record p { ready = some (err e); thread = ended (err e) }
        → Step p q
    changes :
        (plane : ExportPlane)
        → q ≡ record p { backend = record p.backend { plane = plane } }
        → Step p q

  pub data Reach (p : Process) : Process → Type 0 where
    here : Reach p p
    next : {q r : Process} → Reach p q → Step q r → Reach p r

-- A process about to call `start`.
abbrev pub about_to_start : RsMatterBackend → Process
about_to_start b = record {
  backend = record b { running = false };
  ready = none;
  caller = calling;
  thread = absent;
}
