-- ===== src/RsMatter/Examples.antt =====
-- The Matter backend of bridge/src/matter/rs_matter_backend.rs on a host with a LAN.
use thatsmatter.Base.{ℕ, ◌+◌, ◌<◌, ◌≤◌, ◌≡◌, ◌≢◌, refl, true, false, none, some, Result, ok, err}
use thatsmatter.Base.Text.{Text, codes}
use thatsmatter.Base.Map
use thatsmatter.Lan.Examples.{host}
use thatsmatter.Catalog.Model.{Export}
use thatsmatter.Catalog.Examples.{
  RawFile, plain, all_good, no_files, rename_lamp, grown, grown-IsWellFormed,
}
use thatsmatter.Pairing.Examples.{known, fixed}
use thatsmatter.Matter.Examples.{versions, numbers}
use thatsmatter.Matter.OnOffMap.{is_matter_bridged_export}
use thatsmatter.Matter.Plane.{endpoint_max, slot_for}
use thatsmatter.Matter.Plane.Bridged.{Bridges}
use thatsmatter.Ipc.{AppState}
use thatsmatter.Ipc.Sync.{patches, serve, good_status}
use thatsmatter.RsMatter.{
  StackError, MdnsChoice, exited_unexpectedly, start_timed_out, Host, bound, other_error, avahi,
  RsMatterBackend, new, prepare,
}
use thatsmatter.RsMatter.Threads.{
  StartFailure, failed_to_start, returned, Thread, ended, Process, starts, prepares, runs,
  announces, receives, leaves, stops, reports, Reach, here, next, about_to_start,
}
use thatsmatter.RsMatter.Checks.{Prepared}
use thatsmatter.RsMatter.Invariant.{IsSome}
use thatsmatter.RsMatter.Honest.{flags_honest}
use thatsmatter.RsMatter.Start.{Pace, start, thread_steps}
use thatsmatter.RsMatter.Start.Outcome.{Status, start_runs}
use thatsmatter.RsMatter.Backend.{Answers, executed, rs_backend, serve-Bridges}

-- IPv6 is off, and the stack returns without an error.
abbrev pub home_host : Host
home_host = record {
  bind_ipv6 = other_error;
  bind_ipv4 = bound;
  create_data_dir = ok tt;
  create_store_dir = ok tt;
  startup = ok tt;
  fabrics = 0;
  now = 100;
  netifs = ok host;
  system_bus = true;
  avahi_answers = true;
  run = ok tt;
}

abbrev fresh : RsMatterBackend
fresh = new 0 fixed none known

-- The stack has come up and left again.
abbrev gone : Process
gone = record {
  backend = record fresh {
    plane = (prepare home_host none fresh.plane).1;
    error = some exited_unexpectedly;
    stack_thread = true;
  };
  ready = none;
  caller = returned (ok tt);
  thread = ended (ok tt);
}

came_and_went : Reach home_host none (about_to_start fresh) gone
unfolding thatsmatter.RsMatter.Threads.begin_start thatsmatter.RsMatter.Threads.after_prepare
    prepare thatsmatter.Lan.validate_for_start thatsmatter.Lan.pin_of
    thatsmatter.RsMatter.Threads.receive thatsmatter.RsMatter.Threads.report
    thatsmatter.RsMatter.Threads.set_running new
    thatsmatter.Matter.Window.note_startup_commissioning_state
came_and_went =
    next
      (next
        (next
          (next
            (next
              (next (next (next here (starts (ok tt) true refl refl)) (prepares refl refl))
                (runs avahi refl refl))
              (announces avahi refl refl))
            (receives (ok tt) refl refl refl))
          (leaves avahi refl refl))
        (stops (ok tt) true refl refl))
      (reports (ok tt) true refl refl)

flags_honest_example :
    (gone.backend.running ≡ true → Prepared home_host none)
    × (gone.caller ≡ returned (ok tt) → Prepared home_host none)
    × ((result : Result StackError (Unit {0}))
        → gone.thread ≡ ended result
        → (gone.backend.running ≡ false) × IsSome gone.backend.error)
flags_honest_example = flags_honest home_host none fresh came_and_went

-- The thread gets to serve before the caller hears of it.
abbrev pub pace : Pace
pace = record { before = 3; between = 0 }

abbrev begun : Pace → Result StartFailure (Unit {0}) × Process
begun pace = start home_host none (ok tt) true pace (about_to_start fresh)

start_runs_example :
    Reach home_host none (about_to_start fresh) (begun pace).1
    × ((begun pace).1.caller ≡ returned (begun pace).0)
    × ((begun pace).0 ≡ ok tt → Prepared home_host none × Status home_host none 3 (begun pace).1)
    × ((c : MdnsChoice)
        → ◌≡◌ {A = Result Text (Unit {0})} (ok tt) (ok tt)
        → true ≡ true
        → (prepare home_host none fresh.plane).0 ≡ ok c
        → 3 ≤ 3
        → (begun pace).0 ≡ ok tt)
start_runs_example = start_runs home_host none fresh (ok tt) true pace

-- The stack has left again before the caller hears of its readiness.
late_success :
    ((begun (record pace { before = 6 })).0 ≡ ok tt)
    × ((begun (record pace { before = 6 })).1.backend.running ≡ false)
    × ((begun (record pace { before = 6 })).1.backend.error ≡ some exited_unexpectedly)
unfolding start thread_steps prepare thatsmatter.Lan.validate_for_start thatsmatter.Lan.pin_of new
    thatsmatter.Matter.Window.note_startup_commissioning_state
late_success = (refl, refl, refl)

-- The thread announces itself after the caller's timeout, and the flag says running in the end.
timed_out_and_running :
    ((begun (record { before = 1; between = 0 })).0 ≡ err (failed_to_start start_timed_out))
    × ((thread_steps home_host none 1
          (begun (record { before = 1; between = 0 })).1).backend.running
        ≡ true)
unfolding start thread_steps prepare thatsmatter.Lan.validate_for_start thatsmatter.Lan.pin_of new
    thatsmatter.Matter.Window.note_startup_commissioning_state
timed_out_and_running = (refl, refl)

abbrev pub answers : Answers ℕ
answers = record {
  now = 200;
  random = versions;
  answer =
      executed 200 201
        (record { count_before = 0; count_after = 0; opened = ok tt; closed = ok true });
  post_message = λ e. codes "window";
  stack_message = λ e. codes "stack";
  reads = numbers;
}

abbrev app : AppState RawFile RsMatterBackend
app = record { catalog = record { store = grown; files = no_files }; backend = fresh }

serve-Bridges_example :
    ((serve (rs_backend answers) plain all_good (patches 7 rename_lamp) app).0.status
        ≡ good_status (patches 7 rename_lamp)
      → (e : Export) (p : ℕ)
      → Map.get e.export_id
          (serve
            (rs_backend answers)
            plain
            all_good
            (patches 7 rename_lamp)
            app).1.catalog.store.by_id
        ≡ some e
      → is_matter_bridged_export e ≡ true
      → e.endpoint_id ≡ some p
      → p < endpoint_max
      → Bridges e
          (p + 1)
          (slot_for e.export_id app.backend.plane.slots)
          (serve
            (rs_backend answers)
            plain
            all_good
            (patches 7 rename_lamp)
            app).1.backend.plane.slots)
    × ((serve (rs_backend answers) plain all_good (patches 7 rename_lamp) app).0.status
          ≢ good_status (patches 7 rename_lamp)
        → (serve (rs_backend answers) plain all_good (patches 7 rename_lamp) app).1.backend ≡ fresh)
serve-Bridges_example =
    serve-Bridges plain all_good answers (patches 7 rename_lamp) app grown-IsWellFormed
