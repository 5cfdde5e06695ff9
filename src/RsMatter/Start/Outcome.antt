-- ===== src/RsMatter/Start/Outcome.antt =====
-- What `start` of bridge/src/matter/rs_matter_backend.rs comes to at each pace of the stack thread.
use thatsmatter.Base.{
  ℕ, zero, suc, ◌+◌, ◌≤◌, ◌≡◌, refl, Bool, true, false, Option, none, some, Result, ok, err, ◌⊎◌,
  arith, subst, sym, ◌∙◌, ap,
}
use thatsmatter.Base.Text.{Text}
use thatsmatter.RsMatter.{Host, StackError, MdnsChoice, RsMatterBackend, start_timed_out, prepare}
use thatsmatter.RsMatter.Threads.{
  waiting, failing, returned, StartFailure, serving, Process, set_error, begin_start, receive,
  after_prepare, starts, receives, times_out, fails, Reach, here, next, about_to_start,
}
use thatsmatter.RsMatter.Checks.{Prepared}
use thatsmatter.RsMatter.Honest.{flags_honest}
use thatsmatter.RsMatter.Start.{
  Pace, thread_step_at, thread_steps, fail_start, received, spawn_stack, start,
}
use thatsmatter.RsMatter.Start.Steps.{
  IsAt, DoesStay, Announced, steps-Reach, steps-caller, steps-IsAt, steps-Stays, At-Stays,
  Stays-Status, steps-ready,
}

module _ (host : Host) (mdns_interface : Option Text) where
  abbrev steps : ℕ → Process → Process
  steps n p = thread_steps host mdns_interface n p

  -- The status runs without an error, or the thread, whose fifth step it is, has cleared it again.
  abbrev pub Status : ℕ → Process → Type 0
  Status n p =
      ((p.backend.running ≡ true) × (p.backend.error ≡ none))
      ⊎ ((p.backend.running ≡ false) × (5 ≤ n))

  fail_start-Reach :
      {o : Process} (between : ℕ) (e : StackError) (p : Process)
      → Reach host mdns_interface o (record p { caller = failing e })
      → Reach host mdns_interface o (fail_start host mdns_interface between e p).1
  unfolding fail_start
  fail_start-Reach between e p r =
      let p' : Process = record p { caller = failing e } in
      next (steps-Reach host mdns_interface between p' r)
        (fails e (steps-caller host mdns_interface between p') refl)

  received-Reach :
      {o : Process} (between : ℕ) (m : Option (Result StackError (Unit {0}))) (p : Process)
      → p.caller ≡ waiting
      → p.ready ≡ m
      → Reach host mdns_interface o p
      → Reach host mdns_interface o (received host mdns_interface between m p).1
  unfolding received receive
  received-Reach between (some (ok u)) p w h r = next r (receives (ok tt) w h refl)
  received-Reach between (some (err e)) p w h r =
      fail_start-Reach between e (receive (err e) p) (next r (receives (err e) w h refl))
  received-Reach between none p w h r =
      fail_start-Reach between start_timed_out
        (record p { backend = set_error (some start_timed_out) p.backend })
        (next r (times_out w h refl))

  -- A success is the thread's message.
  received-ok :
      (between : ℕ) (m : Option (Result StackError (Unit {0}))) (p : Process)
      → (received host mdns_interface between m p).0 ≡ ok tt
      → (m ≡ some (ok tt))
        × ((received host mdns_interface between m p).1 ≡ record p {
          backend = record p.backend { stack_thread = true };
          ready = none;
          caller = returned (ok tt);
        })
  unfolding received fail_start receive
  received-ok between (some (ok u)) p h = (refl, refl)
  received-ok between (some (err e)) p h = absurd (ground (arith, h))
  received-ok between none p h = absurd (ground (arith, h))

  received-caller :
      (between : ℕ) (m : Option (Result StackError (Unit {0}))) (p : Process)
      → (received host mdns_interface between m p).1.caller
        ≡ returned (received host mdns_interface between m p).0
  unfolding received fail_start receive
  received-caller between (some (ok u)) p = refl
  received-caller between (some (err e)) p = refl
  received-caller between none p = refl

  module _ (b : RsMatterBackend) where
    abbrev started : Result Text (Unit {0}) → Bool → Pace → Result StartFailure (Unit {0}) × Process
    started dir spawned pace = start host mdns_interface dir spawned pace (about_to_start b)

    -- The process once the thread is there and the caller waits.
    abbrev spawned_process : Process
    spawned_process = begin_start (ok tt) true (about_to_start b)

    start-Reach :
        (dir : Result Text (Unit {0})) (spawned : Bool) (pace : Pace)
        → Reach host mdns_interface (about_to_start b) (started dir spawned pace).1
          × ((started dir spawned pace).1.caller ≡ returned (started dir spawned pace).0)
    unfolding start spawn_stack begin_start
    start-Reach (err x) spawned pace = (next here (starts (err x) spawned refl refl), refl)
    start-Reach (ok u) false pace = (next here (starts (ok tt) false refl refl), refl)
    start-Reach (ok u) true pace =
        let q = steps pace.before spawned_process in
        (
          received-Reach pace.between q.ready q
              (steps-caller host mdns_interface pace.before spawned_process) refl
              (steps-Reach host mdns_interface pace.before spawned_process
                (next here (starts (ok tt) true refl refl))),
          received-caller pace.between q.ready q,
        )

    start-Stays :
        (dir : Result Text (Unit {0})) (spawned : Bool) (pace : Pace)
        → (started dir spawned pace).0 ≡ ok tt
        → DoesStay pace.before (started dir spawned pace).1
    unfolding start spawn_stack begin_start
    start-Stays (err x) spawned pace h = absurd (ground (arith, h))
    start-Stays (ok u) false pace h = absurd (ground (arith, h))
    start-Stays (ok u) true pace h =
        let q = steps pace.before spawned_process in
        let (message, same) = received-ok pace.between q.ready q h in
        let a : IsAt pace.before q =
          subst (λ k. IsAt k q) (omega arith)
            (steps-IsAt host mdns_interface 0 pace.before spawned_process (refl, refl)) in
        rw same (
          At-Stays host mdns_interface pace.before q.thread q.backend.running q.backend.error
            (rw message at a))

    -- So much holds still when the thread has gone on after the caller's return.
    pub later-Status :
        (dir : Result Text (Unit {0})) (spawned : Bool) (pace : Pace) (after : ℕ)
        → (started dir spawned pace).0 ≡ ok tt
        → Status (pace.before + after) (steps after (started dir spawned pace).1)
    later-Status dir spawned pace after h =
        let p = (started dir spawned pace).1 in
        let q = steps after p in
        Stays-Status host mdns_interface (pace.before + after) q.thread q.backend.running
          q.backend.error
          (steps-Stays host mdns_interface pace.before after p (start-Stays dir spawned pace h))

    -- Three steps take the thread to its announcement.
    third_step :
        (c : MdnsChoice)
        → (prepare host mdns_interface b.plane).0 ≡ ok c
        → ((steps 3 spawned_process).thread ≡ serving c)
          × ((steps 3 spawned_process).ready ≡ some (ok tt))
    unfolding thread_steps thread_step_at begin_start set_error after_prepare
    third_step c q = (rw q refl, rw q refl)

    later_ready :
        (k : ℕ) (c : MdnsChoice)
        → (prepare host mdns_interface b.plane).0 ≡ ok c
        → (steps (suc (suc (suc k))) spawned_process).ready ≡ some (ok tt)
    unfolding thread_steps
    later_ready k c q =
        let (place, message) = third_step c q in
        steps-ready host mdns_interface k (steps 3 spawned_process) (subst Announced (sym place) tt)
        ∙ message

    start-ready :
        (pace : Pace) (c : MdnsChoice)
        → (prepare host mdns_interface b.plane).0 ≡ ok c
        → 3 ≤ pace.before
        → (started (ok tt) true pace).0 ≡ ok tt
    unfolding start spawn_stack received begin_start
    start-ready pace c q h = go pace.before h
      where
        go :
            (n : ℕ)
            → 3 ≤ n
            → (received host mdns_interface pace.between
                (steps n spawned_process).ready
                (steps n spawned_process)).0
              ≡ ok tt
        go zero h = absurd (omega (arith, h))
        go (suc zero) h = absurd (omega (arith, h))
        go (suc (suc zero)) h = absurd (omega (arith, h))
        go (suc (suc (suc k))) h = rw (later_ready k c q) refl

    -- At whatever pace the stack thread goes on, `start` is a run of its caller and its thread, to
    -- the caller's return. If it returns success, the checks have passed, and the status says
    -- running, without an error, unless the thread has come to its fifth step, at which it clears
    -- the status since the stack has left. And when the checks pass, it does return success if the
    -- thread is spawned and comes to its third step, the announcement, before the timeout.
    pub start_runs :
        (dir : Result Text (Unit {0})) (spawned : Bool) (pace : Pace)
        → Reach host mdns_interface (about_to_start b) (started dir spawned pace).1
          × ((started dir spawned pace).1.caller ≡ returned (started dir spawned pace).0)
          × ((started dir spawned pace).0 ≡ ok tt
              → Prepared host mdns_interface × Status pace.before (started dir spawned pace).1)
          × ((c : MdnsChoice)
              → dir ≡ ok tt
              → spawned ≡ true
              → (prepare host mdns_interface b.plane).0 ≡ ok c
              → 3 ≤ pace.before
              → (started dir spawned pace).0 ≡ ok tt)
    start_runs dir spawned pace =
        let (reached, place) = start-Reach dir spawned pace in
        (
          reached,
          place,
          λ h. (
            (flags_honest host mdns_interface b reached).1
                (place ∙ ap (λ (r : Result StartFailure (Unit {0})). returned r) h),
            Stays-Status host mdns_interface pace.before _ _ _ (start-Stays dir spawned pace h),
          ),
          λ c d t q three. rw (d, t) (start-ready pace c q three),
        )
