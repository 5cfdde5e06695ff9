-- ===== src/RsMatter/Invariant.antt =====
-- An invariant of the start of the stack in bridge/src/matter/rs_matter_backend.rs: what each place
-- of the thread and of the caller says of the flags.
use thatsmatter.Base.{
  ◌≡◌, ◌≢◌, refl, Bool, true, false, Bool-cases, Option, none, some, Result, ok, err, Result-cases,
  arith, inl, inr,
}
use thatsmatter.Base.Text.{Text}
use thatsmatter.RsMatter.{Host, StackError, prepare, start_timed_out, exited_unexpectedly}
use thatsmatter.RsMatter.Threads.{
  Caller, calling, waiting, failing, returned, Thread, absent, starting, prepared, announcing,
  serving, left, stopped, refusing, ended, Process, set_running, set_error, begin_start, receive,
  after_prepare, report, Step, starts, receives, times_out, fails, prepares, runs, announces,
  leaves, stops, reports, refuses, changes,
}
use thatsmatter.RsMatter.Checks.{Prepared, prepare-Prepared}

abbrev pub IsSome : {A : Type 0} → Option A → Type 0
IsSome {A} o = (a : A) × (o ≡ some a)

module _ (host : Host) (mdns_interface : Option Text) where
  abbrev pub Checked : Type 0
  Checked = Prepared host mdns_interface

  abbrev pub OfResult : Result StackError (Unit {0}) → Bool → Bool → Type 0
  OfResult r true running = Checked
  OfResult (err e) false running = running ≡ false
  OfResult (ok u) false running = ⊥

  abbrev pub OfThread : Thread → Bool → Option StackError → Type 0
  OfThread absent running error = running ≡ false
  OfThread starting running error = running ≡ false
  OfThread (prepared c) running error = (running ≡ false) × Checked
  OfThread (announcing c) running error = Checked
  OfThread (serving c) running error = Checked
  OfThread (left r w) running error = OfResult r w running
  OfThread (stopped r w) running error = (running ≡ false) × OfResult r w false
  OfThread (refusing e) running error = (running ≡ false) × IsSome error
  OfThread (ended r) running error = (running ≡ false) × IsSome error

  abbrev pub OfCaller : Caller → Thread → Type 0
  OfCaller calling thread = thread ≡ absent
  OfCaller waiting thread = Unit
  OfCaller (failing e) thread = Unit
  OfCaller (returned (ok u)) thread = Checked
  OfCaller (returned (err e)) thread = Unit

  abbrev pub OfReady : Option (Result StackError (Unit {0})) → Type 0
  OfReady none = Unit
  OfReady (some (err e)) = Unit
  OfReady (some (ok u)) = Checked

  pub record IsSound (p : Process) : Type 0 where
    pub thread : OfThread p.thread p.backend.running p.backend.error
    pub caller : OfCaller p.caller p.thread
    pub ready : OfReady p.ready

  OfResult-down :
      (r : Result StackError (Unit {0})) (w running : Bool)
      → OfResult r w running
      → OfResult r w false
  OfResult-down r true running v = v
  OfResult-down (err e) false running v = refl
  OfResult-down (ok u) false running v = elim v [ ]

  OfThread-down :
      (t : Thread) (running : Bool) (error : Option StackError)
      → OfThread t running error
      → OfThread t false error
  OfThread-down absent running error v = refl
  OfThread-down starting running error v = refl
  OfThread-down (prepared c) running error v = (refl, v.1)
  OfThread-down (announcing c) running error v = v
  OfThread-down (serving c) running error v = v
  OfThread-down (left r w) running error v = OfResult-down r w running v
  OfThread-down (stopped r w) running error v = (refl, v.1)
  OfThread-down (refusing e) running error v = (refl, v.1)
  OfThread-down (ended r) running error v = (refl, v.1)

  OfThread-error :
      (t : Thread) (running : Bool) (error : Option StackError) (e : StackError)
      → OfThread t running error
      → OfThread t running (some e)
  OfThread-error absent running error e v = v
  OfThread-error starting running error e v = v
  OfThread-error (prepared c) running error e v = v
  OfThread-error (announcing c) running error e v = v
  OfThread-error (serving c) running error e v = v
  OfThread-error (left r w) running error e v = v
  OfThread-error (stopped r w) running error e v = v
  OfThread-error (refusing x) running error e v = (v.0, (e, refl))
  OfThread-error (ended r) running error e v = (v.0, (e, refl))

  -- A thread that exists moves on.
  OfCaller-moved : (c : Caller) (t u : Thread) → t ≢ absent → OfCaller c t → OfCaller c u
  OfCaller-moved calling t u h v = absurd (h v)
  OfCaller-moved waiting t u h v = tt
  OfCaller-moved (failing e) t u h v = tt
  OfCaller-moved (returned (ok x)) t u h v = v
  OfCaller-moved (returned (err e)) t u h v = tt

  begin_start-IsSound :
      (dir : Result Text (Unit {0})) (spawned : Bool) (p : Process)
      → p.caller ≡ calling
      → IsSound p
      → IsSound (begin_start dir spawned p)
  unfolding begin_start set_error
  begin_start-IsSound dir spawned p at_ v =
      let no_thread : p.thread ≡ absent = rw at_ at v.caller in
      let down : p.backend.running ≡ false = rw no_thread at v.thread in
      elim (Result-cases dir) [
        | inr (e, d) ↦ rw (down, d) (record { thread = v.thread; caller = tt; ready = v.ready })
        | inl (u, d) ↦ elim (Bool-cases spawned) [
          | inl t ↦ rw (down, d, t) (record { thread = down; caller = tt; ready = v.ready })
          | inr f ↦
              rw (down, d, f) (record { thread = rw no_thread down; caller = tt; ready = v.ready })
        ]
      ]

  after_prepare-IsSound :
      (p : Process)
      → p.thread ≡ starting
      → IsSound p
      → IsSound (after_prepare (prepare host mdns_interface p.backend.plane) p)
  unfolding after_prepare
  after_prepare-IsSound p at_ v =
      let down : p.backend.running ≡ false = rw at_ at v.thread in
      let moved : (t : Thread) → OfCaller p.caller t =
        λ t. OfCaller-moved p.caller p.thread t (λ h. ground (arith, h, at_)) v.caller in
      elim (Result-cases (prepare host mdns_interface p.backend.plane).0) [
        | inl (c, q) ↦ rw q (record {
          thread = (down, prepare-Prepared host mdns_interface c p.backend.plane q);
          caller = moved _;
          ready = v.ready;
        })
        | inr (e, q) ↦ rw q (record { thread = down; caller = moved _; ready = v.ready })
      ]

  report-IsSound :
      (r : Result StackError (Unit {0})) (w : Bool) (p : Process)
      → p.thread ≡ stopped r w
      → IsSound p
      → IsSound (report r w p)
  unfolding report set_error
  report-IsSound (ok u) true p at_ v = record {
    thread = ((rw at_ at v.thread).0, (exited_unexpectedly, refl));
    caller = OfCaller-moved p.caller p.thread _ (λ h. ground (arith, h, at_)) v.caller;
    ready = v.ready;
  }
  report-IsSound (err e) true p at_ v = record {
    thread = ((rw at_ at v.thread).0, (e, refl));
    caller = OfCaller-moved p.caller p.thread _ (λ h. ground (arith, h, at_)) v.caller;
    ready = v.ready;
  }
  report-IsSound (err e) false p at_ v = record {
    thread = ((rw at_ at v.thread).0, (e, refl));
    caller = OfCaller-moved p.caller p.thread _ (λ h. ground (arith, h, at_)) v.caller;
    ready = v.ready;
  }
  report-IsSound (ok u) false p at_ v = absurd ((rw at_ at v.thread).1)

  pub Step-IsSound : {p q : Process} → Step host mdns_interface p q → IsSound p → IsSound q
  unfolding set_running set_error receive
  Step-IsSound {p} (starts dir spawned at_ e) v = rw e (begin_start-IsSound dir spawned p at_ v)
  Step-IsSound {p} (receives (ok u) at_ m e) v =
      rw e (record { thread = v.thread; caller = rw m at v.ready; ready = tt })
  Step-IsSound {p} (receives (err x) at_ m e) v =
      rw e (record { thread = OfThread-error p.thread _ _ x v.thread; caller = tt; ready = tt })
  Step-IsSound {p} (times_out at_ m e) v = rw e (record {
    thread = OfThread-error p.thread _ _ start_timed_out v.thread;
    caller = tt;
    ready = v.ready;
  })
  Step-IsSound {p} (fails x at_ e) v =
      rw e (record { thread = OfThread-down p.thread _ _ v.thread; caller = tt; ready = v.ready })
  Step-IsSound {p} (prepares at_ e) v = rw e (after_prepare-IsSound p at_ v)
  Step-IsSound {p} (runs c at_ e) v = rw e (record {
    thread = (rw at_ at v.thread).1;
    caller = OfCaller-moved p.caller p.thread _ (λ h. ground (arith, h, at_)) v.caller;
    ready = v.ready;
  })
  Step-IsSound {p} (announces c at_ e) v = rw e (record {
    thread = rw at_ at v.thread;
    caller = OfCaller-moved p.caller p.thread _ (λ h. ground (arith, h, at_)) v.caller;
    ready = rw at_ at v.thread;
  })
  Step-IsSound {p} (leaves c at_ e) v = rw e (record {
    thread = rw at_ at v.thread;
    caller = OfCaller-moved p.caller p.thread _ (λ h. ground (arith, h, at_)) v.caller;
    ready = v.ready;
  })
  Step-IsSound {p} (stops r w at_ e) v = rw e (record {
    thread = (refl, OfResult-down r w _ (rw at_ at v.thread));
    caller = OfCaller-moved p.caller p.thread _ (λ h. ground (arith, h, at_)) v.caller;
    ready = v.ready;
  })
  Step-IsSound {p} (reports r w at_ e) v = rw e (report-IsSound r w p at_ v)
  Step-IsSound {p} (refuses x at_ e) v = rw e (record {
    thread = rw at_ at v.thread;
    caller = OfCaller-moved p.caller p.thread _ (λ h. ground (arith, h, at_)) v.caller;
    ready = tt;
  })
  Step-IsSound {p} (changes plane e) v =
      rw e (record { thread = v.thread; caller = v.caller; ready = v.ready })
