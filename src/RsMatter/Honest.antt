-- ===== src/RsMatter/Honest.antt =====
-- What the flags of bridge/src/matter/rs_matter_backend.rs say of the stack thread.
use thatsmatter.Base.{◌≡◌, refl, Bool, true, false, Option, none, Result, ok, err, arith}
use thatsmatter.Base.Text.{Text}
use thatsmatter.RsMatter.{Host, StackError, MdnsChoice, RsMatterBackend, prepare}
use thatsmatter.RsMatter.Threads.{
  returned, Thread, absent, starting, prepared, announcing, serving, left, stopped, refusing, ended,
  Process, set_running, set_error, begin_start, receive, after_prepare, starts, receives, prepares,
  runs, announces, Reach, here, next, about_to_start,
}
use thatsmatter.RsMatter.Checks.{Prepared}
use thatsmatter.RsMatter.Invariant.{IsSome, OfThread, IsSound, Step-IsSound}

module _ (host : Host) (mdns_interface : Option Text) where
  Reach-IsSound :
      (b : RsMatterBackend) {p : Process}
      → Reach host mdns_interface (about_to_start b) p
      → IsSound host mdns_interface p
  Reach-IsSound b here = record { thread = refl; caller = refl; ready = tt }
  Reach-IsSound b (next r step) = Step-IsSound host mdns_interface step (Reach-IsSound b r)

  OfThread-running :
      (t : Thread) (running : Bool) (error : Option StackError)
      → OfThread host mdns_interface t running error
      → running ≡ true
      → Prepared host mdns_interface
  OfThread-running absent running error v h = absurd (ground (arith, v, h))
  OfThread-running starting running error v h = absurd (ground (arith, v, h))
  OfThread-running (prepared c) running error v h = v.1
  OfThread-running (announcing c) running error v h = v
  OfThread-running (serving c) running error v h = v
  OfThread-running (left r true) running error v h = v
  OfThread-running (left (err e) false) running error v h = absurd (ground (arith, v, h))
  OfThread-running (left (ok u) false) running error v h = elim v [ ]
  OfThread-running (stopped r w) running error v h = absurd (ground (arith, v.0, h))
  OfThread-running (refusing e) running error v h = absurd (ground (arith, v.0, h))
  OfThread-running (ended r) running error v h = absurd (ground (arith, v.0, h))

  -- However the caller of `start`, the stack thread and the other threads interleave: while the
  -- status says running, the checks of the ports, the stack's startup and the LAN interface have
  -- passed, and so they have if `start` returned success; and once the thread has ended, for
  -- whatever reason, the status says that it is not running and has an error.
  pub flags_honest :
      (b : RsMatterBackend) {p : Process}
      → Reach host mdns_interface (about_to_start b) p
      → (p.backend.running ≡ true → Prepared host mdns_interface)
        × (p.caller ≡ returned (ok tt) → Prepared host mdns_interface)
        × ((result : Result StackError (Unit {0}))
            → p.thread ≡ ended result
            → (p.backend.running ≡ false) × IsSome p.backend.error)
  flags_honest b {p} r =
      let v : IsSound host mdns_interface p = Reach-IsSound b r in
      (OfThread-running p.thread _ _ v.thread, λ h. rw h at v.caller, λ result h. rw h at v.thread)

  -- When the checks pass, `start` can return success with the thread serving and the status
  -- running.
  pub start_succeeds :
      (b : RsMatterBackend) (c : MdnsChoice)
      → (prepare host mdns_interface b.plane).0 ≡ ok c
      → (p : Process) × Reach host mdns_interface (about_to_start b) p
        × (p.caller ≡ returned (ok tt))
        × (p.thread ≡ serving c)
        × (p.backend.running ≡ true)
        × (p.backend.error ≡ none)
  unfolding begin_start set_error set_running receive after_prepare
  start_succeeds b c h = (
    _,
    next
        (next
          (next (next (next here (starts (ok tt) true refl refl)) (prepares refl refl))
            (runs c (rw h refl) refl))
          (announces c refl refl))
        (receives (ok tt) (rw h refl) refl refl),
    refl,
    refl,
    refl,
    rw h refl,
  )
