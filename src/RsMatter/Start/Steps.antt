-- ===== src/RsMatter/Start/Steps.antt =====
-- The steps of the stack thread of bridge/src/matter/rs_matter_backend.rs, taken one after the
-- other.
use thatsmatter.Base.{
  ℕ, zero, suc, ◌+◌, ◌≤◌, ◌≡◌, refl, Bool, true, false, Option, none, some, Result, ok, err, inl,
  inr, ◌⊎◌, arith, subst, ◌∙◌,
}
use thatsmatter.Base.Text.{Text}
use thatsmatter.Matter.Plane.{ExportPlane}
use thatsmatter.RsMatter.{Host, StackError, MdnsChoice, prepare}
use thatsmatter.RsMatter.Threads.{
  Thread, absent, starting, prepared, announcing, serving, left, stopped, refusing, ended, Process,
  set_running, set_error, after_prepare, report, prepares, runs, announces, leaves, stops, reports,
  refuses, Reach, next,
}
use thatsmatter.RsMatter.Start.{thread_step_at, thread_steps}

-- What the thread's place says `n` steps after its spawn, the caller having read nothing yet.
abbrev pub At :
    ℕ → Thread → Option (Result StackError (Unit {0})) → Bool → Option StackError → Type 0
At n absent ready running error = ⊥
At n starting ready running error = (ready ≡ none) × (error ≡ none)
At n (prepared c) ready running error = (ready ≡ none) × (error ≡ none) × (1 ≤ n)
At n (announcing c) ready running error =
    (ready ≡ none) × (error ≡ none) × (running ≡ true) × (2 ≤ n)
At n (serving c) ready running error = (error ≡ none) × (running ≡ true) × (3 ≤ n)
At n (left x true) ready running error = (error ≡ none) × (running ≡ true) × (4 ≤ n)
At n (left x false) ready running error = ready ≡ none
At n (stopped x true) ready running error = (running ≡ false) × (5 ≤ n)
At n (stopped x false) ready running error = ready ≡ none
At n (refusing e) ready running error = ready ≡ none
At n (ended x) ready running error = ready ≡ some (ok tt) → (running ≡ false) × (5 ≤ n)

abbrev pub IsAt : ℕ → Process → Type 0
IsAt n p = At n p.thread p.ready p.backend.running p.backend.error

-- What the thread's place says `n` steps after its spawn, once it has announced itself.
abbrev pub Stays : ℕ → Thread → Bool → Option StackError → Type 0
Stays n (serving c) running error = (running ≡ true) × (error ≡ none) × (3 ≤ n)
Stays n (left x true) running error = (running ≡ true) × (error ≡ none) × (4 ≤ n)
Stays n (stopped x true) running error = (running ≡ false) × (5 ≤ n)
Stays n (ended x) running error = (running ≡ false) × (5 ≤ n)
Stays n _ running error = ⊥

abbrev pub DoesStay : ℕ → Process → Type 0
DoesStay n p = Stays n p.thread p.backend.running p.backend.error

-- Once the thread has announced itself, its message stays until the caller takes it.
abbrev pub Announced : Thread → Type 0
Announced (serving c) = Unit
Announced (left x true) = Unit
Announced (stopped x true) = Unit
Announced (ended x) = Unit
Announced _ = ⊥

module _ (host : Host) (mdns_interface : Option Text) where
  abbrev pub steps : ℕ → Process → Process
  steps n p = thread_steps host mdns_interface n p

  abbrev step_at : Thread → Process → Process
  step_at t p = thread_step_at host mdns_interface t p

  -- Each of these steps is one of the thread's.
  step-Reach :
      {o p : Process} (t : Thread)
      → p.thread ≡ t
      → Reach host mdns_interface o p
      → Reach host mdns_interface o (step_at t p)
  unfolding thread_step_at
  step-Reach absent h r = r
  step-Reach starting h r = next r (prepares h refl)
  step-Reach (prepared c) h r = next r (runs c h refl)
  step-Reach (announcing c) h r = next r (announces c h refl)
  step-Reach (serving c) h r = next r (leaves c h refl)
  step-Reach (left x w) h r = next r (stops x w h refl)
  step-Reach (stopped x w) h r = next r (reports x w h refl)
  step-Reach (refusing e) h r = next r (refuses e h refl)
  step-Reach (ended x) h r = r

  pub steps-Reach :
      {o : Process} (n : ℕ) (p : Process)
      → Reach host mdns_interface o p
      → Reach host mdns_interface o (steps n p)
  unfolding thread_steps
  steps-Reach zero p r = r
  steps-Reach (suc n) p r = steps-Reach n (step_at p.thread p) (step-Reach p.thread refl r)

  after_prepare-caller :
      (x : Result StackError MdnsChoice × ExportPlane) (p : Process)
      → (after_prepare x p).caller ≡ p.caller
  unfolding after_prepare
  after_prepare-caller (ok c, plane) p = refl
  after_prepare-caller (err e, plane) p = refl

  report-caller :
      (x : Result StackError (Unit {0})) (w : Bool) (p : Process) → (report x w p).caller ≡ p.caller
  unfolding report
  report-caller (err e) false p = refl
  report-caller (err e) true p = refl
  report-caller (ok u) true p = refl
  report-caller (ok u) false p = refl

  -- The thread leaves the caller where it is.
  step-caller : (t : Thread) (p : Process) → (step_at t p).caller ≡ p.caller
  unfolding thread_step_at
  step-caller absent p = refl
  step-caller starting p = after_prepare-caller (prepare host mdns_interface p.backend.plane) p
  step-caller (prepared c) p = refl
  step-caller (announcing c) p = refl
  step-caller (serving c) p = refl
  step-caller (left x w) p = refl
  step-caller (stopped x w) p = report-caller x w p
  step-caller (refusing e) p = refl
  step-caller (ended x) p = refl

  pub steps-caller : (n : ℕ) (p : Process) → (steps n p).caller ≡ p.caller
  unfolding thread_steps
  steps-caller zero p = refl
  steps-caller (suc n) p = steps-caller n (step_at p.thread p) ∙ step-caller p.thread p

  report-IsAt :
      (n : ℕ) (x : Result StackError (Unit {0})) (w : Bool) (p : Process)
      → At n (stopped x w) p.ready p.backend.running p.backend.error
      → IsAt (suc n) (report x w p)
  unfolding report set_error
  report-IsAt n (err e) false p a = a
  report-IsAt n (err e) true p a = λ h. (a.0, omega (arith, a.1))
  report-IsAt n (ok u) true p a = λ h. (a.0, omega (arith, a.1))
  report-IsAt n (ok u) false p a = λ h. absurd (ground (arith, a, h))

  after_prepare-IsAt :
      (n : ℕ) (x : Result StackError MdnsChoice × ExportPlane) (p : Process)
      → p.ready ≡ none
      → p.backend.error ≡ none
      → IsAt (suc n) (after_prepare x p)
  unfolding after_prepare
  after_prepare-IsAt n (ok c, plane) p r e = (r, e, omega arith)
  after_prepare-IsAt n (err x, plane) p r e = r

  step-IsAt :
      (n : ℕ) (t : Thread) (p : Process)
      → At n t p.ready p.backend.running p.backend.error
      → p.thread ≡ t
      → IsAt (suc n) (step_at t p)
  unfolding thread_step_at set_running
  step-IsAt n absent p a h = elim a [ ]
  step-IsAt n starting p a h =
      after_prepare-IsAt n (prepare host mdns_interface p.backend.plane) p a.0 a.1
  step-IsAt n (prepared c) p a h = (a.0, a.1, refl, omega (arith, a.2))
  step-IsAt n (announcing c) p a h = (a.1, a.2, omega (arith, a.3))
  step-IsAt n (serving c) p a h = (a.0, a.1, omega (arith, a.2))
  step-IsAt n (left x true) p a h = (refl, omega (arith, a.2))
  step-IsAt n (left x false) p a h = a
  step-IsAt n (stopped x true) p a h = report-IsAt n x true p a
  step-IsAt n (stopped x false) p a h = report-IsAt n x false p a
  step-IsAt n (refusing e) p a h = λ q. absurd (ground (arith, q))
  step-IsAt n (ended x) p a h = rw h (λ q. let (down, late) = a q in (down, omega (arith, late)))

  pub steps-IsAt : (m n : ℕ) (p : Process) → IsAt m p → IsAt (m + n) (steps n p)
  unfolding thread_steps
  steps-IsAt m zero p a = subst (λ k. IsAt k p) (omega arith) a
  steps-IsAt m (suc n) p a =
      subst (λ k. IsAt k (steps n (step_at p.thread p))) (omega arith)
        (steps-IsAt (suc m) n (step_at p.thread p) (step-IsAt m p.thread p a refl))

  pub At-Stays :
      (n : ℕ) (t : Thread) (running : Bool) (error : Option StackError)
      → At n t (some (ok tt)) running error
      → Stays n t running error
  At-Stays n absent running error a = a
  At-Stays n starting running error a = absurd (ground (arith, a.0))
  At-Stays n (prepared c) running error a = absurd (ground (arith, a.0))
  At-Stays n (announcing c) running error a = absurd (ground (arith, a.0))
  At-Stays n (serving c) running error a = (a.1, a.0, a.2)
  At-Stays n (left x true) running error a = (a.1, a.0, a.2)
  At-Stays n (left x false) running error a = absurd (ground (arith, a))
  At-Stays n (stopped x true) running error a = a
  At-Stays n (stopped x false) running error a = absurd (ground (arith, a))
  At-Stays n (refusing e) running error a = absurd (ground (arith, a))
  At-Stays n (ended x) running error a = a refl

  step-Stays :
      (n : ℕ) (t : Thread) (p : Process)
      → Stays n t p.backend.running p.backend.error
      → p.thread ≡ t
      → DoesStay (suc n) (step_at t p)
  unfolding thread_step_at set_running report set_error
  step-Stays n absent p a h = elim a [ ]
  step-Stays n starting p a h = elim a [ ]
  step-Stays n (prepared c) p a h = elim a [ ]
  step-Stays n (announcing c) p a h = elim a [ ]
  step-Stays n (serving c) p a h = (a.0, a.1, omega (arith, a.2))
  step-Stays n (left x true) p a h = (refl, omega (arith, a.2))
  step-Stays n (left x false) p a h = elim a [ ]
  step-Stays n (stopped (ok u) true) p a h = (a.0, omega (arith, a.1))
  step-Stays n (stopped (err e) true) p a h = (a.0, omega (arith, a.1))
  step-Stays n (stopped x false) p a h = elim a [ ]
  step-Stays n (refusing e) p a h = elim a [ ]
  step-Stays n (ended x) p a h = rw h (a.0, omega (arith, a.1))

  pub steps-Stays : (m n : ℕ) (p : Process) → DoesStay m p → DoesStay (m + n) (steps n p)
  unfolding thread_steps
  steps-Stays m zero p a = subst (λ k. DoesStay k p) (omega arith) a
  steps-Stays m (suc n) p a =
      subst (λ k. DoesStay k (steps n (step_at p.thread p))) (omega arith)
        (steps-Stays (suc m) n (step_at p.thread p) (step-Stays m p.thread p a refl))

  pub Stays-Status :
      (n : ℕ) (t : Thread) (running : Bool) (error : Option StackError)
      → Stays n t running error
      → ((running ≡ true) × (error ≡ none)) ⊎ ((running ≡ false) × (5 ≤ n))
  Stays-Status n absent running error a = elim a [ ]
  Stays-Status n starting running error a = elim a [ ]
  Stays-Status n (prepared c) running error a = elim a [ ]
  Stays-Status n (announcing c) running error a = elim a [ ]
  Stays-Status n (serving c) running error a = inl (a.0, a.1)
  Stays-Status n (left x true) running error a = inl (a.0, a.1)
  Stays-Status n (left x false) running error a = elim a [ ]
  Stays-Status n (stopped x true) running error a = inr a
  Stays-Status n (stopped x false) running error a = elim a [ ]
  Stays-Status n (refusing e) running error a = elim a [ ]
  Stays-Status n (ended x) running error a = inr a

  step-Announced :
      (t : Thread) (p : Process)
      → Announced t
      → p.thread ≡ t
      → Announced (step_at t p).thread × ((step_at t p).ready ≡ p.ready)
  unfolding thread_step_at report
  step-Announced absent p a h = elim a [ ]
  step-Announced starting p a h = elim a [ ]
  step-Announced (prepared c) p a h = elim a [ ]
  step-Announced (announcing c) p a h = elim a [ ]
  step-Announced (serving c) p a h = (tt, refl)
  step-Announced (left x true) p a h = (tt, refl)
  step-Announced (left x false) p a h = elim a [ ]
  step-Announced (stopped (ok u) true) p a h = (tt, refl)
  step-Announced (stopped (err e) true) p a h = (tt, refl)
  step-Announced (stopped x false) p a h = elim a [ ]
  step-Announced (refusing e) p a h = elim a [ ]
  step-Announced (ended x) p a h = (rw h tt, refl)

  pub steps-ready : (n : ℕ) (p : Process) → Announced p.thread → (steps n p).ready ≡ p.ready
  unfolding thread_steps
  steps-ready zero p a = refl
  steps-ready (suc n) p a =
      let (still, same) = step-Announced p.thread p a refl in
      steps-ready n (step_at p.thread p) still ∙ same
