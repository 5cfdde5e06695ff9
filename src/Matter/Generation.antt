-- ===== src/Matter/Generation.antt =====
-- The hand-over of configuration changes in bridge/src/matter/export_plane.rs, between
-- `set_exports` on the control plane's threads and `run` on the stack thread, as interleaved steps.
-- The counters are the two atomics; `bumped` is the highest request that had been made when a
-- successful bump of the configuration version began, which no code stores. A 64-bit counter is
-- taken not to wrap.
pub mod Progress
mod Examples
use thatsmatter.Base.{ℕ, ◌+◌, ◌≤◌, ◌≡◌, ◌≢◌, arith, ltb, if◌then◌else◌}

-- Where the stack thread is in its loop over the outstanding generations.
pub data Place : Type 0 where
  idle : Place
  loaded : (requested : ℕ) → Place
  bumping : (requested : ℕ) → Place
  acknowledging : (requested : ℕ) → Place

pub record Shared : Type 0 where
  pub config_requested : ℕ
  pub config_applied : ℕ
  pub bumped : ℕ
  pub place : Place

-- `acknowledge_config_generation`: the compare-and-exchange loop raises the counter to the
-- generation, unless it is there already.
unfoldable pub acknowledge : ℕ → ℕ → ℕ
acknowledge applied generation = if ltb applied generation then generation else applied

pub data Step (s : Shared) (t : Shared) : Type 0 where
  -- `set_exports` after a surface change.
  request : t ≡ record s { config_requested = s.config_requested + 1 } → Step s t
  -- The loads of the two counters, and the test that ends the loop.
  load : (s.place ≡ idle) → t ≡ record s { place = loaded s.config_requested } → Step s t
  finish :
      (r : ℕ) → s.place ≡ loaded r → r ≡ s.config_applied → t ≡ record s { place = idle } → Step s t
  begin :
      (r : ℕ)
      → s.place ≡ loaded r
      → r ≢ s.config_applied
      → t ≡ record s { place = bumping r }
      → Step s t
  -- `bump_configuration_version` succeeds, or fails and leaves the generation pending.
  bump :
      (r : ℕ)
      → s.place ≡ bumping r
      → t ≡ record s { bumped = r; place = acknowledging r }
      → Step s t
  bump_failed : (r : ℕ) → s.place ≡ bumping r → t ≡ record s { place = idle } → Step s t
  ack :
      (r : ℕ)
      → s.place ≡ acknowledging r
      → t ≡ record s { config_applied = acknowledge s.config_applied r; place = idle }
      → Step s t

pub data Reach (s : Shared) : Shared → Type 0 where
  here : Reach s s
  next : {t u : Shared} → Reach s t → Step t u → Reach s u

abbrev pub start : Shared
start = record { config_requested = 0; config_applied = 0; bumped = 0; place = idle }

-- What the thread has loaded is no later than the counter, and what it acknowledges is bumped.
abbrev PlaceIsValid : ℕ → ℕ → ℕ → Place → Type 0
PlaceIsValid requested applied bumped idle = Unit
PlaceIsValid requested applied bumped (loaded r) = (bumped ≤ r) × (r ≤ requested)
PlaceIsValid requested applied bumped (bumping r) = (bumped ≤ r) × (r ≤ requested)
PlaceIsValid requested applied bumped (acknowledging r) = (r ≤ requested) × (bumped ≡ r)

record IsValid (s : Shared) : Type 0 where
  applied : s.config_applied ≤ s.bumped
  bumped : s.bumped ≤ s.config_requested
  place : PlaceIsValid s.config_requested s.config_applied s.bumped s.place

Step-IsValid : {s t : Shared} → Step s t → IsValid s → IsValid t
unfolding acknowledge
Step-IsValid (request e) v = ground arith
Step-IsValid (load p e) v = ground arith
Step-IsValid (finish r p q e) v = ground arith
Step-IsValid (begin r p q e) v = ground arith
Step-IsValid (bump r p e) v = ground arith
Step-IsValid (bump_failed r p e) v = ground arith
Step-IsValid (ack r p e) v = ground arith

start-IsValid : IsValid start
start-IsValid = record { applied = omega arith; bumped = omega arith; place = tt }

Reach-IsValid : {s t : Shared} → IsValid s → Reach s t → IsValid t
Reach-IsValid v here = v
Reach-IsValid v (next r st) = Step-IsValid st (Reach-IsValid v r)

-- However the requests interleave with the stack thread, no request is lost: what is acknowledged
-- has been bumped, and when the counters agree, so that no bump is pending, a bump that began after
-- the last request has succeeded.
pub no_lost_request :
    (s : Shared)
    → Reach start s
    → (s.config_applied ≤ s.bumped)
      × (s.bumped ≤ s.config_requested)
      × (s.config_requested ≡ s.config_applied → s.bumped ≡ s.config_requested)
no_lost_request s r =
    let v = Reach-IsValid start-IsValid r in (v.applied, v.bumped, λ e. ground arith)
