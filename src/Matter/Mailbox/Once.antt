-- ===== src/Matter/Mailbox/Once.antt =====
-- What becomes of the requests in the mailbox of bridge/src/matter/export_plane.rs.
use thatsmatter.Base.{
  ℕ, ◌+◌, ◌≤◌, ◌<◌, ◌≡◌, refl, true, false, List, [], ◌∷◌, ◌++◌, map, Option, none, some, arith,
  All, contains, ok, Option-cases, inl, inr,
}
use thatsmatter.Matter.Plane.{ExportPlane}
use thatsmatter.Matter.Window.{WindowOp}
use thatsmatter.Matter.Mailbox.{
  WindowRequest, Shared, idle, Step, posts, bounces, takes, replies, returns, times_out, Reach,
  here, next, post, give_up, take_request, without,
}

abbrev pub call_of : Option WindowRequest → List ℕ
call_of none = []
call_of (some r) = r.call ∷ []

-- The calls whose request is in the mailbox, with the stack thread, or carried out.
abbrev pub alive : Shared → List ℕ
alive s = call_of s.window_request ++ (call_of s.executing ++ map (λ r. r.0) s.replies)

abbrev pub Distinct : List ℕ → Type 0
Distinct [] = Unit
Distinct (c ∷ cs) = (contains cs c ≡ false) × Distinct cs

-- What a step does to the requests.
data Fate (s : Shared) (t : Shared) : Type 0 where
  posted : alive t ≡ s.calls ∷ alive s → t.calls ≡ s.calls + 1 → Fate s t
  kept : alive t ≡ alive s → s.calls ≤ t.calls → Fate s t
  dropped : (call : ℕ) → alive s ≡ call ∷ alive t → s.calls ≤ t.calls → Fate s t

post-ok :
    (r : WindowRequest) (slot : Option WindowRequest)
    → (post r slot).0 ≡ ok tt
    → (slot ≡ none) × ((post r slot).1 ≡ some r)
unfolding post
post-ok r none p = (refl, refl)
post-ok r (some other) p = ground arith

Step-Fate : {s t : Shared} → Step s t → Fate s t
unfolding give_up take_request
Step-Fate {s} (posts op p e) =
    let found = post-ok (record { call = s.calls; op = op }) s.window_request p in
    posted (ground (arith, e, found.0, found.1)) (ground (arith, e))
Step-Fate {s} (bounces op p e) = kept (ground (arith, e)) (ground (arith, e))
Step-Fate {s} (takes r free p e) = kept (ground (arith, e, free, p)) (ground (arith, e))
Step-Fate {s} (replies r now later ops p e) = kept (ground (arith, e, p)) (ground (arith, e))
Step-Fate {s} (returns c result x w e) = kept (ground (arith, e)) (ground (arith, e))
Step-Fate {s} (times_out c w e) = elim (Option-cases s.window_request) [
  | inl p ↦ kept (ground (arith, e, p)) (ground (arith, e))
  | inr (r, p) ↦ dropped r.call (ground (arith, e, p)) (ground (arith, e))
]

All-new : (cs : List ℕ) (n : ℕ) → All (λ c. c < n) cs → contains cs n ≡ false
All-new [] n h = refl
All-new (c ∷ cs) n h = ground (arith, All-new cs n h.1)

All-more : (cs : List ℕ) (n m : ℕ) → n ≤ m → All (λ c. c < n) cs → All (λ c. c < m) cs
All-more [] n m q h = tt
All-more (c ∷ cs) n m q h = (omega arith, All-more cs n m q h.1)

abbrev Sound : ℕ → List ℕ → Type 0
Sound n cs = All (λ c. c < n) cs × Distinct cs

Fate-Sound : {s t : Shared} → Fate s t → Sound s.calls (alive s) → Sound t.calls (alive t)
Fate-Sound {s} {t} (posted e n) v = rw e (
  (omega arith, All-more (alive s) s.calls t.calls (omega arith) v.0),
  (All-new (alive s) s.calls v.0, v.1),
)
Fate-Sound {s} {t} (kept e n) v = rw e (All-more (alive s) s.calls t.calls n v.0, v.1)
Fate-Sound {s} {t} (dropped c e n) v =
    let w : Sound s.calls (c ∷ alive t) = rw e at v in
    (All-more (alive t) s.calls t.calls n w.0.1, w.1.1)

Reach-Sound : {plane : ExportPlane} {s : Shared} → Reach (idle plane) s → Sound s.calls (alive s)
Reach-Sound here = (tt, tt)
Reach-Sound (next r step) = Fate-Sound (Step-Fate step) (Reach-Sound r)

-- However the calls and the stack thread interleave, no two of the requests in the mailbox, with
-- the stack thread, or carried out are one call's: each request is carried out at most once.
pub requests_once : {plane : ExportPlane} {s : Shared} → Reach (idle plane) s → Distinct (alive s)
requests_once r = (Reach-Sound r).1

Fate-lost :
    {s t : Shared} (call : ℕ)
    → Fate s t
    → (call < s.calls) × (contains (alive s) call ≡ false)
    → (call < t.calls) × (contains (alive t) call ≡ false)
Fate-lost {s} call (posted e n) (h, a) = (ground arith, ground (arith, e))
Fate-lost call (kept e n) (h, a) = (ground arith, ground (arith, e))
Fate-lost call (dropped c e n) (h, a) = (ground arith, ground (arith, e))

Reach-lost :
    {s t : Shared} (call : ℕ)
    → Reach s t
    → (call < s.calls) × (contains (alive s) call ≡ false)
    → (call < t.calls) × (contains (alive t) call ≡ false)
Reach-lost call here gone = gone
Reach-lost call (next r step) gone = Fate-lost call (Step-Fate step) (Reach-lost call r gone)

still_waits :
    (call other : ℕ) (waiting : List ℕ)
    → other < call
    → contains (without other (call ∷ waiting)) call ≡ true
still_waits call other waiting h = ground arith

abbrev with_post : WindowOp → Shared → Shared
with_post op s = record s {
  window_request = some (record { call = s.calls; op = op });
  waiting = s.calls ∷ s.waiting;
  calls = s.calls + 1;
}

posted_on : (op : WindowOp) (s : Shared) → s.window_request ≡ none → Reach s (with_post op s)
unfolding post
posted_on op s free = next here (posts op (rw free refl) (rw free refl))

-- While the stack thread carries out the request of a call that still waits, any other call can
-- post its own request and lose it: the first call's timeout empties the mailbox, and the second
-- call's request is never carried out though it still waits.
pub timeout_discards :
    {plane : ExportPlane} {s : Shared} (request : WindowRequest) (op : WindowOp)
    → Reach (idle plane) s
    → s.window_request ≡ none
    → s.executing ≡ some request
    → contains s.waiting request.call ≡ true
    → (t : Shared) × Reach s t
      × (contains t.waiting s.calls ≡ true)
      × ((u : Shared) → Reach t u → contains (alive u) s.calls ≡ false)
unfolding give_up
timeout_discards {plane} {s} request op r free busy waits =
    let made : All (λ c. c < s.calls) (alive s) = (Reach-Sound r).0 in
    let older : request.call < s.calls = (rw (free, busy) at made).0 in
    let unmade : contains (alive s) s.calls ≡ false = All-new (alive s) s.calls made in
    (
      _,
      next (posted_on op s free) (times_out request.call (ground (arith, waits)) refl),
      still_waits s.calls request.call s.waiting older,
      λ u later. (Reach-lost s.calls later (omega arith, rw free at unmade)).1,
    )
