-- ===== src/Matter/Generation/Progress.antt =====
-- The loop of the stack thread over the configuration changes of bridge/src/matter/export_plane.rs,
-- left to itself.
use thatsmatter.Base.{ℕ, ◌≡◌, refl, arith, ◌==◌, Bool-cases, inl, inr, ◌∙◌}
use thatsmatter.Matter.Generation.{
  Place, idle, loaded, bumping, acknowledging, Shared, acknowledge, Step, request, load, finish,
  begin, bump, bump_failed, ack, Reach, start, IsValid, Step-IsValid, start-IsValid, Reach-IsValid,
}

-- A step of the stack thread itself, but for a bump that fails.
abbrev pub IsOwn : {s t : Shared} → Step s t → Type 0
IsOwn (request e) = ⊥
IsOwn (load p e) = Unit
IsOwn (finish r p q e) = Unit
IsOwn (begin r p q e) = Unit
IsOwn (bump r p e) = Unit
IsOwn (bump_failed r p e) = ⊥
IsOwn (ack r p e) = Unit

pub data OwnRun (s : Shared) : Shared → Type 0 where
  stay : OwnRun s s
  go : {t u : Shared} → OwnRun s t → (step : Step t u) → IsOwn step → OwnRun s u

OwnRun-IsValid : {s t : Shared} → OwnRun s t → IsValid s → IsValid t
OwnRun-IsValid stay v = v
OwnRun-IsValid (go run step own) v = Step-IsValid step (OwnRun-IsValid run v)

append : {s t u : Shared} → OwnRun s t → OwnRun t u → OwnRun s u
append a stay = a
append a (go run step own) = go (append a run) step own

-- A run to the end of a round of the loop.
record Round (s : Shared) : Type 0 where
  end : Shared
  run : OwnRun s end
  at_rest : end.place ≡ idle
  same : end.config_requested ≡ s.config_requested

from_acknowledging : (s : Shared) (r : ℕ) → s.place ≡ acknowledging r → Round s
from_acknowledging s r p = record {
  end = _;
  run = go stay (ack r p refl) tt;
  at_rest = refl;
  same = refl;
}

from_bumping : (s : Shared) (r : ℕ) → s.place ≡ bumping r → Round s
from_bumping s r p = record {
  end = _;
  run = go (go stay (bump r p refl) tt) (ack r refl refl) tt;
  at_rest = refl;
  same = refl;
}

from_loaded : (s : Shared) (r : ℕ) → s.place ≡ loaded r → Round s
from_loaded s r p = elim (Bool-cases (r == s.config_applied)) [
  | inl t ↦ record {
    end = _;
    run = go stay (finish r p (ground (arith, t)) refl) tt;
    at_rest = refl;
    same = refl;
  }
  | inr f ↦ record {
    end = _;
    run =
        go (go (go stay (begin r p (λ h. ground (arith, f, h)) refl) tt) (bump r refl refl) tt)
          (ack r refl refl) tt;
    at_rest = refl;
    same = refl;
  }
]

to_idle : (s : Shared) (p : Place) → s.place ≡ p → Round s
to_idle s idle p = record { end = s; run = stay; at_rest = p; same = refl }
to_idle s (loaded r) p = from_loaded s r p
to_idle s (bumping r) p = from_bumping s r p
to_idle s (acknowledging r) p = from_acknowledging s r p

-- A run that applies what is requested.
abbrev pub Applies : Shared → Type 0
Applies s =
    (t : Shared) × OwnRun s t
    × (t.config_applied ≡ t.config_requested)
    × (t.config_requested ≡ s.config_requested)
    × (t.place ≡ idle)

from_idle : (s : Shared) → IsValid s → s.place ≡ idle → Applies s
unfolding acknowledge
from_idle s v p = elim (Bool-cases (s.config_requested == s.config_applied)) [
  | inl t ↦ (
    _,
    go (go stay (load p refl) tt) (finish s.config_requested refl (ground (arith, t)) refl) tt,
    ground (arith, t),
    refl,
    refl,
  )
  | inr f ↦ (
    _,
    go
        (go
          (go (go stay (load p refl) tt)
            (begin s.config_requested refl (λ h. ground (arith, f, h)) refl) tt)
          (bump s.config_requested refl refl) tt)
        (ack s.config_requested refl refl) tt,
    ground (arith, v.applied, v.bumped),
    refl,
    refl,
  )
]

-- From every state that interleaved requests can lead to, the stack thread left to itself, with
-- bumps that succeed, comes to rest with the latest request applied, and bumped.
pub requests_get_applied :
    (s : Shared)
    → Reach start s
    → (t : Shared) × OwnRun s t
      × (t.config_applied ≡ s.config_requested)
      × (t.bumped ≡ s.config_requested)
      × (t.place ≡ idle)
requests_get_applied s r =
    let round = to_idle s s.place refl in
    let v : IsValid round.end = OwnRun-IsValid round.run (Reach-IsValid start-IsValid r) in
    let (t, run, applied, same, rest) = from_idle round.end v round.at_rest in
    let w : IsValid t = OwnRun-IsValid run v in
    let total : t.config_requested ≡ s.config_requested = same ∙ round.same in
    (
      t,
      append round.run run,
      applied ∙ total,
      ground (arith, w.applied, w.bumped, applied, total),
      rest,
    )
