-- ===== src/Dev/Window.antt =====
-- What the backend of bridge/src/matter/dev.rs does with its pairing window and its expiry tasks.
use mathlib.Core.List.{Memᴰ}
use mathlib.Core.List.Memᴰ
use thatsmatter.Base.{ℕ, ◌≤◌, ◌≡◌, true, false, arith, inl, inr, Bool-cases}
use thatsmatter.Catalog.Model.{PairingMaterial}
use thatsmatter.Dev.{
  WindowState, DevMatterBackend, new, startup_pairing_timeout_secs, open_window, start, open_until,
  close, expire, is_open,
}

-- The steps that the window takes: a call that opens or closes it, a start, and an expiry task
-- whose sleep is over.
pub data Reach {V : Type 0} : DevMatterBackend V → Type 0 where
  created : (now : ℕ) (pairing : PairingMaterial) → Reach (new now pairing)
  opened : (b : DevMatterBackend V) (now timeout : ℕ) → Reach b → Reach (open_window now timeout b)
  closed : (b : DevMatterBackend V) → Reach b → Reach (record b { window = close b.window })
  started : (b : DevMatterBackend V) (now : ℕ) → Reach b → Reach (start now true b).1
  expired :
      (b : DevMatterBackend V) (g : ℕ)
      → Memᴰ g b.tasks
      → Reach b
      → Reach (record b { window = expire g b.window })

expire-generation : (g : ℕ) (w : WindowState) → (expire g w).generation ≡ w.generation
unfolding expire
expire-generation g w = ground arith

module _ {V : Type 0} where
  opened-tasks :
      (b : DevMatterBackend V) (now timeout : ℕ)
      → ((g : ℕ) → Memᴰ g b.tasks → g ≤ b.window.generation)
      → (g : ℕ) → Memᴰ g (open_window now timeout b).tasks
      → g ≤ (open_window now timeout b).window.generation
  unfolding open_window
  opened-tasks b now timeout h g m = elim (Memᴰ.cases_cons m) [
    | inl e ↦ omega (arith, e)
    | inr n ↦ omega (arith, h g n)
  ]

  Reach-tasks :
      {b : DevMatterBackend V} → Reach b → (g : ℕ) → Memᴰ g b.tasks → g ≤ b.window.generation
  unfolding new close expire start
  Reach-tasks (created now pairing) g m = absurd (Memᴰ.not-nil m)
  Reach-tasks (opened b now timeout r) g m = opened-tasks b now timeout (Reach-tasks r) g m
  Reach-tasks (closed b r) g m = omega (arith, Reach-tasks r g m)
  Reach-tasks (started b now r) g m = elim (Bool-cases (is_open now b.window)) [
    | inl o ↦ rw o (Reach-tasks r g (rw o at m))
    | inr c ↦ rw c (
        opened-tasks (record b { running = true }) now startup_pairing_timeout_secs (Reach-tasks r)
          g (rw c at m))
  ]
  Reach-tasks (expired b k k_in r) g m = rw expire-generation (Reach-tasks r g m)

  -- Whatever has happened, an expiry task that was scheduled before a window is opened or closed
  -- changes nothing after it; the task of the window itself closes it.
  expiry_own :
      (b : DevMatterBackend V) (now timeout : ℕ)
      → Reach b
      → ((g : ℕ)
          → Memᴰ g b.tasks
          → (expire g (open_window now timeout b).window ≡ (open_window now timeout b).window)
            × (expire g (close b.window) ≡ close b.window))
        × ((t : ℕ)
            → is_open t
                (expire (open_until now timeout b.window).0 (open_window now timeout b).window)
              ≡ false)
  unfolding expire open_window close is_open
  expiry_own b now timeout r =
      (λ g m. let le = Reach-tasks r g m in (ground arith, ground arith), λ t. ground arith)
