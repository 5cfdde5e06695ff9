-- ===== src/Matter/NodeLabel.antt =====
-- `clamp_utf8` of bridge/src/matter/export_plane.rs: a name cut to a number of bytes, never inside
-- a code point.
use thatsmatter.Base.{
  ℕ, zero, suc, ◌+◌, ◌-◌, ◌≤◌, ◌<◌, ◌≡◌, refl, ap, Bool, true, false, [], ◌∷◌, ◌++◌, arith, leb,
  if◌then◌else◌, Bool-cases, inl, inr,
}
use mathlib.Core.List.{append-nil}
use thatsmatter.Base.Text.{Text, len, utf8_len}

-- `str::is_char_boundary`.
unfoldable pub is_char_boundary : Text → ℕ → Bool
is_char_boundary s zero = true
is_char_boundary [] (suc n) = false
is_char_boundary (c ∷ s) (suc n) =
    let rest = is_char_boundary s (suc n - utf8_len c) in
    if leb (utf8_len c) (suc n) then rest else false

-- The loop: down from `end` to a boundary.
unfoldable pub floor_boundary : Text → ℕ → ℕ
floor_boundary s zero = 0
floor_boundary s (suc n) =
    let rest = floor_boundary s n in if is_char_boundary s (suc n) then suc n else rest

-- `&value[..end]`.
unfoldable pub slice_to : Text → ℕ → Text
slice_to [] end = []
slice_to (c ∷ s) end =
    let rest = slice_to s (end - utf8_len c) in if leb (utf8_len c) end then c ∷ rest else []

unfoldable pub clamp_utf8 : Text → ℕ → Text
unfolding floor_boundary slice_to
clamp_utf8 value max_bytes =
    if leb (len value) max_bytes then value else slice_to value (floor_boundary value max_bytes)

boundary-zero : (s : Text) (n : ℕ) → n ≡ 0 → is_char_boundary s n ≡ true
unfolding is_char_boundary
boundary-zero s zero e = refl
boundary-zero s (suc n) e = absurd (omega arith)

slice_to-inside :
    (s : Text) (n : ℕ) → is_char_boundary s (suc n) ≡ false → slice_to s (suc n) ≡ slice_to s n
unfolding is_char_boundary slice_to
slice_to-inside [] n h = refl
slice_to-inside (c ∷ s) n h = elim (Bool-cases (leb (utf8_len c) n)) [
  | inl small ↦
      let e : suc n - utf8_len c ≡ suc (n - utf8_len c) = ground arith in
      let ih = slice_to-inside s (n - utf8_len c) (rw (← e) (ground arith)) in
      let step : slice_to s (suc n - utf8_len c) ≡ slice_to s (n - utf8_len c) = rw e ih in
      ground arith
  | inr large ↦ ground (arith, boundary-zero s (suc n - utf8_len c))
]

slice_to-floor : (s : Text) (n : ℕ) → slice_to s (floor_boundary s n) ≡ slice_to s n
unfolding floor_boundary
slice_to-floor s zero = refl
slice_to-floor s (suc n) = ground (arith, slice_to-inside s n, slice_to-floor s n)

-- A text that is cut: what is left of it, and why no more is kept.
pub record IsCut (s kept : Text) (room : ℕ) : Type 0 where
  pub rest : Text
  pub whole : s ≡ kept ++ rest
  pub fits : len kept ≤ room
  pub tight : (c : ℕ) (t : Text) → rest ≡ c ∷ t → room < len kept + utf8_len c

slice_to-IsCut : (s : Text) (room : ℕ) → IsCut s (slice_to s room) room
unfolding slice_to
slice_to-IsCut [] room = record { rest = []; whole = refl; fits = omega arith; tight = λ c t e. cc }
slice_to-IsCut (c ∷ s) room = elim (Bool-cases (leb (utf8_len c) room)) [
  | inl yes_fits ↦
      let k = slice_to-IsCut s (room - utf8_len c) in
      rw yes_fits (record {
        rest = k.rest;
        whole = ap (◌∷◌ c) k.whole;
        fits = ground (arith, k.fits);
        tight = λ d t e. ground (arith, k.tight d t e);
      })
  | inr over ↦
      rw over
        (record { rest = c ∷ s; whole = refl; fits = omega arith; tight = λ d t e. ground arith })
]

-- The clamp is a prefix of at most `max_bytes` bytes, and where it cuts, the next code point would
-- not fit.
pub clamp_utf8-IsCut : (s : Text) (max_bytes : ℕ) → IsCut s (clamp_utf8 s max_bytes) max_bytes
unfolding clamp_utf8
clamp_utf8-IsCut s max_bytes = elim (Bool-cases (leb (len s) max_bytes)) [
  | inl short ↦
      rw short
        (record { rest = []; whole = rw append-nil refl; fits = ground arith; tight = λ c t e. cc })
  | inr long ↦ rw (long, slice_to-floor) (slice_to-IsCut s max_bytes)
]
