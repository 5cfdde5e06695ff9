-- ===== src/Lan/Best.antt =====
-- What the loops of `pick` in bridge/src/matter/lan_netif.rs keep.
use mathlib.Core.List.{Memᴰ}
use mathlib.Core.List.Memᴰ
use mathlib.Core.List.Memᴰ.{head, tail}
use thatsmatter.Base.{
  ℕ, ◌≤◌, ◌≡◌, ◌≢◌, Bool, true, false, List, [], ◌∷◌, Option, none, some, arith, leb, Option-cases,
  Bool-cases, ◌⊎◌, inl, inr,
}
use thatsmatter.Lan.{UnixNetif, score_iface, better, best}

better-some : (i : UnixNetif) (o : Option (ℕ × UnixNetif)) → better i o ≢ none
unfolding better
better-some i o h = ground arith

better-from :
    (i : UnixNetif) (o : Option (ℕ × UnixNetif)) (s : ℕ) (j : UnixNetif)
    → better i o ≡ some (s, j)
    → (o ≡ some (s, j)) ⊎ ((s ≡ score_iface i) × (j ≡ i))
unfolding better
better-from i none s j h = inr (ground arith, ground arith)
better-from i (some (t, k)) s j h = elim (Bool-cases (leb (score_iface i) t)) [
  | inl y ↦ inl (ground arith)
  | inr n ↦ inr (ground arith, ground arith)
]

-- A score never falls: the best is at least what was offered, and what was best before.
better-le :
    (i : UnixNetif) (o : Option (ℕ × UnixNetif)) (s : ℕ) (j : UnixNetif)
    → better i o ≡ some (s, j)
    → (score_iface i ≤ s) × ((t : ℕ) (k : UnixNetif) → o ≡ some (t, k) → t ≤ s)
unfolding better
better-le i o s j h = (ground arith, λ t k e. ground arith)

module _ (p : UnixNetif → Bool) where
  pub best-none :
      (xs : List UnixNetif) (acc : Option (ℕ × UnixNetif))
      → best p xs acc ≡ none
      → (acc ≡ none) × ((j : UnixNetif) → Memᴰ j xs → p j ≡ false)
  unfolding best
  best-none [] acc h = (h, λ j m. absurd (Memᴰ.not-nil m))
  best-none (x ∷ xs) acc h = elim (Bool-cases (p x)) [
    | inl t ↦
        let (a, b) = best-none xs (better x acc) (ground arith) in absurd (better-some x acc a)
    | inr f ↦
        let (a, b) = best-none xs acc (ground arith) in
        (a, λ j m. elim (Memᴰ.cases_cons m) [ inl e ↦ rw e f | inr n ↦ b j n ])
  ]

  pub best-from :
      (xs : List UnixNetif) (acc : Option (ℕ × UnixNetif)) (s : ℕ) (i : UnixNetif)
      → best p xs acc ≡ some (s, i)
      → (acc ≡ some (s, i)) ⊎ (Memᴰ i xs × (p i ≡ true) × (s ≡ score_iface i))
  unfolding best
  best-from [] acc s i h = inl h
  best-from (x ∷ xs) acc s i h = elim (Bool-cases (p x)) [
    | inl t ↦ elim (best-from xs (better x acc) s i (ground arith)) [
      | inl a ↦ elim (better-from x acc s i a) [
        | inl o ↦ inl o
        | inr (q, e) ↦ inr (head e, rw e t, rw e q)
      ]
      | inr (m, q, e) ↦ inr (tail m, q, e)
    ]
    | inr f ↦ elim (best-from xs acc s i (ground arith)) [
      | inl a ↦ inl a
      | inr (m, q, e) ↦ inr (tail m, q, e)
    ]
  ]

  pub best-tops :
      (xs : List UnixNetif) (acc : Option (ℕ × UnixNetif)) (s : ℕ) (i : UnixNetif)
      → best p xs acc ≡ some (s, i)
      → ((j : UnixNetif) → Memᴰ j xs → p j ≡ true → score_iface j ≤ s)
        × ((t : ℕ) (k : UnixNetif) → acc ≡ some (t, k) → t ≤ s)
  unfolding best
  best-tops [] acc s i h = (λ j m. absurd (Memᴰ.not-nil m), λ t k e. ground arith)
  best-tops (x ∷ xs) acc s i h = elim (Bool-cases (p x)) [
    | inl t ↦
        let (tops, keeps) = best-tops xs (better x acc) s i (ground arith) in
        elim (Option-cases (better x acc)) [
          | inl n ↦ absurd (better-some x acc n)
          | inr ((u, k), e) ↦
              let (l, m) = better-le x acc u k e in
              let r : u ≤ s = keeps u k e in
              (
                λ j m' q. elim (Memᴰ.cases_cons m') [
                  | inl a ↦ rw a (omega arith)
                  | inr n ↦ tops j n q
                ],
                λ t' k' e'. omega (arith, m t' k' e'),
              )
        ]
    | inr f ↦
        let (tops, keeps) = best-tops xs acc s i (ground arith) in
        (
          λ j m q. elim (Memᴰ.cases_cons m) [ inl a ↦ absurd (ground arith) | inr n ↦ tops j n q ],
          keeps,
        )
  ]
