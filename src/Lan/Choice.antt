-- ===== src/Lan/Choice.antt =====
-- What the selection of bridge/src/matter/lan_netif.rs picks.
use mathlib.Core.List.{Memᴰ}
use mathlib.Core.List.Memᴰ.{head, tail}
use thatsmatter.Base.{
  ℕ, ◌≤◌, ◌≡◌, ◌↔◌, Bool, true, false, not, ◌&&◌, ◌||◌, List, [], ◌∷◌, Option, none, some, arith,
  find, ok, Option-cases, Bool-cases, inl, inr,
}
use thatsmatter.Base.Text.{Text, text_eq→eq}
use thatsmatter.Lan.{
  UnixNetif, is_loopback_name, is_virtual_name, has_matter_ipv6, score_iface, is_candidate,
  is_fallback, best, pinned, named, second, or_fallback, pick, validate_pinned, validate_for_start,
}
use thatsmatter.Lan.Best.{best-none, best-from, best-tops}

find-Mem :
    (p : UnixNetif → Bool) (xs : List UnixNetif) (i : UnixNetif)
    → find p xs ≡ some i
    → Memᴰ i xs × (p i ≡ true)
find-Mem p [] i h = absurd (ground arith)
find-Mem p (x ∷ xs) i h = elim (Bool-cases (p x)) [
  | inl t ↦ (head (ground arith), ground arith)
  | inr f ↦ let (m, q) = find-Mem p xs i (ground arith) in (tail m, q)
]

pinned-some :
    (o : Option UnixNetif) (i : UnixNetif)
    → pinned o ≡ some i
    → (o ≡ some i) × (has_matter_ipv6 i ≡ true)
unfolding pinned
pinned-some none i h = absurd (ground arith)
pinned-some (some j) i h = elim (Bool-cases (has_matter_ipv6 j)) [
  | inl t ↦ (ground arith, ground arith)
  | inr f ↦ absurd (ground arith)
]

validate-pinned :
    (o : Option UnixNetif)
    → (validate_pinned o ≡ ok tt) ↔ ((i : UnixNetif) × (pinned o ≡ some i) × (i.operational ≡ true))
unfolding validate_pinned pinned
validate-pinned none = (λ h. absurd (ground arith), λ (i, h, u). absurd (ground arith))
validate-pinned (some j) = (λ h. (j, ground arith, ground arith), λ (i, h, u). ground arith)

-- The interface that a pin selects is one of the host's of that very name, with an IPv6 address
-- that Matter can use; it need not be up. `validate_for_start` succeeds exactly when the pin
-- selects an interface that is up.
pick_pinned :
    (pin : Text) (ifaces : List UnixNetif)
    → ((i : UnixNetif)
        → pick (some pin) ifaces ≡ some i
        → Memᴰ i ifaces × (i.name ≡ pin) × (has_matter_ipv6 i ≡ true))
      × ((validate_for_start (some pin) ifaces ≡ ok tt)
          ↔ ((i : UnixNetif) × (pick (some pin) ifaces ≡ some i) × (i.operational ≡ true)))
unfolding pick validate_for_start
pick_pinned pin ifaces = (
  λ i h.
      let (e, six) = pinned-some (find (named pin) ifaces) i h in
      let (m, q) = find-Mem (named pin) ifaces i e in (m, text_eq→eq i.name pin q, six),
  validate-pinned (find (named pin) ifaces),
)

passes-candidate :
    (l v u h : Bool)
    → not (l || v) && not (not u || not h) ≡ true
    → (not (l || not u || not h) ≡ true) × (v ≡ false)
passes-candidate l v u h e = ground arith

passes-fallback :
    (l u h : Bool) → not (l || not u || not h) ≡ true → (u ≡ true) × (h ≡ true) × (l ≡ false)
passes-fallback l u h e = ground arith

candidate-lem :
    (i : UnixNetif)
    → is_candidate i ≡ true
    → (is_fallback i ≡ true) × (is_virtual_name i.name ≡ false)
unfolding is_candidate is_fallback
candidate-lem i h =
    passes-candidate (is_loopback_name i.name) (is_virtual_name i.name) i.operational
      (has_matter_ipv6 i) h

fallback-lem :
    (i : UnixNetif)
    → is_fallback i ≡ true
    → (i.operational ≡ true) × (has_matter_ipv6 i ≡ true) × (is_loopback_name i.name ≡ false)
unfolding is_fallback
fallback-lem i h = passes-fallback (is_loopback_name i.name) i.operational (has_matter_ipv6 i) h

-- What holds of an interface that is selected without a pin. A candidate is up, is not virtual and
-- has an IPv6 address that Matter can use; a fallback may be virtual.
pub record AutoPick (ifaces : List UnixNetif) (i : UnixNetif) : Type 0 where
  pub mem : Memᴰ i ifaces
  pub up : i.operational ≡ true
  pub ipv6 : has_matter_ipv6 i ≡ true
  pub no_loopback : is_loopback_name i.name ≡ false
  pub tops : (j : UnixNetif) → Memᴰ j ifaces → is_candidate j ≡ true → score_iface j ≤ score_iface i
  pub last_resort :
      is_virtual_name i.name ≡ true → (j : UnixNetif) → Memᴰ j ifaces → is_candidate j ≡ false
  pub tops_virtual :
      is_virtual_name i.name ≡ true
      → (j : UnixNetif) → Memᴰ j ifaces
      → is_fallback j ≡ true
      → score_iface j ≤ score_iface i

module _ (ifaces : List UnixNetif) where
  best-AutoPick :
      (s : ℕ) (i : UnixNetif) → best is_candidate ifaces none ≡ some (s, i) → AutoPick ifaces i
  best-AutoPick s i h = elim (best-from is_candidate ifaces none s i h) [
    | inl n ↦ absurd (ground arith)
    | inr (m, c, e) ↦
        let (f, real) = candidate-lem i c in
        let (up, six, lo) = fallback-lem i f in
        record {
          mem = m;
          up = up;
          ipv6 = six;
          no_loopback = lo;
          tops = λ j n q. rw (← e) ((best-tops is_candidate ifaces none s i h).0 j n q);
          last_resort = λ v. absurd (ground arith);
          tops_virtual = λ v. absurd (ground arith);
        }
  ]

  fallback-AutoPick :
      (s : ℕ) (i : UnixNetif)
      → best is_candidate ifaces none ≡ none
      → best is_fallback ifaces none ≡ some (s, i)
      → AutoPick ifaces i
  fallback-AutoPick s i n h = elim (best-from is_fallback ifaces none s i h) [
    | inl z ↦ absurd (ground arith)
    | inr (m, f, e) ↦
        let (up, six, lo) = fallback-lem i f in
        let none_passes = (best-none is_candidate ifaces none n).1 in
        record {
          mem = m;
          up = up;
          ipv6 = six;
          no_loopback = lo;
          tops = λ j k q. absurd (ground (arith, none_passes j k));
          last_resort = λ v. none_passes;
          tops_virtual = λ v j k q. rw (← e) ((best-tops is_fallback ifaces none s i h).0 j k q);
        }
  ]

  picked : (i : UnixNetif) → pick none ifaces ≡ some i → AutoPick ifaces i
  unfolding pick or_fallback second
  picked i h = elim (Option-cases (best is_candidate ifaces none)) [
    | inr ((s, j), e) ↦ best-AutoPick s i (ground arith)
    | inl n ↦ elim (Option-cases (best is_fallback ifaces none)) [
      | inr ((s, j), e) ↦ fallback-AutoPick s i n (ground arith)
      | inl n' ↦ absurd (ground arith)
    ]
  ]

  missed : pick none ifaces ≡ none → (j : UnixNetif) → Memᴰ j ifaces → is_fallback j ≡ false
  unfolding pick or_fallback second
  missed h = elim (Option-cases (best is_candidate ifaces none)) [
    | inr ((s, j), e) ↦ absurd (ground arith)
    | inl n ↦ elim (Option-cases (best is_fallback ifaces none)) [
      | inr ((s, j), e) ↦ absurd (ground arith)
      | inl n' ↦ (best-none is_fallback ifaces none n').1
    ]
  ]

-- Without a pin, an interface that is selected is the host's, is up, is no loopback and has an IPv6
-- address that Matter can use; it scores at least as high as every candidate, and if it is virtual,
-- there is no candidate and it scores at least as high as every fallback. None is selected only
-- when there is no fallback either.
pub pick-AutoPick :
    (ifaces : List UnixNetif)
    → ((i : UnixNetif) → pick none ifaces ≡ some i → AutoPick ifaces i)
      × (pick none ifaces ≡ none → (j : UnixNetif) → Memᴰ j ifaces → is_fallback j ≡ false)
unfolding pick
pick-AutoPick ifaces = (picked ifaces, missed ifaces)
