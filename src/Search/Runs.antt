-- ===== src/Search/Runs.antt =====
-- The loop that looks for a chain finds the first one, or there is none.
use robot_ddz.Prelude.{
  ℕ, zero, suc, ◌+◌, ◌-◌, ◌≤◌, ◌<◌, ◌≡◌, refl, true, false, Bool-cases, ◌⊎◌, inl, inr, some, none,
  arith, leb, ◌==◌, pos, pos_part, leb_ℤ,
}
use robot_ddz.Cards.Hands.{card_a}
use robot_ddz.Cards.Points.{Points}
use robot_ddz.Search.Higher.{run_to, find_chain}

-- Every point from `a` to before `b` has `k` cards.
abbrev pub Held : ℕ → Points → ℕ → ℕ → Type 0
Held k c a b = (p : ℕ) → a ≤ p → p < b → k ≤ pos_part (c p)

Held-one : (k i : ℕ) (c : Points) → leb_ℤ (pos k) (c i) ≡ true → Held k c i (i + 1)
Held-one k i c h p lo hi = let e : p ≡ i = omega arith in rw e (ground arith)

Held-join : (k a m b : ℕ) (c : Points) → Held k c a m → Held k c m b → Held k c a b
Held-join k a m b c h g p lo hi = elim (Bool-cases (leb m p)) [
  | inl late ↦ g p (ground arith) hi
  | inr early ↦ h p lo (ground arith)
]

-- The run goes on until it is long enough, the last point is reached, or a point has too few cards.
run_to_lem :
    (n len k start i : ℕ) (c : Points)
    → 1 ≤ k
    → i + 1 ≤ start + len
    → leb_ℤ (pos k) (c i) ≡ true
    → let e = run_to n len k start i c in
      (i ≤ e)
      × (e ≤ i + n)
      × (e + 1 ≤ start + len)
      × Held k c i (e + 1)
      × ((e + 1 ≡ start + len) ⊎ ((e ≡ i + n) ⊎ (pos_part (c (e + 1)) < k)))
unfolding run_to
run_to_lem zero len k start i c one room held =
    (omega arith, omega arith, room, Held-one k i c held, inr (inl (omega arith)))
run_to_lem (suc n) len k start i c one room held = elim (Bool-cases (i + 1 == start + len)) [
  | inl full ↦ rw full (omega arith, omega arith, room, Held-one k i c held, inl (ground arith))
  | inr short ↦ elim (Bool-cases (leb_ℤ (pos k) (c (i + 1)))) [
    | inr stop ↦
        rw (short, stop)
          (omega arith, omega arith, room, Held-one k i c held, inr (inr (ground arith)))
    | inl go ↦
        let (lo, hi, within, run, why) = run_to_lem n len k start (i + 1) c one (ground arith) go in
        rw (short, go)
          (
            omega arith,
            omega arith,
            within,
            Held-join k i (i + 1) (run_to n len k start (i + 1) c + 1) c (Held-one k i c held) run,
            elim why [
              | inl full ↦ inl full
              | inr (inl last) ↦ inr (inl (omega arith))
              | inr (inr few) ↦ inr (inr few)
            ],
          )
  ]
]

-- No run of `len` points begins at `s`, and ends at the ace or before.
abbrev pub NoRun : ℕ → ℕ → Points → ℕ → Type 0
NoRun len k c s = s + len ≤ card_a + 1 → ¬ Held k c s (s + len)

-- None begins up to a point with too few cards, if it is less than `len` points away.
NoRun-over :
    (len k i stop s : ℕ) (c : Points)
    → i ≤ s
    → s ≤ stop
    → stop < i + len
    → ((stop ≡ card_a + 1) ⊎ (pos_part (c stop) < k))
    → NoRun len k c s
NoRun-over len k i stop s c lo hi near why fits run = elim why [
  | inl past ↦ omega arith
  | inr few ↦ omega (arith, run stop hi (omega arith))
]

pub find_chain_lem :
    (fuel len k i : ℕ) (c : Points)
    → 1 ≤ len
    → 1 ≤ k
    → card_a + 1 ≤ fuel + i
    → ((s : ℕ) × (find_chain fuel len k i c ≡ some s)
        × (i ≤ s)
        × (s + len ≤ card_a + 1)
        × Held k c s (s + len))
      ⊎ (find_chain fuel len k i c ≡ none) × ((s : ℕ) → i ≤ s → NoRun len k c s)
unfolding find_chain
find_chain_lem zero len k i c l one enough = inr (refl, λ s lo fits run. omega arith)
find_chain_lem (suc fuel) len k i c l one enough = elim (Bool-cases (leb (i + len) (card_a + 1))) [
  | inr far ↦ inr (rw far refl, λ s lo fits run. ground arith)
  | inl near ↦ elim (Bool-cases (leb_ℤ (pos k) (c i))) [
    | inr few ↦ elim (find_chain_lem fuel len k (i + 1) c l one (omega arith)) [
      | inl (s, e, lo, fits, run) ↦ inl (s, rw (near, few) e, omega arith, fits, run)
      | inr (e, none_later) ↦ inr (rw (near, few) e, λ s lo. after_point s lo few none_later)
    ]
    | inl held ↦ elim (Bool-cases (run_to (card_a - i) len k i i c + 1 == i + len)) [
      | inl full ↦ inl (i, rw (near, held, full) refl, omega arith, ground arith, found held full)
      | inr short ↦
          elim (find_chain_lem fuel len k (run_to (card_a - i) len k i i c + 2) c l one
            (later held)) [
              | inl (s, e, lo, fits, run) ↦
                  inl (s, rw (near, held, short) e, between held lo, fits, run)
              | inr (e, none_later) ↦
                  inr (rw (near, held, short) e, λ s lo. after_run s lo near held short none_later)
            ]
    ]
  ]
]
  where
    after_point :
        (s : ℕ)
        → i ≤ s
        → leb_ℤ (pos k) (c i) ≡ false
        → ((t : ℕ) → i + 1 ≤ t → NoRun len k c t)
        → NoRun len k c s
    after_point s lo few none_later = elim (Bool-cases (s == i)) [
      | inl here ↦ NoRun-over len k i i s c lo (ground arith) (omega arith) (inr (ground arith))
      | inr later ↦ none_later s (ground arith)
    ]

    found :
        leb_ℤ (pos k) (c i) ≡ true
        → (run_to (card_a - i) len k i i c + 1 == i + len) ≡ true
        → Held k c i (i + len)
    found held full =
        let (lo, hi, within, run, why) =
          run_to_lem (card_a - i) len k i i c one (omega arith) held in
        let e : run_to (card_a - i) len k i i c + 1 ≡ i + len = ground arith in rw (← e) run

    later : leb_ℤ (pos k) (c i) ≡ true → card_a + 1 ≤ fuel + (run_to (card_a - i) len k i i c + 2)
    later held =
        let (lo, hi, within, run, why) =
          run_to_lem (card_a - i) len k i i c one (omega arith) held in
        omega arith

    between : {s : ℕ} → leb_ℤ (pos k) (c i) ≡ true → run_to (card_a - i) len k i i c + 2 ≤ s → i ≤ s
    between held far =
        let (lo, hi, within, run, why) =
          run_to_lem (card_a - i) len k i i c one (omega arith) held in
        omega arith

    after_run :
        (s : ℕ)
        → i ≤ s
        → leb (i + len) (card_a + 1) ≡ true
        → leb_ℤ (pos k) (c i) ≡ true
        → (run_to (card_a - i) len k i i c + 1 == i + len) ≡ false
        → ((t : ℕ) → run_to (card_a - i) len k i i c + 2 ≤ t → NoRun len k c t)
        → NoRun len k c s
    after_run s lo near held short none_later =
        let (from, to, within, run, why) =
          run_to_lem (card_a - i) len k i i c one (omega arith) held in
        let end : ℕ = run_to (card_a - i) len k i i c in
        elim (Bool-cases (leb (end + 2) s)) [
          | inl far ↦ none_later s (ground arith)
          | inr close ↦
              NoRun-over len k i (end + 1) s c lo (ground arith) (ground arith) (elim why [
                | inl full ↦ absurd (ground arith)
                | inr (inl last) ↦ inl (ground arith)
                | inr (inr few) ↦ inr few
              ])
        ]
