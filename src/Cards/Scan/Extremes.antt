-- ===== src/Cards/Scan/Extremes.antt =====
-- What the searches of new_robot_client/src/AIUtils.cpp find.
use robot_ddz.Prelude.{
  ℕ, ◌+◌, ◌-◌, ◌≤◌, ◌<◌, ◌≡◌, ◌↔◌, refl, sym, ◌∙◌, Bool, true, false, ◌||◌, arith, leb, ◌==◌, pos,
  negsuc, Option, some, none, ◌⊎◌, inl, inr, Bool-cases,
}
use robot_ddz.Cards.Hands.{red_joker, card_3, card_2}
use robot_ddz.Cards.Points.{Points}
use robot_ddz.Cards.Scan.{
  first_up, first_up_lem, first_down_lem, has, alone, decide_uni, is_highest_solo, get_lowest_point,
  get_highest_point, get_highest_trio, has_uni_lowest_solo, is_none,
}

-- getLowestPoint gives a point up to the red joker below which no card is, and it has a card unless
-- no point has one.
pub get_lowest_point_least :
    (c : Points)
    → (get_lowest_point c ≤ red_joker)
      × ((j : ℕ) → j < get_lowest_point c → has 1 c j ≡ false)
      × ((has 1 c (get_lowest_point c) ≡ true) ⊎ ((j : ℕ) → j ≤ red_joker → has 1 c j ≡ false))
unfolding get_lowest_point
get_lowest_point_least c = elim (first_up_lem 15 card_3 (has 1 c)) [
  | inl (i, e, lo, hi, hit, before) ↦ rw e (omega arith, λ j h. before j (omega arith) h, inl hit)
  | inr (e, all) ↦ rw e (
    omega arith,
    λ j h. all j (omega arith) (omega arith),
    inr (λ j h. all j (omega arith) (omega arith)),
  )
]

-- getHighestPoint gives a point above which no card is, up to the red joker, and it has a card
-- unless no point has one.
pub get_highest_point_greatest :
    (c : Points)
    → ((j : ℕ) → get_highest_point c < j → j ≤ red_joker → has 1 c j ≡ false)
      × ((has 1 c (get_highest_point c) ≡ true) ⊎ ((j : ℕ) → j ≤ red_joker → has 1 c j ≡ false))
unfolding get_highest_point
get_highest_point_greatest c = elim (first_down_lem 15 (has 1 c)) [
  | inl (i, e, hi, hit, after) ↦ rw e (λ j h k. after j h (omega arith), inl hit)
  | inr (e, all) ↦ rw e (λ j h k. all j (omega arith), inr (λ j k. all j (omega arith)))
]

-- isHighestSolo holds exactly when no opponent has a card above the point, up to the red joker.
is_highest_solo_iff :
    (point : ℕ) (opp : Points)
    → (is_highest_solo point opp ≡ true)
      ↔ ((j : ℕ) → point < j → j ≤ red_joker → has 1 opp j ≡ false)
unfolding is_highest_solo
is_highest_solo_iff point opp = elim (first_up_lem (red_joker - point) (point + 1) (has 1 opp)) [
  | inl (i, e, lo, hi, hit, before) ↦
      (λ t. absurd (no_hit e t), λ all. absurd (clash' (all i (omega arith) (omega arith)) hit))
  | inr (e, none_above) ↦ (λ t j h k. none_above j (omega arith) (omega arith), λ all. rw e refl)
]
  where
    no_hit :
        {i : ℕ}
        → first_up (red_joker - point) (point + 1) (has 1 opp) ≡ some i
        → is_none (first_up (red_joker - point) (point + 1) (has 1 opp)) ≡ true
        → ⊥
    no_hit e t = ground arith

    clash' : {b : Bool} → b ≡ false → b ≡ true → ⊥
    clash' f t = cc

-- getHighestTrio gives the least point up to 2 with three cards or more, or -1 if there is none.
pub get_highest_trio_least :
    (c : Points)
    → ((i : ℕ) × (get_highest_trio c ≡ pos i)
        × (i ≤ card_2)
        × (has 3 c i ≡ true)
        × ((j : ℕ) → j < i → has 3 c j ≡ false))
      ⊎ (get_highest_trio c ≡ negsuc 0) × ((j : ℕ) → j ≤ card_2 → has 3 c j ≡ false)
unfolding get_highest_trio
get_highest_trio_least c = elim (first_up_lem 13 card_3 (has 3 c)) [
  | inl (i, e, lo, hi, hit, before) ↦
      inl (i, rw e refl, omega arith, hit, λ j h. before j (omega arith) h)
  | inr (e, all) ↦ inr (rw e refl, λ j h. all j (omega arith) (omega arith))
]

alone-has : (mine opp : Points) (i : ℕ) → alone mine opp i ≡ true → has 1 opp i ≡ false
alone-has mine opp i h = ground arith

decided :
    (mine opp : Points) {i : ℕ} {o : Option ℕ}
    → o ≡ some i
    → decide_uni mine opp o ≡ alone mine opp i
unfolding decide_uni
decided mine opp e = rw e refl

or-false : (a b : Bool) → a || b ≡ false → (a ≡ false) × (b ≡ false)
or-false a b h = ground arith

clash : {b : Bool} → b ≡ false → b ≡ true → ⊥
clash f t = cc

-- hasUniLowestSolo holds exactly when some point up to the red joker is held by the robot alone,
-- and no opponent has a card up to it.
pub has_uni_lowest_solo_iff :
    (mine opp : Points)
    → (has_uni_lowest_solo mine opp ≡ true) ↔ (
        (i : ℕ) × (i ≤ red_joker)
        × (alone mine opp i ≡ true)
        × ((j : ℕ) → j ≤ i → has 1 opp j ≡ false))
unfolding has_uni_lowest_solo
has_uni_lowest_solo_iff mine opp =
    elim (first_up_lem 15 card_3 (λ i. alone mine opp i || has 1 opp i)) [
      | inl (i, e, lo, hi, hit, before) ↦ (
        λ t.
            let here = sym (decided mine opp e) ∙ t in
            (i, omega arith, here, λ j h. free i j here before h),
        λ (x, le, held, clear). decided mine opp e ∙ first_is_alone i x hit before held clear,
      )
      | inr (e, all) ↦ (
        λ t. absurd (nothing e t),
        λ (x, le, held, clear).
            absurd (clash (or-false _ _ (all x (omega arith) (omega arith))).0 held),
      )
    ]
  where
    free :
        (i j : ℕ)
        → alone mine opp i ≡ true
        → ((k : ℕ) → card_3 ≤ k → k < i → alone mine opp k || has 1 opp k ≡ false)
        → j ≤ i
        → has 1 opp j ≡ false
    free i j here before h = elim (Bool-cases (i == j)) [
      | inl same ↦ let e : i ≡ j = ground arith in alone-has mine opp j (rw (← e) here)
      | inr less ↦ (or-false _ _ (before j (omega arith) (ground arith))).1
    ]

    first_is_alone :
        (i x : ℕ)
        → alone mine opp i || has 1 opp i ≡ true
        → ((k : ℕ) → card_3 ≤ k → k < i → alone mine opp k || has 1 opp k ≡ false)
        → alone mine opp x ≡ true
        → ((j : ℕ) → j ≤ x → has 1 opp j ≡ false)
        → alone mine opp i ≡ true
    first_is_alone i x hit before held clear = elim (Bool-cases (leb i x)) [
      | inl le ↦ let c = clear i (ground arith) in ground arith
      | inr gt ↦ absurd (clash (or-false _ _ (before x (omega arith) (ground arith))).0 held)
    ]

    nothing : {o : Option ℕ} → o ≡ none → decide_uni mine opp o ≡ true → ⊥
    nothing e t = unfold decide_uni in ground arith
