-- ===== src/Cards/Scan.antt =====
-- Searches through the points (new_robot_client/src/AIUtils.cpp).
pub mod Extremes
use robot_ddz.Prelude.{
  ℕ, zero, suc, ◌+◌, ◌-◌, ◌≤◌, ◌<◌, ◌≡◌, refl, Bool, true, false, ◌&&◌, ◌||◌, arith, ◌==◌,
  if◌then◌else◌, ℤ, pos, negsuc, leb_ℤ, eqb_ℤ, Option, some, none, ◌+ℤ◌, ◌⊎◌, inl, inr, Bool-cases,
}
use robot_ddz.Cards.Hands.{red_joker, black_joker, card_3}
use robot_ddz.Cards.Points.{Points}

-- `for (i = s; i < s + n; ++i)`: the first point that passes the test.
unfoldable pub first_up : ℕ → ℕ → (ℕ → Bool) → Option ℕ
first_up zero i test = none
first_up (suc n) i test = let rest = first_up n (i + 1) test in if test i then some i else rest

-- `for (i = n - 1; i >= 0; --i)`: the last one below `n`.
pub first_down : ℕ → (ℕ → Bool) → Option ℕ
first_down zero test = none
first_down (suc n) test = let rest = first_down n test in if test n then some n else rest

-- The loop finds the least point in its range that passes, or none passes.
pub first_up_lem :
    (n s : ℕ) (test : ℕ → Bool)
    → ((i : ℕ) × (first_up n s test ≡ some i)
        × (s ≤ i)
        × (i < s + n)
        × (test i ≡ true)
        × ((j : ℕ) → s ≤ j → j < i → test j ≡ false))
      ⊎ (first_up n s test ≡ none) × ((j : ℕ) → s ≤ j → j < s + n → test j ≡ false)
unfolding first_up
first_up_lem zero s test = inr (refl, λ j h k. absurd (omega arith))
first_up_lem (suc n) s test = elim (Bool-cases (test s)) [
  | inl hit ↦ inl (s, rw hit refl, omega arith, omega arith, hit, λ j h k. absurd (omega arith))
  | inr miss ↦ elim (first_up_lem n (s + 1) test) [
    | inl (i, e, lo, hi, hit, before) ↦
        inl
          (i, rw miss e, omega arith, omega arith, hit, λ j h k. skip j h miss (λ l. before j l k))
    | inr (e, all) ↦ inr (rw miss e, λ j h k. skip j h miss (λ l. all j l (omega arith)))
  ]
]
  where
    skip : (j : ℕ) → s ≤ j → test s ≡ false → (s + 1 ≤ j → test j ≡ false) → test j ≡ false
    skip j h miss later = elim (Bool-cases (s == j)) [
      | inl here ↦ let e : s ≡ j = ground arith in rw (← e) miss
      | inr after ↦ later (ground arith)
    ]

-- The downward loop finds the greatest point below `n` that passes, or none passes.
pub first_down_lem :
    (n : ℕ) (test : ℕ → Bool)
    → ((i : ℕ) × (first_down n test ≡ some i)
        × (i < n)
        × (test i ≡ true)
        × ((j : ℕ) → i < j → j < n → test j ≡ false))
      ⊎ (first_down n test ≡ none) × ((j : ℕ) → j < n → test j ≡ false)
unfolding first_down
first_down_lem zero test = inr (refl, λ j k. absurd (omega arith))
first_down_lem (suc n) test = elim (Bool-cases (test n)) [
  | inl hit ↦ inl (n, rw hit refl, omega arith, hit, λ j h k. absurd (omega arith))
  | inr miss ↦ elim (first_down_lem n test) [
    | inl (i, e, hi, hit, after) ↦
        inl (i, rw miss e, omega arith, hit, λ j h k. skip j k miss (λ l. after j h l))
    | inr (e, all) ↦ inr (rw miss e, λ j k. skip j k miss (λ l. all j l))
  ]
]
  where
    skip : (j : ℕ) → j < suc n → test n ≡ false → (j < n → test j ≡ false) → test j ≡ false
    skip j h miss below = elim (Bool-cases (n == j)) [
      | inl here ↦ let e : n ≡ j = ground arith in rw (← e) miss
      | inr before ↦ below (ground arith)
    ]

abbrev or_point : Option ℕ → ℕ → ℕ
or_point none d = d
or_point (some i) d = i

abbrev or_minus_one : Option ℕ → ℤ
or_minus_one none = negsuc 0
or_minus_one (some i) = pos i

abbrev is_none : Option ℕ → Bool
is_none none = true
is_none (some i) = false

-- At least `k` cards of the point.
abbrev pub has : ℕ → Points → ℕ → Bool
has k c i = leb_ℤ (pos k) (c i)

unfoldable pub is_highest_solo : ℕ → Points → Bool
unfolding first_up
is_highest_solo point opp = is_none (first_up (red_joker - point) (point + 1) (has 1 opp))

unfoldable pub is_uni_highest_solo : ℕ → Points → Bool
unfolding first_up
is_uni_highest_solo point opp = is_none (first_up (red_joker + 1 - point) point (has 1 opp))

unfoldable pub is_highest_pair : ℕ → Points → Bool
unfolding first_up
is_highest_pair point opp = is_none (first_up (red_joker - point) (point + 1) (has 2 opp))

unfoldable pub get_lowest_point : Points → ℕ
unfolding first_up
get_lowest_point c = or_point (first_up 15 card_3 (has 1 c)) red_joker

unfoldable pub get_highest_point : Points → ℕ
unfolding first_down
get_highest_point c = or_point (first_down 15 (has 1 c)) card_3

unfoldable pub get_highest_pair_point : Points → ℕ
unfolding first_down
get_highest_pair_point c = or_point (first_down 15 (has 2 c)) card_3

unfoldable pub get_lowest_pair_point : Points → ℕ
unfolding first_up
get_lowest_pair_point c = or_point (first_up 15 card_3 (has 2 c)) red_joker

unfoldable pub get_highest_bomb : Points → ℤ
unfolding first_down
get_highest_bomb c =
    if eqb_ℤ (c black_joker) (pos 1) && eqb_ℤ (c red_joker) (pos 1)
    then pos black_joker
    else or_minus_one (first_down 13 (λ i. eqb_ℤ (c i) (pos 4)))

-- The loop goes upwards, so this is the lowest trio.
unfoldable pub get_highest_trio : Points → ℤ
unfolding first_up
get_highest_trio c = or_minus_one (first_up 13 card_3 (has 3 c))

-- `points[i] > 0` of the one and `points[i] == 0` of the other decide, `opp[i] > 0` ends the loop.
abbrev pub alone : Points → Points → ℕ → Bool
alone mine opp i = has 1 mine i && eqb_ℤ (opp i) (pos 0)

unfoldable pub decide_uni : Points → Points → Option ℕ → Bool
decide_uni mine opp none = false
decide_uni mine opp (some i) = alone mine opp i

unfoldable pub has_uni_lowest_solo : Points → Points → Bool
unfolding first_up decide_uni
has_uni_lowest_solo mine opp =
    decide_uni mine opp (first_up 15 card_3 (λ i. alone mine opp i || has 1 opp i))

unfoldable pub has_uni_highest_solo : Points → Points → Bool
unfolding first_down decide_uni
has_uni_highest_solo mine opp =
    decide_uni mine opp (first_down 15 (λ i. alone mine opp i || has 1 opp i))

-- The controls: from the red joker down until six cards are counted.
control_from : ℕ → ℤ → Points → ℕ
control_from zero count c = card_3
control_from (suc n) count c =
    let count' = count +ℤ c n in
    let rest = control_from n count' c in if leb_ℤ (pos 6) count' then n else rest

unfoldable pub get_lowest_control : Points → ℕ
unfolding control_from
get_lowest_control remain = control_from 15 (pos 0) remain
