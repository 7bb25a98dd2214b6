-- ===== src/Cards/Points.antt =====
-- Point counts, `int cards[CARD_POINT_NUM]`, and the arithmetic on them in
-- new_robot_client/src/AIUtils.cpp. An array is a function of the index; a write outside the
-- array is a fault where the source can make one.
use robot_ddz.Prelude.{
  ◌≡◌, ◌≤◌, ◌<◌, Bool-cases, inl, inr, neg_part, pos_part, ℕ, zero, suc, ◌+◌, ◌-◌, ◌%◌, ◌&&◌, ◌||◌,
  List, [], ◌∷◌, Option, none, some, arith, ltb, leb, ◌==◌, if◌then◌else◌, ℤ, pos, negsuc, ◌+ℤ◌,
  ◌-ℤ◌, Leaves, -ℤ_parts, +ℤ_parts,
}
use robot_ddz.Cards.Hands.{card_point_num}

abbrev pub Points : Type 0
Points = ℕ → ℤ

abbrev pub no_points : Points
no_points i = pos 0

abbrev pub update : Points → ℕ → ℤ → Points
update c i v j = if i == j then v else c j

unfoldable pub card_to_point : ℤ → ℤ
card_to_point (pos card) =
    if leb card 51
    then pos (card % 13)
    else if (card == 52) || (card == 53)
    then pos (card - 52 + 13)
    else negsuc 0
card_to_point (negsuc n) = negsuc 0

unfoldable pub cards_add : Points → Points → Points
cards_add c0 c1 i = c0 i +ℤ c1 i

unfoldable pub points_sub : Points → Points → Points
points_sub c0 c1 i = c0 i -ℤ c1 i

-- `++poinArr[p]`; -1 is outside the array.
unfoldable pub bump_point : Points → ℤ → Option Points
bump_point c (pos p) = if ltb p card_point_num then some (update c p (c p +ℤ pos 1)) else none
bump_point c (negsuc n) = none

unfoldable pub count_cards : Points → List ℤ → Option Points
unfolding bump_point card_to_point
count_cards c [] = some c
count_cards c (card ∷ rest) = elim (bump_point c (card_to_point card)) [
  | none ↦ none
  | some c' ↦ count_cards c' rest
]

unfoldable pub card_vec_to_point_arr : List ℤ → Option Points
unfolding count_cards
card_vec_to_point_arr cards = count_cards no_points cards

-- `accumulate` of `n` entries from the `i`-th on.
unfoldable pub sum_from : ℕ → ℕ → Points → ℤ
sum_from zero i c = pos 0
sum_from (suc n) i c = c i +ℤ sum_from n (i + 1) c

unfoldable pub count_no_lower_than_card : ℕ → Points → ℤ
unfolding sum_from
count_no_lower_than_card point c = sum_from (card_point_num - point) point c

-- `for (j = s; j < s + n; ++j) cards[j] -= k`
unfoldable pub take_run : ℕ → ℕ → ℕ → Points → Points
take_run zero k s c = c
take_run (suc n) k s c = take_run n k (s + 1) (update c s (c s -ℤ pos k))

-- `for (j = s; j < s + n; ++j) ++cards[j]`
unfoldable pub give_run : ℕ → ℕ → Points → Points
give_run zero s c = c
give_run (suc n) s c = give_run n (s + 1) (update c s (c s +ℤ pos 1))

-- How many cards of the point `p` are in a run of `n` points from `s` on, `k` of each.
abbrev pub run_at : ℕ → ℕ → ℕ → ℕ → ℕ
run_at k s n p = if leb s p && ltb p (s + n) then k else 0

pub take_run_lem :
    (n k s : ℕ) (c : Points) (p : ℕ) → Leaves (c p) (run_at k s n p) (take_run n k s c p)
unfolding take_run
take_run_lem zero k s c p = ground arith
take_run_lem (suc n) k s c p =
    ground (arith, take_run_lem n k (s + 1) (update c s (c s -ℤ pos k)) p, -ℤ_parts (c s) (pos k))

pub give_run_lem : (n s : ℕ) (c : Points) (p : ℕ) → Leaves (give_run n s c p) (run_at 1 s n p) (c p)
unfolding give_run
give_run_lem zero s c p = ground arith
give_run_lem (suc n) s c p =
    ground (arith, give_run_lem n (s + 1) (update c s (c s +ℤ pos 1)) p, +ℤ_parts (c s) (pos 1))

-- No count is negative.
abbrev pub NonNeg : Points → Type 0
NonNeg c = (p : ℕ) → neg_part (c p) ≡ 0

pub take_run-NonNeg :
    (n k s : ℕ) (c : Points)
    → NonNeg c
    → ((p : ℕ) → s ≤ p → p < s + n → k ≤ pos_part (c p))
    → NonNeg (take_run n k s c)
take_run-NonNeg n k s c h enough p = elim (Bool-cases (leb s p && ltb p (s + n))) [
  | inl inside ↦
      let held = enough p (ground arith) (ground arith) in
      ground (arith, take_run_lem n k s c p, h p)
  | inr outside ↦ ground (arith, take_run_lem n k s c p, h p)
]

pub give_run-NonNeg : (n s : ℕ) (c : Points) → NonNeg c → NonNeg (give_run n s c)
give_run-NonNeg n s c h p = ground (arith, give_run_lem n s c p, h p)
