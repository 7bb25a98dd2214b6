-- ===== src/Tests/Cards.antt =====
-- Points and hands at concrete inputs.
use robot_ddz.Prelude.{
  ℕ, ◌≤◌, ◌<◌, ◌≡◌, ◌↔◌, ◌⊎◌, refl, [], ◌∷◌, arith, pos, negsuc, get_or, some, true, false,
}
use robot_ddz.Cards.Hands.{
  nothing, pair, rank, solo_chain, pair_chain, trio_solo, trio_pair, make_hand, make_chain,
  red_joker, card_2,
}
use robot_ddz.Cards.Points.{Points}
use robot_ddz.Cards.HandMap.{HandMap}
use robot_ddz.Cards.Picks.{find_most_cards_hand, all_hands}
use robot_ddz.Cards.Picks.Lowest.{IsLowest, find_most_cards_hand-IsLowest}
use robot_ddz.Cards.Scan.{get_highest_trio, has_uni_lowest_solo, has, alone}
use robot_ddz.Cards.Scan.Extremes.{get_highest_trio_least, has_uni_lowest_solo_iff}
use robot_ddz.Recognize.{get_hand, hand_to_points_array}
use robot_ddz.Recognize.RoundTrip.{
  get_hand-chain, of_pairs, get_hand-trio_solo, get_hand-trio_pair, with_kicker,
}

-- 4 4 4 6 8 8 8, 10 and a joker.
abbrev sample : Points
sample i = pos (get_or (0 ∷ 3 ∷ 0 ∷ 1 ∷ 0 ∷ 3 ∷ 0 ∷ 1 ∷ 0 ∷ 0 ∷ 0 ∷ 0 ∷ 0 ∷ 1 ∷ 0 ∷ []) i 0)

get_highest_trio_least_example :
    ((i : ℕ) × (get_highest_trio sample ≡ pos i)
      × (i ≤ card_2)
      × (has 3 sample i ≡ true)
      × ((j : ℕ) → j < i → has 3 sample j ≡ false))
    ⊎ (get_highest_trio sample ≡ negsuc 0) × ((j : ℕ) → j ≤ card_2 → has 3 sample j ≡ false)
get_highest_trio_least_example = get_highest_trio_least sample

-- Of the trios 4 4 4 and 8 8 8 the lower is found.
lower_trio : get_highest_trio sample ≡ pos 1
unfolding get_highest_trio
lower_trio = refl

has_uni_lowest_solo_iff_example : (has_uni_lowest_solo sample (λ i. pos 0) ≡ true) ↔ (
    (i : ℕ) × (i ≤ red_joker)
    × (alone sample (λ i. pos 0) i ≡ true)
    × ((j : ℕ) → j ≤ i → false ≡ false))
has_uni_lowest_solo_iff_example = has_uni_lowest_solo_iff sample (λ i. pos 0)

-- A chain of five points from 5 on, and a pair of 4.
abbrev chain_and_pair : HandMap
chain_and_pair = (solo_chain, make_chain solo_chain 5 5 ∷ []) ∷ (pair, make_hand pair 4 ∷ []) ∷ []

find_most_cards_hand-IsLowest_example :
    IsLowest (all_hands chain_and_pair) (find_most_cards_hand chain_and_pair (make_hand nothing 0))
unfolding rank
find_most_cards_hand-IsLowest_example =
    find_most_cards_hand-IsLowest chain_and_pair (make_hand nothing 0) (make_chain solo_chain 5 5)
      (make_hand pair 4 ∷ []) refl ((refl, refl, refl), ((refl, refl, refl), tt))

get_hand-chain_example :
    get_hand (hand_to_points_array (make_chain pair_chain 4 3)) (make_hand nothing 0)
    ≡ some (make_chain pair_chain 4 3)
get_hand-chain_example = get_hand-chain (of_pairs {k = 4} {n = 3} (omega arith) (omega arith))

get_hand-trio_solo_example :
    get_hand (hand_to_points_array (with_kicker trio_solo 5 14)) (make_hand nothing 0)
    ≡ some (with_kicker trio_solo 5 14)
get_hand-trio_solo_example = get_hand-trio_solo 5 14 (omega arith) (omega arith) (omega arith)

get_hand-trio_pair_example :
    get_hand (hand_to_points_array (with_kicker trio_pair 12 0)) (make_hand nothing 0)
    ≡ some (with_kicker trio_pair 12 0)
get_hand-trio_pair_example = get_hand-trio_pair 12 0 (omega arith) (omega arith) (omega arith)
