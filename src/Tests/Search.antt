-- ===== src/Tests/Search.antt =====
-- The search for a higher hand and for kickers at concrete cards.
use robot_ddz.Prelude.{arith, true, false, [], ◌∷◌, ◌≡◌, ◌≢◌, refl, some, pos, get_or}
use robot_ddz.Cards.Points.{Points}
use robot_ddz.Cards.Hands.{
  Hand, make_hand, make_chain, trio_chain, pair_chain, pair, solo, bomb, solo_chain, trio_solo,
  trio_chain_pair, kicker_at, rank, get_card_number, cal_hand_control,
}
use robot_ddz.Split.Kinds.{
  split_cards_to_hands_kind1, split_cards_to_hands_kind2, split_cards_to_hands_kind3,
}
use robot_ddz.Split.Solo.Conservation.{get_solo_chain}
use robot_ddz.Split.Solo.Five.{low_cards}
use robot_ddz.Split.Solo.Grow.{expand_solo_chain}
use robot_ddz.Split.Solo.Trim.{optimize_solo_chain}
use robot_ddz.Split.Bomb.{get_bomb}
use robot_ddz.Split.Chains.{get_trio_chain, get_pair_chain}
use robot_ddz.Split.Normal.{get_normal_hand}
use robot_ddz.Cards.HandMap.{HandMap, hands_of, set_hands, push_hand}
use robot_ddz.Choice.Charge.{is_charge_hand}
use robot_ddz.Choice.Summary.{HandsMapSummary, no_summary, get_hands_map_summary}
use robot_ddz.Choice.Sort.{assess, sort_hands_with_best_kind}
use robot_ddz.Search.Kickers.{find_kicker_from_points, kick_with, solo_kicker}
use robot_ddz.Search.Higher.{find_higher_hand_from_points}
use robot_ddz.Search.Beats.{is_plain, Answers}
use robot_ddz.Search.Answers.{find_higher_hand-Answers}
use robot_ddz.Search.Kickers.Kicked.{find_kicker_trio_solo}

-- 4 to 9 without a gap, and an ace.
abbrev long_cards : Points
long_cards i = pos (get_or (0 ∷ 1 ∷ 1 ∷ 1 ∷ 1 ∷ 1 ∷ 1 ∷ 0 ∷ 0 ∷ 0 ∷ 0 ∷ 1 ∷ []) i 0)

no_cards : Points
no_cards i = pos 0

abbrev straight : Hand
straight = record (make_hand solo_chain 0) { len = 5 }

find_higher_hand-Answers_example :
    Answers long_cards straight (find_higher_hand_from_points straight long_cards 0 5 no_cards)
find_higher_hand-Answers_example =
    find_higher_hand-Answers straight long_cards 0 5 no_cards (unfold is_plain in refl)
      (λ chain. omega arith)

-- 3 3 and 4.
abbrev rest_cards : Points
rest_cards i = pos (get_or (2 ∷ 1 ∷ []) i 0)

abbrev trio_of_fives : Hand
trio_of_fives = make_hand trio_solo 2

abbrev chain_from_eight : Hand
chain_from_eight = make_chain trio_chain_pair 5 2

-- Their split: 3 3 as a pair and 4 alone.
abbrev rest_split : HandMap
rest_split =
    (trio_chain, [])
    ∷ (pair_chain, [])
    ∷ (solo_chain, [])
    ∷ (pair, make_hand pair 0 ∷ [])
    ∷ (solo, make_hand solo 1 ∷ [])
    ∷ (bomb, [])
    ∷ []

abbrev rest_summary : HandsMapSummary
rest_summary = record no_summary {
  real_hands_count = 2;
  hands_type_count = 4;
  lowest_solo = 1;
  sencond_lowest_solo = 14;
}

rest_kind1 :
    assess 10 4 no_cards (split_cards_to_hands_kind1 rest_cards false)
    ≡ some (rest_split, rest_summary)
unfolding assess split_cards_to_hands_kind1 get_solo_chain low_cards get_hands_map_summary hands_of
    set_hands get_normal_hand get_bomb no_cards optimize_solo_chain expand_solo_chain push_hand rank
    is_charge_hand get_card_number get_trio_chain get_pair_chain cal_hand_control
rest_kind1 = refl

rest_kind2 :
    assess 10 4 no_cards (split_cards_to_hands_kind2 rest_cards false)
    ≡ some (rest_split, rest_summary)
unfolding assess split_cards_to_hands_kind2 get_solo_chain low_cards get_hands_map_summary hands_of
    set_hands get_normal_hand get_bomb no_cards optimize_solo_chain expand_solo_chain push_hand rank
    is_charge_hand get_card_number get_trio_chain get_pair_chain cal_hand_control
rest_kind2 = refl

rest_kind3 :
    assess 10 4 no_cards (split_cards_to_hands_kind3 rest_cards false)
    ≡ some (rest_split, rest_summary)
unfolding assess split_cards_to_hands_kind3 get_solo_chain low_cards get_hands_map_summary hands_of
    set_hands get_normal_hand get_bomb no_cards optimize_solo_chain expand_solo_chain push_hand rank
    is_charge_hand get_card_number get_trio_chain get_pair_chain cal_hand_control
rest_kind3 = refl

rest_sorted :
    sort_hands_with_best_kind 10 4 no_cards rest_cards false ≡ some (rest_split, rest_summary)
unfolding sort_hands_with_best_kind
rest_sorted = rw (rest_kind1, rest_kind2, rest_kind3) refl

trio_kicked :
    find_kicker_from_points rest_cards 10 4 no_cards trio_of_fives
    ≡ some (record trio_of_fives { kicker = 1 ∷ 0 ∷ 0 ∷ 0 ∷ 0 ∷ [] }, true)
unfolding find_kicker_from_points kick_with solo_kicker rank hands_of no_cards
trio_kicked = rw (find_kicker_from_points, rest_sorted) refl

find_kicker_trio_solo_example :
    let g : Hand = record trio_of_fives { kicker = 1 ∷ 0 ∷ 0 ∷ 0 ∷ 0 ∷ [] } in
    (g.type ≡ trio_solo)
    × (g.key_point ≡ trio_of_fives.key_point)
    × (kicker_at g 0 ≢ trio_of_fives.key_point)
find_kicker_trio_solo_example =
    find_kicker_trio_solo rest_cards 10 4 no_cards trio_of_fives
      (record trio_of_fives { kicker = 1 ∷ 0 ∷ 0 ∷ 0 ∷ 0 ∷ [] }) refl (omega arith) trio_kicked
