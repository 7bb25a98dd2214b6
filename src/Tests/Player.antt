-- ===== src/Tests/Player.antt =====
-- The card player at concrete cards.
use robot_ddz.Prelude.{
  ℕ, ◌+◌, ◌-◌, ◌≤◌, ◌≡◌, ◌↔◌, ◌⊎◌, refl, arith, Bool, true, false, List, [], ◌∷◌, Option, none,
  some, ℤ, pos, negsuc, get_or, pos_part, ◌+ℤ◌, ◌-ℤ◌,
}
use robot_ddz.Cards.Hands.{
  Hand, trio, trio_chain, pair_chain, solo_chain, bomb, rank, get_card_number, cal_hand_control,
  card_2, solo, pair, make_hand,
}
use robot_ddz.Cards.Points.{
  Points, update, points_sub, no_points, card_to_point, bump_point, count_cards,
  card_vec_to_point_arr,
}
use robot_ddz.Choice.Summary.{no_summary}
use robot_ddz.Recognize.{overlong, points_with, hand_to_points_array, get_hand, overfull}
use robot_ddz.Player.State.{full_deck, Ai, up_farmer, is_free}
use robot_ddz.Session.State.{Robot, Node, gaming, new_node, same}
use robot_ddz.Session.Wire.{Protocol}
use robot_ddz.Session.Play.{send_take_out_card_req, recv_take_out_card_ack}
use robot_ddz.Tests.Session.{wire}
use robot_ddz.Player.Ops.{player}
use robot_ddz.Player.Refused.{refused-SameCards}
use robot_ddz.Player.Game.{
  dealt, in_call_score, set_lord, with_lord, in_take_out_card, count_opponents, count_controls,
  init_card, sort_hand_map, sort_hands,
}
use robot_ddz.Player.Game.Balance.{Event, called, lord_set, played, hear_all, got, OverBy}
use robot_ddz.Player.Game.Counter.{init_card-OverBy}
use robot_ddz.Choice.Sort.{assess, sort_hands_with_best_kind}
use robot_ddz.Split.Kinds.{
  split_cards_to_hands_kind1, split_cards_to_hands_kind2, split_cards_to_hands_kind3,
}
use robot_ddz.Split.Solo.Conservation.{get_solo_chain}
use robot_ddz.Split.Solo.Five.{low_cards}
use robot_ddz.Split.Solo.Grow.{expand_solo_chain}
use robot_ddz.Split.Solo.Trim.{optimize_solo_chain}
use robot_ddz.Split.Bomb.{get_bomb}
use robot_ddz.Split.Chains.{get_trio_chain, get_pair_chain}
use robot_ddz.Split.Normal.{get_normal_hand}
use robot_ddz.Split.Kicker.{find_kicker_for_trio_or_trio_chain}
use robot_ddz.Cards.HandMap.{HandMap, hands_of, set_hands, push_hand}
use robot_ddz.Choice.Charge.{is_charge_hand}
use robot_ddz.Choice.Summary.{HandsMapSummary, get_hands_map_summary}
use robot_ddz.Player.Controls.{contest, contests, cal_control, my_sum, counts_from}
use robot_ddz.Player.Controls.Ends.{cal_control_bound}
use robot_ddz.Player.Take.{take_out_hand, is_same_cards_info, recovery_hand_cards}
use robot_ddz.Player.Take.Same.{count, SameCards, is_same_cards_info_iff}
use robot_ddz.Player.Take.Parted.{Parts, Known, take_out_hand-Parts}
use robot_ddz.Player.Turn.{Plan, play, decide, out_get_take_out_card}
use robot_ddz.Player.Turn.Checked.{InDeck}
use robot_ddz.Player.Turn.Legal.{Answering, Whole}
use robot_ddz.Player.Turn.Out.{ready, out_get_take_out_card-Answering}
use robot_ddz.Player.Turn.Lead.{Leads, Retries, play_lead}

-- An ace, a 2 and a black joker, against a 2 and a red joker.
abbrev high_cards : Points
high_cards i = pos (get_or (0 ∷ 0 ∷ 0 ∷ 0 ∷ 0 ∷ 0 ∷ 0 ∷ 0 ∷ 0 ∷ 0 ∷ 0 ∷ 1 ∷ 1 ∷ 1 ∷ []) i 0)

abbrev their_cards : Points
their_cards i = pos (get_or (0 ∷ 0 ∷ 0 ∷ 0 ∷ 0 ∷ 0 ∷ 0 ∷ 0 ∷ 0 ∷ 0 ∷ 0 ∷ 0 ∷ 1 ∷ 0 ∷ 1 ∷ []) i 0)

cal_control_bound_example :
    (n : ℕ) × (cal_control high_cards their_cards 11 ≡ some (pos n))
    × (n ≤ pos_part (my_sum (counts_from (15 - 11) 11 high_cards their_cards)))
cal_control_bound_example = cal_control_bound high_cards their_cards 11 (λ p. refl)

is_same_cards_info_iff_example :
    (is_same_cards_info (pos 3 ∷ pos 52 ∷ pos 3 ∷ []) (pos 52 ∷ pos 3 ∷ pos 3 ∷ []) ≡ true)
    ↔ SameCards (pos 3 ∷ pos 52 ∷ pos 3 ∷ []) (pos 52 ∷ pos 3 ∷ pos 3 ∷ [])
is_same_cards_info_iff_example =
    is_same_cards_info_iff (pos 3 ∷ pos 52 ∷ pos 3 ∷ []) (pos 52 ∷ pos 3 ∷ pos 3 ∷ [])

-- 3 3 4 and 6, in the middle of a game at level 1, on a 3 of the lord's.
abbrev four_cards : List ℤ
four_cards = pos 0 ∷ pos 13 ∷ pos 1 ∷ pos 3 ∷ []

abbrev four_points : Points
four_points i = pos (get_or (2 ∷ 1 ∷ 0 ∷ 1 ∷ []) i 0)

abbrev waiting : Ai
waiting = record {
  last_take_out_cards = [];
  level = pos 1;
  ai_seat = pos 0;
  lord_seat = pos 1;
  down_seat = pos 2;
  up_seat = pos 0;
  ai_position = up_farmer;
  leftover_cards = [];
  ai_cards = four_cards;
  player_info = λ i. record { points = four_points; total = pos 4 };
  remain_points = four_points;
  other_points = no_points;
  hands_map = [];
  summary = no_summary;
  lowest_control = 0;
  control_num = pos 0;
  max_opp_number = pos 3;
  min_opp_number = pos 3;
  cur_score = pos 0;
  cur_caller = negsuc 0;
  cur_hand = make_hand solo 0;
  cur_hand_seat = pos 1;
  call_history = [];
  history = [];
}

-- A choice of the single 6.
abbrev play_six : Ai → Option Plan
play_six a = some (record {
  hand = make_hand solo 3;
  new_map = (solo, make_hand solo 3 ∷ []) ∷ [];
  new_summary = no_summary;
  new_max_opp = pos 3;
  new_min_opp = pos 3;
})

four_cards-Known : Known four_cards
unfolding card_to_point
four_cards-Known = (refl, (refl, (refl, (refl, tt))))

four_cards-InDeck : InDeck four_cards
unfolding card_to_point
four_cards-InDeck = (four_cards-Known, (λ p. ground arith), omega arith)

take_out_hand-Parts_example :
    (r : Ai × List ℤ) × (take_out_hand (make_hand pair 0) waiting ≡ some r)
    × Parts (hand_to_points_array (make_hand pair 0)) four_cards (r.1, r.0.ai_cards)
    × SameCards (recovery_hand_cards r.0).ai_cards four_cards
take_out_hand-Parts_example = take_out_hand-Parts (make_hand pair 0) waiting four_cards-Known

waiting-busy : is_free waiting ≡ false
unfolding is_free
waiting-busy = refl

plays_six : (n : ℤ) → (r : Ai × Hand) × (decide play_six play_six (ready waiting n) ≡ some r)
unfolding decide
plays_six n = (_, refl)

out_get_take_out_card-Answering_example :
    (r : Ai × List ℤ) × (out_get_take_out_card play_six play_six waiting ≡ some r)
    × Answering (make_hand solo 0) r.1
    × Whole four_cards r
    × (r.0.last_take_out_cards ≡ r.1)
out_get_take_out_card-Answering_example =
    out_get_take_out_card-Answering play_six play_six waiting 0 refl (λ p. refl) four_cards-InDeck
      waiting-busy plays_six

-- The robot has won the last trick.
abbrev leading : Ai
leading = record waiting { cur_hand_seat = pos 0 }

leading-free : is_free leading ≡ true
unfolding is_free
leading-free = refl

play_lead_example :
    (r : Ai × List ℤ) × (lost : List ℤ) × (play (leading, make_hand pair 0) ≡ some r)
    × ((x : ℤ) → count x r.1 + count x r.0.ai_cards + count x lost ≡ count x four_cards)
    × ((lost ≡ []) × Leads leading (make_hand pair 0) r ⊎ Retries leading (make_hand pair 0) lost r)
play_lead_example = play_lead leading (make_hand pair 0) four_cards-InDeck leading-free

abbrev gaming_robot : Robot (Option Ai)
gaming_robot = record {
  robot_id = pos 7;
  status = gaming;
  need_keep_play = false;
  is_test_need_keep_play = false;
  match_id = pos 0;
  is_match = false;
  conf_is_match = false;
  cost_id = pos 0;
  my_score = pos 0;
  delay_active = pos 3;
  delay_passive = pos 2;
  ai = some waiting;
}

-- A server that refuses with the result 4.
abbrev refusing : Protocol
refusing = record wire { result_ack = λ id s. some (pos 4) }

refused-SameCards_example :
    let ops = player play_six play_six in
    (sent : Robot (Option Ai) × Node × Bool) × (c : Ai) × (send_take_out_card_req ops refusing 5
        gaming_robot
        (new_node 5059 [])
      ≡ some sent)
    × (recv_take_out_card_ack ops refusing sent.0 (new_node 5004 [])
        ≡ some (record gaming_robot { ai = some c }, new_node 5004 [], true))
    × SameCards c.ai_cards four_cards
refused-SameCards_example =
    refused-SameCards play_six play_six refusing 5 gaming_robot (new_node 5059 []) [] (pos 4)
      waiting 0 refl refl refl (λ p. refl) four_cards-InDeck waiting-busy plays_six refl
      (unfold same in refl)

-- 3 3 and 4 are dealt to the seat 0.
abbrev three_cards : List ℤ
three_cards = pos 0 ∷ pos 13 ∷ pos 1 ∷ []

abbrev or_waiting : Option Ai → Ai
or_waiting none = waiting
or_waiting (some a) = a

-- The first player calls 2 and gets 5 6 and 7, and plays a 3.
abbrev events : List Event
events =
    called (pos 0) (pos 2)
    ∷ lord_set (pos 0) (pos 2 ∷ pos 3 ∷ pos 4 ∷ [])
    ∷ played (pos 0) (pos 0 ∷ [])
    ∷ []

abbrev three_points : Points
three_points = update (update (update no_points 0 (pos 1)) 0 (pos 2)) 1 (pos 1)

abbrev others : Points
others = points_sub (full_deck four_points) three_points

abbrev three_split : HandMap
three_split =
    (trio_chain, [])
    ∷ (pair_chain, [])
    ∷ (solo_chain, [])
    ∷ (trio, [])
    ∷ (pair, make_hand pair 0 ∷ [])
    ∷ (solo, make_hand solo 1 ∷ [])
    ∷ (bomb, [])
    ∷ []

abbrev three_summary : HandsMapSummary
three_summary = record no_summary {
  real_hands_count = 2;
  un_charge_hands_count = 2;
  effective_hands_count = pos 2;
  hands_type_count = 5;
  lowest_solo = 1;
  sencond_lowest_solo = 14;
}

three_kind1 :
    assess card_2 17 others (split_cards_to_hands_kind1 three_points true)
    ≡ some (three_split, three_summary)
unfolding assess split_cards_to_hands_kind1 get_solo_chain low_cards get_hands_map_summary
    find_kicker_for_trio_or_trio_chain hands_of set_hands get_normal_hand get_bomb
    optimize_solo_chain expand_solo_chain push_hand rank is_charge_hand get_card_number
    get_trio_chain get_pair_chain cal_hand_control points_sub ◌-ℤ◌
three_kind1 = refl

three_kind2 :
    assess card_2 17 others (split_cards_to_hands_kind2 three_points true)
    ≡ some (three_split, three_summary)
unfolding assess split_cards_to_hands_kind2 get_solo_chain low_cards get_hands_map_summary
    find_kicker_for_trio_or_trio_chain hands_of set_hands get_normal_hand get_bomb
    optimize_solo_chain expand_solo_chain push_hand rank is_charge_hand get_card_number
    get_trio_chain get_pair_chain cal_hand_control points_sub ◌-ℤ◌
three_kind2 = refl

three_kind3 :
    assess card_2 17 others (split_cards_to_hands_kind3 three_points true)
    ≡ some (three_split, three_summary)
unfolding assess split_cards_to_hands_kind3 get_solo_chain low_cards get_hands_map_summary
    find_kicker_for_trio_or_trio_chain hands_of set_hands get_normal_hand get_bomb
    optimize_solo_chain expand_solo_chain push_hand rank is_charge_hand get_card_number
    get_trio_chain get_pair_chain cal_hand_control points_sub ◌-ℤ◌
three_kind3 = refl

three_counted : card_vec_to_point_arr three_cards ≡ some three_points
unfolding card_vec_to_point_arr count_cards bump_point card_to_point ◌+ℤ◌
three_counted = refl

three_sorted :
    sort_hands_with_best_kind card_2 17 others three_points true ≡ some (three_split, three_summary)
unfolding sort_hands_with_best_kind
three_sorted = rw (three_kind1, three_kind2, three_kind3) refl

abbrev three_dealt : Ai
three_dealt = record (dealt 0 (pos 0) three_cards three_points waiting) {
  max_opp_number = pos 17;
  min_opp_number = pos 17;
  hands_map = three_split;
  summary = three_summary;
}

three_map : sort_hand_map (dealt 0 (pos 0) three_cards three_points waiting) ≡ some three_dealt
unfolding sort_hand_map count_opponents sort_hands
three_map = rw (sort_hand_map, sort_hands, three_sorted) refl

three_init :
    init_card (pos 0) three_cards waiting ≡ some (record three_dealt { control_num = pos 0 })
unfolding init_card count_controls cal_control contests contest ◌+ℤ◌ ◌-ℤ◌ points_sub
three_init = rw (init_card, three_counted, three_map) refl

events_heard :
    hear_all events (record three_dealt { control_num = pos 0 })
    ≡ some (or_waiting (hear_all events (record three_dealt { control_num = pos 0 })))
unfolding in_call_score set_lord with_lord in_take_out_card bump_point card_to_point
    card_vec_to_point_arr get_hand overfull overlong points_with ◌+ℤ◌
events_heard = refl

init_card-OverBy_example :
    OverBy
      (got (pos 0) events)
      0
      (or_waiting (hear_all events (record three_dealt { control_num = pos 0 })))
init_card-OverBy_example =
    init_card-OverBy 0 three_cards events waiting (record three_dealt { control_num = pos 0 })
      (or_waiting (hear_all events (record three_dealt { control_num = pos 0 }))) three_init
      events_heard
