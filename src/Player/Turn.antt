-- ===== src/Player/Turn.antt =====
-- `RbtOutGetTakeOutCard` (new_robot_client/src/OGLordRobotAI.cpp): choose a hand, take it out, and
-- take it back if it is not one to play.
pub mod Checked
pub mod Legal
pub mod Out
pub mod Lead
use robot_ddz.Prelude.{
  ℕ, Bool, not, List, [], ◌∷◌, Option, none, some, ◌&&◌, if◌then◌else◌, ℤ, pos, eqb_ℤ,
}
use robot_ddz.Cards.Hands.{Hand, nothing, is_type, is_hand_higher_than}
use robot_ddz.Cards.Points.{card_vec_to_point_arr}
use robot_ddz.Cards.HandMap.{HandMap}
use robot_ddz.Cards.Scan.{get_lowest_control}
use robot_ddz.Choice.Summary.{HandsMapSummary}
use robot_ddz.Recognize.{get_hand}
use robot_ddz.Search.Higher.{no_hand}
use robot_ddz.Player.State.{Ai, is_free}
use robot_ddz.Player.Game.{count_controls}
use robot_ddz.Player.Take.{take_out_hand, recovery_hand_cards}
use robot_ddz.Player.Decide.{take_out_lvl0, find_lowest_hand}

-- What a choice of a higher level leaves: the hand, and the parts of the state that it sorts anew.
pub record Plan : Type 0 where
  pub hand : Hand
  pub new_map : HandMap
  pub new_summary : HandsMapSummary
  pub new_max_opp : ℤ
  pub new_min_opp : ℤ

abbrev pub adopt : Ai → Plan → Ai
adopt a p = record a {
  hands_map = p.new_map;
  summary = p.new_summary;
  max_opp_number = p.new_max_opp;
  min_opp_number = p.new_min_opp;
}

abbrev pub follow : Ai → Option Plan → Option (Ai × Hand)
follow a none = none
follow a (some p) = some (adopt a p, p.hand)

-- `getHand` of the cards taken out.
unfoldable pub check_hand : List ℤ → Option Hand
check_hand cards = elim (card_vec_to_point_arr cards) [ none ↦ none | some c ↦ get_hand c no_hand ]

-- The tests after the hand has been taken out.
unfoldable pub settle_turn : Ai → Hand → List ℤ → Hand → Option (Ai × List ℤ)
unfolding is_free take_out_hand find_lowest_hand recovery_hand_cards
settle_turn a h cards checked =
    if is_free a
    then (if is_type checked.type nothing
        then take_out_hand (find_lowest_hand a.hands_map) a
        else some (a, cards))
    else if not (is_type checked.type nothing) && not (is_hand_higher_than checked a.cur_hand)
    then take_out_hand (record h { type = nothing }) (recovery_hand_cards a)
    else some (a, cards)

-- Everything after the choice.
unfoldable pub play : Ai × Hand → Option (Ai × List ℤ)
unfolding take_out_hand check_hand settle_turn
play (a, h) = elim (take_out_hand h a) [
  | none ↦ none
  | some (b, cards) ↦ elim (check_hand cards) [
    | none ↦ none
    | some checked ↦ settle_turn b h cards checked
  ]
]

-- `takeOutLvl1` and `takeOutHighLvl` are parameters: what follows holds for any choice of theirs.
module _ (take_out_lvl1 take_out_high_lvl : Ai → Option Plan) where
  unfoldable pub decide : Ai → Option (Ai × Hand)
  unfolding take_out_lvl0
  decide a =
      if eqb_ℤ a.level (pos 0)
      then take_out_lvl0 a
      else if eqb_ℤ a.level (pos 1)
      then follow a (take_out_lvl1 a)
      else follow a (take_out_high_lvl a)

  -- `RbtOutGetTakeOutCard`.
  unfoldable pub out_get_take_out_card : Ai → Option (Ai × List ℤ)
  unfolding decide play get_lowest_control count_controls
  out_get_take_out_card a =
      elim (count_controls (record a { lowest_control = get_lowest_control a.remain_points })) [
        | none ↦ none
        | some b ↦ elim (decide b) [ none ↦ none | some chosen ↦ play chosen ]
      ]
