-- ===== src/Player/Resume.antt =====
-- How `OGLordRobotAI` is put back to the start, or into a game that has begun
-- (new_robot_client/src/OGLordRobotAI.cpp).
use robot_ddz.Prelude.{
  ℕ, List, [], ◌∷◌, ◌++◌, Option, none, some, length, ◌==◌, if◌then◌else◌, ℤ, pos, negsuc, ◌+ℤ◌,
}
use robot_ddz.Cards.Hands.{nothing}
use robot_ddz.Cards.Points.{Points, no_points, points_sub, card_vec_to_point_arr}
use robot_ddz.Choice.Summary.{no_summary}
use robot_ddz.Recognize.{get_hand}
use robot_ddz.Search.Higher.{no_hand}
use robot_ddz.Player.State.{Ai, seat_index, full_deck, behind, update_ai_position}
use robot_ddz.Player.Game.{sort_hand_map, unknown_points}

-- `RbtResetData`. The `handsMap` that it names is a local one, so the robot's own stays; the other
-- points, the lowest control, the position and the level stay too.
unfoldable pub reset_data : Ai → Ai
reset_data a = record a {
  ai_seat = negsuc 0;
  lord_seat = negsuc 0;
  down_seat = negsuc 0;
  up_seat = negsuc 0;
  leftover_cards = [];
  ai_cards = [];
  player_info = λ i. record { points = no_points; total = pos 0 };
  remain_points = full_deck a.remain_points;
  summary = record no_summary { lowest_solo = 0; sencond_lowest_solo = 0 };
  control_num = negsuc 0;
  max_opp_number = negsuc 0;
  min_opp_number = negsuc 0;
  cur_score = negsuc 0;
  cur_caller = negsuc 0;
  cur_hand = record { type = nothing; key_point = 0; len = 0; kicker = 0 ∷ 0 ∷ 0 ∷ 0 ∷ 0 ∷ [] };
  cur_hand_seat = negsuc 0;
  call_history = [];
  history = [];
  last_take_out_cards = [];
}

-- `RbtInSetSeat`.
unfoldable pub set_seats : ℤ → ℤ → Ai → Ai
unfolding update_ai_position
set_seats mine seat a = update_ai_position (record a {
  ai_seat = mine;
  lord_seat = seat;
  down_seat = behind 1 seat;
  up_seat = behind 2 seat;
})

-- `RbtInSetCard` before the hand is sorted. The number of cards is added to the one that is there.
abbrev pub given : ℕ → List ℤ → Points → Ai → Ai
given me cards own a = record a {
  ai_cards = cards;
  player_info = λ i.
      if i == me
      then record { points = own; total = (a.player_info i).total +ℤ pos (length cards) }
      else record { points = unknown_points; total = (a.player_info i).total };
}

-- `RbtInSetCard`; the second vector is not used.
unfoldable pub set_card : List ℤ → List ℤ → Ai → Option Ai
set_card cards base a = elim (seat_index a.ai_seat) [
  | none ↦ none
  | some me ↦ elim (card_vec_to_point_arr cards) [
    | none ↦ none
    | some own ↦ sort_hand_map (given me cards own a)
  ]
]

-- The loop of `RbtInTakeOutRecord` over the plays; a seat without its play is a read outside the
-- vector.
unfoldable pub replay : List ℤ → List (List ℤ) → Ai → Option Ai
replay [] plays a = some a
replay (seat ∷ seats) [] a = none
replay (seat ∷ seats) (cards ∷ plays) a = elim (card_vec_to_point_arr cards) [
  | none ↦ none
  | some played ↦ elim (get_hand played no_hand) [
    | none ↦ none
    | some h ↦ replay seats plays (record a {
      remain_points = points_sub a.remain_points played;
      history = a.history ++ (seat, h) ∷ [];
    })
  ]
]

-- `RbtInTakeOutRecord`.
unfoldable pub in_take_out_record : List ℤ → List (List ℤ) → Ai → Option Ai
unfolding replay
in_take_out_record seats plays a =
    elim (replay seats plays (record a { remain_points = full_deck a.remain_points })) [
      | none ↦ none
      | some b ↦ elim (seat_index b.ai_seat) [
        | none ↦ none
        | some me ↦
            some
              (record b { other_points = points_sub b.remain_points ((b.player_info me).points) })
      ]
    ]
