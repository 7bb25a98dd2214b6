-- ===== src/Player/Game.antt =====
-- How `OGLordRobotAI` follows a game (new_robot_client/src/OGLordRobotAI.cpp): the deal, the calls,
-- the lord and the plays. `none` is undefined behaviour: a seat outside `playerInfo`, a card that
-- no point belongs to, or a fault of a search through the hand.
pub mod Kept
pub mod Balance
pub mod Counter
use robot_ddz.Prelude.{
  ℕ, zero, suc, ◌+◌, ◌-◌, Bool, true, false, List, [], ◌∷◌, ◌++◌, Option, none, some, length, ltb,
  ◌==◌, ◌&&◌, ◌||◌, if◌then◌else◌, ℤ, pos, negsuc, eqb_ℤ, leb_ℤ, ltb_ℤ, ◌-ℤ◌, ◌+ℤ◌,
}
use robot_ddz.Cards.Hands.{Hand, nothing, is_type, card_2, black_joker, red_joker}
use robot_ddz.Cards.Points.{
  Points, bump_point, update, points_sub, card_to_point, card_vec_to_point_arr,
}
use robot_ddz.Choice.Sort.{sort_hands_with_best_kind}
use robot_ddz.Choice.Summary.{HandsMapSummary}
use robot_ddz.Recognize.{get_hand}
use robot_ddz.Search.Higher.{no_hand}
use robot_ddz.Player.State.{
  Ai, CardsInfo, seat_index, set_info, full_deck, behind, update_ai_position,
}
use robot_ddz.Player.Controls.{cal_control}

-- The largest and the least number of cards of the players but `me`, from two bounds on.
abbrev pub largest : ℕ → ℕ → ℕ → (ℕ → CardsInfo) → ℤ → ℤ
largest zero i me infos best = best
largest (suc n) i me infos best =
    largest n (i + 1) me infos
      (if i == me then best else if ltb_ℤ best ((infos i).total) then (infos i).total else best)

abbrev pub least : ℕ → ℕ → ℕ → (ℕ → CardsInfo) → ℤ → ℤ
least zero i me infos best = best
least (suc n) i me infos best =
    least n (i + 1) me infos
      (if i == me then best else if ltb_ℤ ((infos i).total) best then (infos i).total else best)

-- The part of `sortHandMap` that sets `maxOppNumber` and `minOppNumber`.
unfoldable pub count_opponents : ℕ → Ai → Option Ai
count_opponents me a =
    if eqb_ℤ a.lord_seat (negsuc 0) || eqb_ℤ a.lord_seat a.ai_seat
    then some (record a {
      max_opp_number = largest 3 0 me a.player_info (pos 0);
      min_opp_number = least 3 0 me a.player_info (pos 20);
    })
    else elim (seat_index a.lord_seat) [
      | none ↦ none
      | some l ↦ some (record a {
        max_opp_number = (a.player_info l).total;
        min_opp_number = (a.player_info l).total;
      })
    ]

-- The call of `sortHandsWithBestKind`; the choice among the splits is for a number of cards that is
-- not negative.
unfoldable pub sort_hands : ℕ → ℤ → Ai → Option Ai
sort_hands me (negsuc n) a = none
sort_hands me (pos m) a =
    elim (sort_hands_with_best_kind a.lowest_control m a.other_points ((a.player_info me).points)
      true) [
        | none ↦ none
        | some (hands, found) ↦ some (record a { hands_map = hands; summary = found })
      ]

-- `sortHandMap`.
unfoldable pub sort_hand_map : Ai → Option Ai
unfolding count_opponents sort_hands
sort_hand_map a = elim (seat_index a.ai_seat) [
  | none ↦ none
  | some me ↦ elim (count_opponents me a) [
    | none ↦ none
    | some b ↦ sort_hands me b.max_opp_number b
  ]
]

-- `controlNum = calControl(playerInfo[aiSeat].points, otherPoints, lowestControl);`
unfoldable pub count_controls : Ai → Option Ai
count_controls a = elim (seat_index a.ai_seat) [
  | none ↦ none
  | some me ↦ elim (cal_control ((a.player_info me).points) a.other_points a.lowest_control) [
    | none ↦ none
    | some n ↦ some (record a { control_num = n })
  ]
]

abbrev pub unknown_points : Points
unknown_points p = negsuc 0

-- `RbtInInitCard` before the hand is sorted.
abbrev pub dealt : ℕ → ℤ → List ℤ → Points → Ai → Ai
dealt me seat cards own a =
    let remain = full_deck a.remain_points in
    record a {
      ai_seat = seat;
      lord_seat = negsuc 0;
      ai_cards = cards;
      player_info =
          λ i. record { points = if i == me then own else unknown_points; total = pos 17 };
      remain_points = remain;
      other_points = points_sub remain own;
      lowest_control = card_2;
      cur_caller = negsuc 0;
      cur_score = pos 0;
      cur_hand = record a.cur_hand { type = nothing };
      cur_hand_seat = negsuc 0;
      call_history = [];
      history = [];
    }

abbrev pub then_count : Option Ai → Option Ai
then_count none = none
then_count (some a) = count_controls a

unfoldable pub init_card : ℤ → List ℤ → Ai → Option Ai
unfolding sort_hand_map
init_card seat cards a = elim (seat_index seat) [
  | none ↦ none
  | some me ↦ elim (card_vec_to_point_arr cards) [
    | none ↦ none
    | some own ↦ then_count (sort_hand_map (dealt me seat cards own a))
  ]
]

-- `RbtInCallScore`.
unfoldable pub in_call_score : ℤ → ℤ → Ai → Ai
in_call_score seat called a =
    let b = record a { call_history = a.call_history ++ (seat, called) ∷ [] } in
    if ltb_ℤ (pos 0) called then record b { cur_caller = seat; cur_score = called } else b

-- `isCallLord` of `RbtOutGetCallScore`, for the own points.
abbrev pub is_call_lord : Points → Ai → Bool
is_call_lord own a =
    let effective = ltb_ℤ (pos 3) a.summary.effective_hands_count in
    if leb_ℤ (a.control_num +ℤ pos a.summary.extra_bomb_count) (pos 1)
    then (if (eqb_ℤ (own black_joker) (pos 1) || eqb_ℤ (own red_joker) (pos 1))
          && ltb_ℤ (pos 0) (own card_2)
        then effective
        else if eqb_ℤ (own card_2) (pos 3)
        then (length a.call_history == 2) && eqb_ℤ a.cur_score (pos 0)
        else false)
    else if eqb_ℤ (own black_joker +ℤ own red_joker) (pos 1)
        && eqb_ℤ (own card_2) (pos 2)
        && (a.summary.extra_bomb_count == 0)
    then effective
    else true

-- `RbtOutGetCallScore`.
unfoldable pub out_call_score : Ai → Option ℤ
out_call_score a = elim (seat_index a.ai_seat) [
  | none ↦ none
  | some me ↦ some (if is_call_lord ((a.player_info me).points) a then pos 2 else pos 0)
]

-- One base card, of `RbtInSetLord`; `mine` says whether the robot is the lord.
abbrev pub base_card : Bool → ℤ → Points → Option Points
base_card mine card c =
    if mine || leb_ℤ (pos 0) (c 0) then bump_point c (card_to_point card) else some c

-- The first three of the base cards; where there are fewer, a read is outside the vector.
abbrev pub base_cards : ℕ → Bool → List ℤ → Points → Option Points
base_cards zero mine cards c = some c
base_cards (suc n) mine [] c =
    let rest = base_cards n mine [] c in if mine || leb_ℤ (pos 0) (c 0) then none else rest
base_cards (suc n) mine (card ∷ cards) c = elim (base_card mine card c) [
  | none ↦ none
  | some c' ↦ base_cards n mine cards c'
]

abbrev pub first_cards : ℕ → List ℤ → List ℤ
first_cards zero cards = []
first_cards (suc n) [] = []
first_cards (suc n) (card ∷ cards) = card ∷ first_cards n cards

-- `RbtInSetLord`, the points of the lord being `c` afterwards.
unfoldable pub with_lord : ℕ → ℤ → List ℤ → Points → Ai → Ai
unfolding update_ai_position
with_lord l seat cards c a =
    let b =
      update_ai_position
        (record a { lord_seat = seat; down_seat = behind 1 seat; up_seat = behind 2 seat }) in
    record b {
      leftover_cards = cards;
      ai_cards = if eqb_ℤ seat a.ai_seat then a.ai_cards ++ first_cards 3 cards else a.ai_cards;
      player_info = set_info l (record { points = c; total = pos 20 }) a.player_info;
    }

unfoldable pub set_lord : ℤ → List ℤ → Ai → Option Ai
unfolding with_lord
set_lord seat cards a = elim (seat_index seat) [
  | none ↦ none
  | some l ↦ elim (base_cards 3 (eqb_ℤ seat a.ai_seat) cards ((a.player_info l).points)) [
    | none ↦ none
    | some c ↦ some (with_lord l seat cards c a)
  ]
]

-- What a play leaves of a player's points: they are known from `points[0]` on, which the first
-- round of the loop itself changes.
abbrev pub played_points : Bool → Points → Points → Points
played_points mine played c =
    if mine
    then points_sub c played
    else if leb_ℤ (pos 0) (c 0)
    then (if leb_ℤ (pos 0) (c 0 -ℤ played 0)
        then points_sub c played
        else update c 0 (c 0 -ℤ played 0))
    else c

-- The part of `RbtInTakeOutCard` for cards that are there.
abbrev pub note_cards : ℕ → Bool → ℕ → Points → Ai → Ai
note_cards s mine n played a = record a {
  player_info =
      set_info s
        (record {
          points = played_points mine played ((a.player_info s).points);
          total = (a.player_info s).total -ℤ pos n;
        })
        a.player_info;
  remain_points = points_sub a.remain_points played;
  other_points = if mine then a.other_points else points_sub a.other_points played;
}

abbrev pub note_hand : ℤ → Hand → Ai → Ai
note_hand seat h a =
    let b = record a { history = a.history ++ (seat, h) ∷ [] } in
    if is_type h.type nothing then b else record b { cur_hand = h; cur_hand_seat = seat }

-- `RbtInTakeOutCard`; the fields of the local `hand` that its kind does not use are not set.
unfoldable pub in_take_out_card : ℤ → List ℤ → Ai → Option Ai
in_take_out_card seat [] a = some (note_hand seat no_hand a)
in_take_out_card seat (card ∷ cards) a = elim (seat_index seat) [
  | none ↦ none
  | some s ↦ elim (card_vec_to_point_arr (card ∷ cards)) [
    | none ↦ none
    | some played ↦ elim (get_hand played no_hand) [
      | none ↦ none
      | some h ↦
          some (
            note_hand seat h (note_cards s (eqb_ℤ seat a.ai_seat) (length (card ∷ cards)) played a))
    ]
  ]
]
