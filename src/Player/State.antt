-- ===== src/Player/State.antt =====
-- What `OGLordRobotAI` keeps (new_robot_client/include/OGLordRobotAI.h), and the seats.
use robot_ddz.Prelude.{
  ℕ, ◌+◌, ◌%◌, ◌-◌, Bool, true, false, List, Option, none, some, ltb, leb, ◌==◌, ◌&&◌, ◌||◌,
  if◌then◌else◌, ℤ, pos, negsuc, eqb_ℤ, ◌-ℤ◌,
}
use robot_ddz.Cards.Hands.{Hand, black_joker, red_joker}
use robot_ddz.Cards.Points.{Points}
use robot_ddz.Cards.HandMap.{HandMap}
use robot_ddz.Choice.Summary.{HandsMapSummary}

-- `Position`.
pub data Position : Type 0 where
  lord up_farmer down_farmer : Position

abbrev pub is_lord : Position → Bool
is_lord lord = true
is_lord _ = false

-- `CardsInfo`; nothing reads its third field.
pub record CardsInfo : Type 0 where
  pub points : Points
  pub total : ℤ

-- The fields that the functions here use; `player_info` is an array of three.
pub record Ai : Type 0 where
  pub last_take_out_cards : List ℤ
  pub level : ℤ
  pub ai_seat : ℤ
  pub lord_seat : ℤ
  pub down_seat : ℤ
  pub up_seat : ℤ
  pub ai_position : Position
  pub leftover_cards : List ℤ
  pub ai_cards : List ℤ
  pub player_info : ℕ → CardsInfo
  pub remain_points : Points
  pub other_points : Points
  pub hands_map : HandMap
  pub summary : HandsMapSummary
  pub lowest_control : ℕ
  pub control_num : ℤ
  pub max_opp_number : ℤ
  pub min_opp_number : ℤ
  pub cur_score : ℤ
  pub cur_caller : ℤ
  pub cur_hand : Hand
  pub cur_hand_seat : ℤ
  pub call_history : List (ℤ × ℤ)
  pub history : List (ℤ × Hand)

-- An index into `playerInfo`; another is undefined behaviour.
abbrev pub seat_index : ℤ → Option ℕ
seat_index (pos s) = if ltb s 3 then some s else none
seat_index (negsuc n) = none

abbrev pub set_info : ℕ → CardsInfo → (ℕ → CardsInfo) → ℕ → CardsInfo
set_info s info infos j = if j == s then info else infos j

-- The card counter of a new deal: four cards of each point and one of each joker. The last entry
-- of the array stays as it was.
abbrev pub full_deck : Points → Points
full_deck old p = if ltb p black_joker then pos 4 else if leb p red_joker then pos 1 else old p

-- `(s + k) % 3`, where C++ rounds to zero.
abbrev pub behind : ℕ → ℤ → ℤ
behind k (pos s) = pos ((s + k) % 3)
behind k (negsuc n) = if ltb n k then pos ((k - n - 1) % 3) else pos 0 -ℤ pos ((n + 1 - k) % 3)

-- `updateAiPosition`.
unfoldable pub update_ai_position : Ai → Ai
update_ai_position a =
    let diff = a.ai_seat -ℤ a.lord_seat in
    record a {
      ai_position =
          if eqb_ℤ a.lord_seat a.ai_seat
          then lord
          else if eqb_ℤ diff (pos 1) || eqb_ℤ diff (negsuc 1)
          then down_farmer
          else up_farmer;
    }

-- `isFree`.
unfoldable pub is_free : Ai → Bool
is_free a =
    is_lord a.ai_position && eqb_ℤ a.cur_hand_seat (negsuc 0) || eqb_ℤ a.cur_hand_seat a.ai_seat
