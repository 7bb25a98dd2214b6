-- ===== src/Session/State.antt =====
-- What a task robot keeps (new_robot_client/include/RobotBase.h and RobotTask.h), and the node
-- that carries a message (include/MsgPackage.h).
use robot_ddz.Prelude.{
  ℕ, Bool, true, false, List, Option, some, none, if◌then◌else◌, ℤ, pos, negsuc, eqb_ℤ, ◌==◌,
}
use robot_ddz.Cards.Points.{card_vec_to_point_arr}

-- `RobotStatus`.
pub data Status : Type 0 where
  init verified init_game wait_sign_up can_sign_up signed_up quick_game gaming exiting : Status
  keep_play other header : Status

-- The values of the enumeration.
abbrev pub code : Status → ℕ
code init = 0
code verified = 1
code init_game = 2
code wait_sign_up = 3
code can_sign_up = 4
code signed_up = 5
code quick_game = 6
code gaming = 7
code exiting = 8
code keep_play = 9
code other = 10
code header = 11

abbrev pub is : Status → Status → Bool
is a b = code a == code b

-- Equality of two `int`s.
unfoldable pub same : ℤ → ℤ → Bool
same a b = eqb_ℤ a b

abbrev pub minus_one : ℤ
minus_one = negsuc 0

-- What the session asks of the card-playing component `OGLordRobotAI robot_`, whose state is `A`.
-- The two queries that answer through a reference may change the state too. `is_defined` says
-- whether the component has come to its state without undefined behaviour of its own.
pub record AiOps (A : Type 0) : Type 0 where
  pub reset_data : A → A
  pub init_card : ℤ → List ℤ → A → A
  pub in_call_score : ℤ → ℤ → A → A
  pub out_call_score : ℤ → A → A × ℤ
  pub set_lord : ℤ → List ℤ → A → A
  pub in_take_out_card : ℤ → List ℤ → A → A
  pub out_take_out_card : A → A × List ℤ
  pub set_seats : ℤ → ℤ → A → A
  pub set_card : List ℤ → List ℤ → A → A
  pub set_ai_seat : ℤ → A → A
  pub get_ai_seat : A → ℤ
  pub get_cur_score : A → ℤ
  pub set_lord_seat : ℤ → A → A
  pub get_lord_seat : A → ℤ
  pub recovery_hand_cards : A → A
  pub is_last_take_out_cards : List ℤ → A → Bool
  pub remove_extra_cards : List ℤ → A → A
  pub is_defined : A → Bool

-- `RobotBase` and `RobotTask`; `conf_is_match` is what the configuration says at present.
pub record Robot (A : Type 0) : Type 0 where
  pub robot_id : ℤ
  pub status : Status
  pub need_keep_play : Bool
  pub is_test_need_keep_play : Bool
  pub match_id : ℤ
  pub is_match : Bool
  pub conf_is_match : Bool
  pub cost_id : ℤ
  pub my_score : ℤ
  pub delay_active : ℤ
  pub delay_passive : ℤ
  pub ai : A

-- `MsgNode`.
pub record Node : Type 0 where
  pub msg_id : ℕ
  pub msg : List ℕ
  pub need_send : Bool
  pub delay_second : ℤ
  pub game_over : Bool
  pub keep_playing : Bool
  pub need_del_robot : Bool

-- A node as the constructor makes it, with a message that has come in.
abbrev pub new_node : ℕ → List ℕ → Node
new_node id bytes = record {
  msg_id = id;
  msg = bytes;
  need_send = false;
  delay_second = pos 0;
  game_over = false;
  keep_playing = true;
  need_del_robot = false;
}

-- What a handler leaves: the robot, the node and its return value. `none` is undefined behaviour:
-- a division by zero, an index outside a message's field, the printing of a card of no point, or
-- what the card player runs into.
abbrev pub Reply : Type 0 → Type 0
Reply A = Option (Robot A × Node × Bool)

module _ {A : Type 0} where
  abbrev pub fail : Robot A → Node → Reply A
  fail r n = some (r, n, false)

  abbrev pub succeed : Robot A → Node → Reply A
  succeed r n = some (r, n, true)

  -- A handler that ends in `return Send...(msgNode);`.
  abbrev pub answer : Robot A → Node × Bool → Reply A
  answer r sent = some (r, sent.0, sent.1)

  -- `printCardInfo` before the rest of a handler: it counts the cards by their points, and a card of
  -- no point is a write outside the array.
  unfoldable pub printed : List ℤ → Reply A → Reply A
  printed cards reply = elim (card_vec_to_point_arr cards) [ none ↦ none | some _ ↦ reply ]

  -- A reply whose card player has met no undefined behaviour.
  unfoldable pub sound : AiOps A → Reply A → Reply A
  sound ops none = none
  sound ops (some (r, n, b)) = if ops.is_defined r.ai then some (r, n, b) else none
