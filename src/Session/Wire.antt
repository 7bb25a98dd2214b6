-- ===== src/Session/Wire.antt =====
-- Messages: the requests that a robot sends, what the server's messages hold, and the frame
-- around a message (`SerializeSendMsg` of new_robot_client/src/RobotBase.cpp).
use robot_ddz.Prelude.{
  ℕ, ◌/◌, ◌%◌, Bool, true, false, List, [], ◌∷◌, ◌++◌, Option, some, none, ℤ, length,
}
use robot_ddz.Session.State.{Node}

abbrev pub Bytes : Type 0
Bytes = List ℕ

pub data Request : Type 0 where
  heartbeat verify_req init_game_req : Request
  sign_up_condition_req : ℤ → Request
  sign_up_req : ℤ → ℤ → Request
  cancel_sign_up_req quick_start_req : ℤ → Request
  keep_req ready_req trust_cancel_req : Request
  call_score_req : ℤ → Request
  take_out_req : List ℤ → Request

-- The message numbers of `enum msgID` (new_robot_client/include/RobotConfig.h).
abbrev pub id_of : Request → ℕ
id_of heartbeat = 10
id_of verify_req = 11
id_of init_game_req = 13
id_of (sign_up_condition_req m) = 2011
id_of (sign_up_req m c) = 2013
id_of (cancel_sign_up_req m) = 2015
id_of (quick_start_req m) = 2001
id_of keep_req = 5009
id_of ready_req = 5011
id_of trust_cancel_req = 5007
id_of (call_score_req s) = 5001
id_of (take_out_req cs) = 5003

pub record VerifyAck : Type 0 where
  pub result : ℤ
  pub has_game_name : Bool

pub record Cost : Type 0 where
  pub id : ℤ
  pub enable : Bool
  pub is_signed : Bool

-- `limit` is the field `enable` of the optional limit.
pub record SignUpConditionAck : Type 0 where
  pub result : ℤ
  pub limit : Option Bool
  pub cost_list : List Cost

pub record Player : Type 0 where
  pub user_name : Bytes
  pub cards : List ℤ

pub record KeepAck : Type 0 where
  pub result : ℤ
  pub players : List Player
  pub seat_lord : ℤ
  pub base_cards : List ℤ

pub record DealCard : Type 0 where
  pub header_seat : ℤ
  pub cards : List (List ℤ)

pub record CallScore : Type 0 where
  pub seat_no : ℤ
  pub seat_next : ℤ
  pub score : ℤ

pub record TakeOut : Type 0 where
  pub seat_no : ℤ
  pub seat_next : ℤ
  pub cards : List ℤ

-- The generated protobuf code and the C library: what is read from bytes, `none` where a parse
-- fails, and the bytes of a request and of the envelope around a body. A message with no body
-- opens to `some none`.
pub record Protocol : Type 0 where
  pub open_envelope : Bytes → Option (Option Bytes)
  pub envelope : Bytes → Option Bytes
  pub encode : Request → Option Bytes
  pub atoi : Bytes → ℤ
  pub verify_ack : Bytes → Option VerifyAck
  pub result_ack : ℕ → Bytes → Option ℤ
  pub sign_up_condition_ack : Bytes → Option SignUpConditionAck
  pub keep_ack : Bytes → Option KeepAck
  pub switch_scene : Bytes → Option (Unit {0})
  pub start_game : Bytes → Option (List Bytes)
  pub deal_card : Bytes → Option DealCard
  pub call_score : Bytes → Option CallScore
  pub lord_set : Bytes → Option ℤ
  pub base_card : Bytes → Option (List ℤ)
  pub take_out : Bytes → Option TakeOut
  pub trust : Bytes → Option ℤ
  pub game_over : Bytes → Option (Unit {0})

-- `htonl` of a 32-bit number, as it lies in memory.
unfoldable pub big_endian : ℕ → Bytes
big_endian n = (n / 16777216 % 256) ∷ (n / 65536 % 256) ∷ (n / 256 % 256) ∷ (n % 256) ∷ []

unfoldable pub frame : ℕ → Bytes → Bytes
unfolding big_endian
frame id s = big_endian (length s) ++ big_endian id ++ s

seal : Protocol → Request → Option Bytes
seal w q = elim (w.encode q) [ none ↦ none | some body ↦ w.envelope body ]

-- `SerializeSendMsg`: the node then holds the message that is to be sent.
unfoldable pub send : Protocol → Request → Node → Node × Bool
unfolding seal
send w q n = elim (seal w q) [
  | none ↦ (n, false)
  | some s ↦ (record n { msg = frame (id_of q) s; need_send = true }, true)
]
