-- ===== src/Header.antt =====
-- The header robot, which asks the server how many robots a room needs
-- (new_robot_client/src/RobotHeader.cpp).
pub mod Twice
use robot_ddz.Prelude.{
  ℕ, ◌+◌, Bool, true, false, List, [], ◌∷◌, ◌++◌, Option, none, some, ◌&&◌, if◌then◌else◌, ℤ, pos,
  eqb_ℤ, leb_ℤ, ltb_ℤ, ◌-ℤ◌,
}
use robot_ddz.Session.State.{Node, same}
use robot_ddz.Session.Wire.{Protocol, Bytes, sign_up_condition_req, frame, send}
use robot_ddz.Session.Process.{Effect, disconnect, write}

-- `OrgRoomDdzNeedRobotAck`; `robots` is an optional field.
pub record NeedRobotAck : Type 0 where
  pub result : ℤ
  pub robots : Option ℤ

-- What of `OrgRoomDdzSignUpConditionAck` the header robot reads; the times are in seconds.
pub record SignUpTimes : Type 0 where
  pub result : ℤ
  pub start_sign_up_time : ℤ
  pub end_sign_up_time : ℤ
  pub start_time : ℤ

-- The generated code for the messages that only the header robot uses: the two answers, and the
-- bytes of a request for a room's need.
pub record HeaderProtocol : Type 0 where
  pub need_robot_ack : Bytes → Option NeedRobotAck
  pub sign_up_times : Bytes → Option SignUpTimes
  pub need_robot_req : ℤ → Option Bytes

-- What `RobotHeader` keeps: `matchId_` and `isTimeTrail_`; nothing else is read here.
pub record HeaderRobot : Type 0 where
  pub match_id : ℤ
  pub is_time_trail : Bool

-- A node of the header robot, with `needRobotNum_`.
pub record HeaderNode : Type 0 where
  pub node : Node
  pub need_robot_num : ℤ

-- The bytes of `OrgRoomDdzNeedRobotReq` in their envelope.
abbrev pub need_robot_message : HeaderProtocol → Protocol → ℤ → Option Bytes
need_robot_message h w id = elim (h.need_robot_req id) [ none ↦ none | some body ↦ w.envelope body ]

-- `SendMsg`.
abbrev pub send_msg : Bool → Bytes → List Effect
send_msg writable msg = if writable then write msg ∷ [] else []

-- `SendQueryRoomStatusReq` of the message 2007, which it also sends itself.
unfoldable pub send_query_room_status_req :
    HeaderProtocol → Protocol → Bool → HeaderRobot → HeaderNode → HeaderNode × List Effect × Bool
send_query_room_status_req h w writable r n = elim (need_robot_message h w r.match_id) [
  | none ↦ (n, [], false)
  | some s ↦ (
    record n { node = record (n.node) { msg = frame 2007 s; need_send = true } },
    send_msg writable (frame 2007 s),
    true,
  )
]

-- `SendQuerySignUpCondReq`.
unfoldable pub send_query_sign_up_cond_req :
    Protocol → Bool → HeaderRobot → HeaderNode → HeaderNode × List Effect × Bool
send_query_sign_up_cond_req w writable r n =
    let sent = send w (sign_up_condition_req r.match_id) n.node in
    let n' = record n { node = sent.0 } in
    if sent.1 then (n', send_msg writable sent.0.msg, true) else (n', [], false)

-- `HeaderRobotAction`, at each ring of the timer.
unfoldable pub header_robot_action :
    HeaderProtocol → Protocol → Bool → HeaderRobot → HeaderNode → HeaderNode × List Effect × Bool
unfolding send_query_room_status_req send_query_sign_up_cond_req
header_robot_action h w writable r n =
    if r.is_time_trail
    then send_query_sign_up_cond_req w writable r n
    else send_query_room_status_req h w writable r n

-- `RecvQueryRoomStatusAck`, with the settings `minPlayerNum` and `maxPlayerNum`. A maximum of 0 or
-- less is reported, and set all the same.
unfoldable pub recv_query_room_status_ack : HeaderProtocol → ℤ → ℤ → HeaderNode → HeaderNode × Bool
recv_query_room_status_ack h min_player_num max_player_num n =
    if same min_player_num (pos 0)
    then (record n { need_robot_num = max_player_num }, true)
    else elim (h.need_robot_ack n.node.msg) [
      | none ↦ (n, false)
      | some a ↦
          if same a.result (pos 0)
          then elim a.robots [
            | none ↦ (n, true)
            | some k ↦
                if ltb_ℤ k (pos 0) then (n, true) else (record n { need_robot_num = k }, true)
          ]
          else (n, false)
    ]

-- `IsTimeToQueryRoomStatus` at the time `now`, in seconds.
unfoldable pub is_time_to_query_room_status : ℤ → SignUpTimes → Bool
is_time_to_query_room_status now t =
    leb_ℤ t.start_sign_up_time now
    && ltb_ℤ now t.end_sign_up_time
    && leb_ℤ (t.start_time -ℤ now) (pos 300)

-- `RecvQuerySignUpCondAck`.
unfoldable pub recv_header_sign_up_cond_ack :
    HeaderProtocol
    → Protocol
    → ℤ
    → Bool
    → HeaderRobot
    → HeaderNode
    → HeaderNode × List Effect × Bool
unfolding send_query_room_status_req
recv_header_sign_up_cond_ack h w now writable r n = elim (h.sign_up_times n.node.msg) [
  | none ↦ (n, [], false)
  | some t ↦
      if same t.result (pos 0)
      then (if is_time_to_query_room_status now t
          then send_query_room_status_req h w writable r n
          else (n, [], true))
      else (n, [], true)
]

-- `AnalysisAndDecision`: what the header robot does after a message: a write, or robots that it asks for.
unfoldable pub header_analysis : Bool → HeaderNode → List Effect × Option ℤ
header_analysis writable n =
    if n.node.need_send
    then (send_msg writable n.node.msg, none)
    else if same n.need_robot_num (pos 0)
    then ([], none)
    else ([], some n.need_robot_num)

-- A handler, and what follows it in `RobotProcess`.
abbrev pub header_conclude : Bool → HeaderNode × List Effect × Bool → List Effect × Option ℤ
header_conclude writable (n, effects, false) = (effects ++ disconnect ∷ [], none)
header_conclude writable (n, effects, true) =
    let (more, robots) = header_analysis writable n in (effects ++ more, robots)
