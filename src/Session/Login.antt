-- ===== src/Session/Login.antt =====
-- Verification and the start of a game (new_robot_client/src/RobotBase.cpp).
use robot_ddz.Prelude.{Bool, true, false, some, none, ℤ, pos, if◌then◌else◌}
use robot_ddz.Session.State.{
  init, verified, init_game, signed_up, keep_play, is, same, Robot, Node, Reply, fail, succeed,
  answer,
}
use robot_ddz.Session.Wire.{
  Protocol, VerifyAck, heartbeat, verify_req, init_game_req, keep_req, sign_up_condition_req,
  cancel_sign_up_req, quick_start_req, send,
}

unfoldable pub get_heart_beat_msg : Protocol → Node → Node × Bool
get_heart_beat_msg w n = send w heartbeat n

-- The result of `SendMsg` is not looked at.
unfoldable pub send_verify_req : Protocol → Node → Node × Bool
send_verify_req w n = send w verify_req n

module _ {A : Type 0} where
  unfoldable pub verify_result : Protocol → VerifyAck → Robot A → Node → Reply A
  verify_result w a r n =
      if same a.result (pos 0)
      then (if a.has_game_name
          then answer (record r { need_keep_play = true; status = verified })
              (send w init_game_req n)
          else if r.is_test_need_keep_play
          then succeed r (record n { keep_playing = false })
          else answer (record r { status = verified }) (send w init_game_req n))
      else fail r n

  unfoldable pub recv_verify_ack : Protocol → Robot A → Node → Reply A
  unfolding verify_result
  recv_verify_ack w r n =
      if is r.status init
      then elim (w.verify_ack n.msg) [ none ↦ fail r n | some a ↦ verify_result w a r n ]
      else fail r n

  -- `RobotTask::NextActionProcess`.
  unfoldable pub next_action_process : Protocol → Robot A → Node → Reply A
  next_action_process w r n =
      if is r.status keep_play
      then answer (record r { need_keep_play = false }) (send w keep_req n)
      else if r.is_match
      then answer r (send w (sign_up_condition_req r.match_id) n)
      else answer r (send w (quick_start_req r.match_id) n)

  unfoldable pub init_game_result : Protocol → ℤ → Robot A → Node → Reply A
  unfolding next_action_process
  init_game_result w result r n =
      if same result (pos 0)
      then next_action_process w
          (record r { status = (if r.need_keep_play then keep_play else init_game) }) n
      else fail r n

  unfoldable pub recv_init_game_ack : Protocol → Robot A → Node → Reply A
  unfolding init_game_result
  recv_init_game_ack w r n =
      if is r.status verified
      then elim (w.result_ack 14 n.msg) [
        | none ↦ fail r n
        | some result ↦ init_game_result w result r n
      ]
      else fail r n

  -- The request for a cancellation, sent only by a robot that has signed up.
  unfoldable pub send_cancel_sign_up_req : Protocol → Robot A → Node → Node × Bool
  send_cancel_sign_up_req w r n =
      if is r.status signed_up then send w (cancel_sign_up_req r.match_id) n else (n, true)
