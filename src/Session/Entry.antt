-- ===== src/Session/Entry.antt =====
-- Signing up, the quick start and resuming a game (new_robot_client/src/RobotTask.cpp).
use robot_ddz.Prelude.{
  ℕ, ◌+◌, Bool, true, false, List, [], ◌∷◌, Option, some, none, ℤ, pos, if◌then◌else◌, ◌||◌,
}
use robot_ddz.Session.State.{
  Status, init, init_game, can_sign_up, signed_up, quick_game, gaming, keep_play, is, same, AiOps,
  Robot, Node, Reply, fail, succeed, answer, printed,
}
use robot_ddz.Session.Wire.{
  Protocol, Cost, Player, KeepAck, sign_up_req, trust_cancel_req, ready_req, send,
}

-- The first cost that is enabled.
unfoldable pub find_cost : List Cost → Option Cost
find_cost [] = none
find_cost (c ∷ cs) = if c.enable then some c else find_cost cs

-- The seat of the first player with the robot's number.
unfoldable pub find_player : Protocol → ℤ → ℕ → List Player → Option (ℕ × Player)
find_player w id seat [] = none
find_player w id seat (p ∷ ps) =
    if same (w.atoi p.user_name) id then some (seat, p) else find_player w id (seat + 1) ps

module _ {A : Type 0} where
  unfoldable pub quick_begin_result : ℤ → Robot A → Node → Reply A
  quick_begin_result result r n =
      if same result (pos 0)
      then succeed (record r { status = quick_game }) n
      else if same result (pos 506)
      then succeed r (record n { need_del_robot = true })
      else fail r n

  unfoldable pub recv_quick_begin_game_ack : Protocol → Robot A → Node → Reply A
  unfolding quick_begin_result
  recv_quick_begin_game_ack w r n =
      if is r.status init_game
      then elim (w.result_ack 2002 n.msg) [
        | none ↦ fail r n
        | some result ↦ quick_begin_result result r n
      ]
      else if is r.status gaming
      then succeed r n
      else fail r n

  unfoldable pub send_sign_up_req : Protocol → Robot A → Node → Reply A
  send_sign_up_req w r n = answer r (send w (sign_up_req r.match_id r.cost_id) n)

  unfoldable pub choose_cost : Protocol → Option Cost → Robot A → Node → Reply A
  unfolding send_sign_up_req
  choose_cost w none r n = fail r n
  choose_cost w (some c) r n =
      if c.is_signed
      then succeed (record r { cost_id = c.id; status = signed_up }) n
      else send_sign_up_req w (record r { cost_id = c.id; status = can_sign_up }) n

  unfoldable pub sign_up_condition : Protocol → Option Bool → List Cost → Robot A → Node → Reply A
  unfolding choose_cost send_sign_up_req
  sign_up_condition w none costs r n = send_sign_up_req w (record r { status = can_sign_up }) n
  sign_up_condition w (some false) costs r n = fail r n
  sign_up_condition w (some true) costs r n = choose_cost w (find_cost costs) r n

  unfoldable pub recv_query_sign_up_cond_ack : Protocol → Robot A → Node → Reply A
  unfolding sign_up_condition
  recv_query_sign_up_cond_ack w r n =
      if is r.status init_game
      then elim (w.sign_up_condition_ack n.msg) [
        | none ↦ fail r n
        | some a ↦
            if same a.result (pos 0) then sign_up_condition w a.limit a.cost_list r n else fail r n
      ]
      else fail r n

  unfoldable pub recv_sign_up_ack : Protocol → Robot A → Node → Reply A
  recv_sign_up_ack w r n =
      if is r.status can_sign_up
      then elim (w.result_ack 2014 n.msg) [
        | none ↦ fail r n
        | some result ↦
            if same result (pos 0) || same result (pos 508)
            then succeed (record r { status = signed_up }) n
            else fail r n
      ]
      else if is r.status gaming
      then succeed r n
      else fail r n

  module _ (ops : AiOps A) where
    unfoldable pub resume : Protocol → KeepAck → Option (ℕ × Player) → Robot A → Node → Reply A
    resume w a none r n = fail r n
    resume w a (some (seat, p)) r n = printed a.base_cards (
        printed p.cards (
          answer
            (record r {
              status = gaming;
              ai = ops.set_card p.cards a.base_cards (
                  ops.set_seats (pos seat) a.seat_lord
                    (ops.reset_data (ops.set_ai_seat (pos seat) r.ai)));
            })
            (send w trust_cancel_req n)))

    unfoldable pub keep_play_result : Protocol → KeepAck → Robot A → Node → Reply A
    unfolding resume
    keep_play_result w a r n =
        if same a.result (pos 0)
        then resume w a (find_player w r.robot_id 0 a.players) r n
        else fail (record r { status = init }) n

    unfoldable pub recv_keep_play_ack : Protocol → Robot A → Node → Reply A
    unfolding keep_play_result
    recv_keep_play_ack w r n =
        if is r.status keep_play
        then elim (w.keep_ack n.msg) [ none ↦ fail r n | some a ↦ keep_play_result w a r n ]
        else fail r n

    -- The statuses in which the server may call the robot to the table.
    abbrev pub can_enter : Status → Bool
    can_enter s =
        is s signed_up || is s quick_game || is s gaming || is s keep_play || is s init_game

    unfoldable pub recv_enter_game_scene_notify : Protocol → Robot A → Node → Reply A
    recv_enter_game_scene_notify w r n = elim (w.switch_scene n.msg) [
      | none ↦ fail r n
      | some _ ↦
          if can_enter r.status
          then answer (record r { status = gaming; ai = ops.reset_data r.ai }) (send w ready_req n)
          else fail r n
    ]

  unfoldable pub recv_cancel_sign_up_ack : Protocol → Robot A → Node → Reply A
  recv_cancel_sign_up_ack w r n = elim (w.result_ack 2016 n.msg) [
    | none ↦ fail r n
    | some result ↦ if same result (pos 0) then succeed r n else fail r n
  ]
