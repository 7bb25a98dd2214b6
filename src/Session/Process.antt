-- ===== src/Session/Process.antt =====
-- `RobotProcess` and `AnalysisAndDecision`: one message from the server, and what follows it.
pub mod Diagram
pub mod Run
use robot_ddz.Prelude.{
  ℕ, zero, ◌≡◌, Bool, true, false, List, [], ◌∷◌, Option, some, none, if◌then◌else◌, ◌==◌, ℤ, pos,
}
use robot_ddz.Session.State.{Status, init, same, AiOps, Robot, Node, Reply, sound, new_node}
use robot_ddz.Session.Wire.{Protocol, Bytes}
use robot_ddz.Session.Login.{recv_verify_ack, recv_init_game_ack}
use robot_ddz.Session.Entry.{
  recv_query_sign_up_cond_ack, recv_sign_up_ack, recv_quick_begin_game_ack, recv_keep_play_ack,
  recv_enter_game_scene_notify, recv_cancel_sign_up_ack,
}
use robot_ddz.Session.Play.{
  recv_game_start_notify, recv_init_hard_card_notify, recv_user_call_score_notify,
  recv_get_lord_notify, recv_get_base_card_notify, recv_get_take_out_card_notify,
  recv_get_trust_notify, recv_get_game_over_notify, recv_get_game_result_notify,
  recv_get_competition_over_notify, recv_ready_for_game_ack, recv_call_score_ack,
  recv_take_out_card_ack, recv_trust_cancel_ack,
}

-- The messages that a task robot has registered a handler for.
pub data Kind : Type 0 where
  verify_ack init_game_ack sign_up_condition_ack sign_up_ack quick_start_ack keep_ack : Kind
  switch_scene start_game deal_card call_score set_lord base_card take_out trust : Kind
  game_over game_result match_over ready_ack call_score_ack take_out_ack trust_cancel_ack : Kind
  cancel_sign_up_ack : Kind

-- `mapActionCallback_.find(id)`.
pub lookup_kind : ℕ → List (ℕ × Kind) → Option Kind
lookup_kind id [] = none
lookup_kind id ((i, k) ∷ ks) = if i == id then some k else lookup_kind id ks

abbrev pub registered : List (ℕ × Kind)
registered =
    (12, verify_ack)
    ∷ (14, init_game_ack)
    ∷ (2012, sign_up_condition_ack)
    ∷ (2014, sign_up_ack)
    ∷ (2002, quick_start_ack)
    ∷ (5010, keep_ack)
    ∷ (5062, switch_scene)
    ∷ (5050, start_game)
    ∷ (5055, deal_card)
    ∷ (5057, call_score)
    ∷ (5058, set_lord)
    ∷ (5056, base_card)
    ∷ (5059, take_out)
    ∷ (5053, trust)
    ∷ (5060, game_over)
    ∷ (2100, game_result)
    ∷ (2103, match_over)
    ∷ (5012, ready_ack)
    ∷ (5002, call_score_ack)
    ∷ (5004, take_out_ack)
    ∷ (5008, trust_cancel_ack)
    ∷ (2016, cancel_sign_up_ack)
    ∷ []

unfoldable pub kind_of : ℕ → Option Kind
unfolding lookup_kind
kind_of id = lookup_kind id registered

-- What the robot asks of its surroundings.
pub data Effect : Type 0 where
  disconnect : Effect
  disconnect_and_delete : Effect
  start_timer : ℤ → Bytes → Effect
  write : Bytes → Effect

-- The return values of `RobotProcess`: `FAIL`, `CLOSE_CONNECTION` and `true`.
pub data Outcome : Type 0 where
  failed close_connection carries_on : Outcome

-- `writable` says whether the connection still has its buffer.
unfoldable pub analysis_and_decision : Bool → Node → List Effect
analysis_and_decision writable n =
    if n.keep_playing
    then (if n.need_del_robot
        then disconnect_and_delete ∷ []
        else if n.need_send
        then (if same n.delay_second (pos 0)
            then (if writable then write n.msg ∷ [] else [])
            else start_timer n.delay_second n.msg ∷ [])
        else if n.game_over
        then disconnect ∷ []
        else [])
    else disconnect ∷ []

module _ {A : Type 0} where
  -- The answer to a handler's return value.
  unfoldable pub conclude : Bool → Robot A × Node × Bool → Robot A × List Effect × Outcome
  unfolding analysis_and_decision
  conclude writable (r, n, false) = (record r { status = init }, disconnect ∷ [], close_connection)
  conclude writable (r, n, true) = (
    r,
    analysis_and_decision writable n,
    (if n.game_over
        then close_connection
        else if n.need_del_robot
        then close_connection
        else carries_on),
  )

  unfoldable pub conclude_reply : Bool → Reply A → Option (Robot A × List Effect × Outcome)
  unfolding conclude
  conclude_reply writable none = none
  conclude_reply writable (some reply) = some (conclude writable reply)

module _ {A : Type 0} (ops : AiOps A) (w : Protocol) where
  -- The handler that is registered.
  unfoldable pub call_handler : Kind → ℕ → Robot A → Node → Reply A
  call_handler verify_ack rand r n = recv_verify_ack w r n
  call_handler init_game_ack rand r n = recv_init_game_ack w r n
  call_handler sign_up_condition_ack rand r n = recv_query_sign_up_cond_ack w r n
  call_handler sign_up_ack rand r n = recv_sign_up_ack w r n
  call_handler quick_start_ack rand r n = recv_quick_begin_game_ack w r n
  call_handler keep_ack rand r n = recv_keep_play_ack ops w r n
  call_handler switch_scene rand r n = recv_enter_game_scene_notify ops w r n
  call_handler start_game rand r n = recv_game_start_notify ops w r n
  call_handler deal_card rand r n = recv_init_hard_card_notify ops w rand r n
  call_handler call_score rand r n = recv_user_call_score_notify ops w rand r n
  call_handler set_lord rand r n = recv_get_lord_notify ops w r n
  call_handler base_card rand r n = recv_get_base_card_notify ops w rand r n
  call_handler take_out rand r n = recv_get_take_out_card_notify ops w rand r n
  call_handler trust rand r n = recv_get_trust_notify ops w r n
  call_handler game_over rand r n = recv_get_game_over_notify ops w r n
  call_handler game_result rand r n = recv_get_game_result_notify ops r n
  call_handler match_over rand r n = recv_get_competition_over_notify ops r n
  call_handler ready_ack rand r n = recv_ready_for_game_ack w r n
  call_handler call_score_ack rand r n = recv_call_score_ack w r n
  call_handler take_out_ack rand r n = recv_take_out_card_ack ops w r n
  call_handler trust_cancel_ack rand r n = recv_trust_cancel_ack w r n
  call_handler cancel_sign_up_ack rand r n = recv_cancel_sign_up_ack w r n

  unfoldable pub handle : Kind → ℕ → Robot A → Node → Reply A
  unfolding sound
  handle k rand r n = sound ops (call_handler k rand r n)

  -- `RobotProcess` on a message whose number has the handler `k`.
  unfoldable pub process_body :
      Kind
      → ℕ
      → Bool
      → Robot A
      → ℕ
      → Option (Option Bytes)
      → Option (Robot A × List Effect × Outcome)
  unfolding conclude_reply
  process_body k rand writable r id none = some (r, [], failed)
  process_body k rand writable r id (some none) = some (r, [], failed)
  process_body k rand writable r id (some (some body)) =
      conclude_reply writable (handle k rand r (new_node id body))

  unfoldable pub robot_process :
      ℕ → Bool → Robot A → ℕ → Bytes → Option (Robot A × List Effect × Outcome)
  unfolding process_body kind_of
  robot_process rand writable r id bytes = elim (kind_of id) [
    | none ↦ some (r, [], failed)
    | some k ↦ process_body k rand writable r id (w.open_envelope bytes)
  ]
