-- ===== src/Session/Process/Diagram.antt =====
-- How a message moves the robot's status: the diagram of RobotBase.cpp and RobotTask.cpp.
use robot_ddz.Prelude.{ℕ, ◌≡◌, Bool, true, none, some, arith}
use robot_ddz.Session.State.{
  Status, init, verified, init_game, can_sign_up, signed_up, quick_game, gaming, keep_play, AiOps,
  Robot, Node, Reply, printed, sound,
}
use robot_ddz.Session.Wire.{Protocol}
use robot_ddz.Session.Login.{recv_verify_ack, recv_init_game_ack}
use robot_ddz.Session.Entry.{
  recv_query_sign_up_cond_ack, recv_sign_up_ack, recv_quick_begin_game_ack, recv_keep_play_ack,
  recv_enter_game_scene_notify, recv_cancel_sign_up_ack,
}
use robot_ddz.Session.Play.{
  recv_game_start_notify, recv_init_hard_card_notify, recv_user_call_score_notify,
  recv_get_lord_notify, recv_get_base_card_notify, recv_get_take_out_card_notify,
  recv_get_trust_notify, recv_get_game_over_notify, recv_get_game_result_notify,
  recv_get_competition_over_notify, recv_ready_for_game_ack, recv_call_score_ack,
  recv_take_out_card_ack, recv_trust_cancel_ack,
}
use robot_ddz.Session.Process.{
  Kind, verify_ack, init_game_ack, sign_up_condition_ack, sign_up_ack, quick_start_ack, keep_ack,
  switch_scene, start_game, deal_card, call_score, set_lord, base_card, take_out, trust, game_over,
  game_result, match_over, ready_ack, call_score_ack, take_out_ack, trust_cancel_ack,
  cancel_sign_up_ack, call_handler, handle,
}

-- The transition diagram: what a message of a kind may do to the status when its handler succeeds.
pub data Moves : Kind → Status → Status → Type 0 where
  stays : {k : Kind} {s : Status} → Moves k s s
  verifies : Moves verify_ack init verified
  starts : Moves init_game_ack verified init_game
  resumes : Moves init_game_ack verified keep_play
  may_sign_up : Moves sign_up_condition_ack init_game can_sign_up
  has_signed_up : Moves sign_up_condition_ack init_game signed_up
  signs_up : Moves sign_up_ack can_sign_up signed_up
  quick_starts : Moves quick_start_ack init_game quick_game
  plays_on : Moves keep_ack keep_play gaming
  enters_signed_up : Moves switch_scene signed_up gaming
  enters_quick_game : Moves switch_scene quick_game gaming
  enters_init_game : Moves switch_scene init_game gaming
  enters_keep_play : Moves switch_scene keep_play gaming
  game_ends : {s : Status} → Moves game_over s init
  round_ends : {s : Status} → Moves game_result s gaming
  single_game_ends : {s : Status} → Moves game_result s init
  match_ends : {s : Status} → Moves match_over s init

ruleset login = (verifies, starts, resumes)

ruleset entry = (
  may_sign_up, has_signed_up, signs_up, quick_starts, plays_on, enters_signed_up, enters_quick_game,
  enters_init_game, enters_keep_play,
)

module _ {A : Type 0} (ops : AiOps A) (w : Protocol) where
  verify-Moves :
      (r r' : Robot A) (n n' : Node)
      → recv_verify_ack w r n ≡ some (r', n', true)
      → Moves verify_ack r.status r'.status
  unfolding recv_verify_ack
  verify-Moves r r' n n' h = grind (arith, login, stays)

  init_game-Moves :
      (r r' : Robot A) (n n' : Node)
      → recv_init_game_ack w r n ≡ some (r', n', true)
      → Moves init_game_ack r.status r'.status
  unfolding recv_init_game_ack
  init_game-Moves r r' n n' h = grind (arith, login)

  cond-Moves :
      (r r' : Robot A) (n n' : Node)
      → recv_query_sign_up_cond_ack w r n ≡ some (r', n', true)
      → Moves sign_up_condition_ack r.status r'.status
  unfolding recv_query_sign_up_cond_ack
  cond-Moves r r' n n' h = grind (arith, entry)

  sign_up-Moves :
      (r r' : Robot A) (n n' : Node)
      → recv_sign_up_ack w r n ≡ some (r', n', true)
      → Moves sign_up_ack r.status r'.status
  unfolding recv_sign_up_ack
  sign_up-Moves r r' n n' h = grind (arith, entry, stays)

  quick-Moves :
      (r r' : Robot A) (n n' : Node)
      → recv_quick_begin_game_ack w r n ≡ some (r', n', true)
      → Moves quick_start_ack r.status r'.status
  unfolding recv_quick_begin_game_ack
  quick-Moves r r' n n' h = grind (arith, entry, stays)

  keep-Moves :
      (r r' : Robot A) (n n' : Node)
      → recv_keep_play_ack ops w r n ≡ some (r', n', true)
      → Moves keep_ack r.status r'.status
  unfolding recv_keep_play_ack printed
  keep-Moves r r' n n' h = grind (arith, entry)

  scene-Moves :
      (r r' : Robot A) (n n' : Node)
      → recv_enter_game_scene_notify ops w r n ≡ some (r', n', true)
      → Moves switch_scene r.status r'.status
  unfolding recv_enter_game_scene_notify
  scene-Moves r r' n n' h = grind (arith, entry, stays)

  game_over-Moves :
      (r r' : Robot A) (n n' : Node)
      → recv_get_game_over_notify ops w r n ≡ some (r', n', true)
      → Moves game_over r.status r'.status
  unfolding recv_get_game_over_notify
  game_over-Moves r r' n n' h = grind (arith, stays, game_ends)

  game_result-Moves :
      (r r' : Robot A) (n n' : Node)
      → recv_get_game_result_notify ops r n ≡ some (r', n', true)
      → Moves game_result r.status r'.status
  unfolding recv_get_game_result_notify
  game_result-Moves r r' n n' h = grind (arith, round_ends, single_game_ends)

  match_over-Moves :
      (r r' : Robot A) (n n' : Node)
      → recv_get_competition_over_notify ops r n ≡ some (r', n', true)
      → Moves match_over r.status r'.status
  unfolding recv_get_competition_over_notify
  match_over-Moves r r' n n' h = grind (arith, match_ends)

  -- The messages of the game itself leave the status alone, whether they succeed or not.
  start_keeps :
      (r r' : Robot A) (n n' : Node) (b : Bool)
      → recv_game_start_notify ops w r n ≡ some (r', n', b)
      → r'.status ≡ r.status
  unfolding recv_game_start_notify
  start_keeps r r' n n' b h = ground arith

  deal_keeps :
      (rand : ℕ) (r r' : Robot A) (n n' : Node) (b : Bool)
      → recv_init_hard_card_notify ops w rand r n ≡ some (r', n', b)
      → r'.status ≡ r.status
  unfolding recv_init_hard_card_notify printed
  deal_keeps rand r r' n n' b h = ground arith

  call_keeps :
      (rand : ℕ) (r r' : Robot A) (n n' : Node) (b : Bool)
      → recv_user_call_score_notify ops w rand r n ≡ some (r', n', b)
      → r'.status ≡ r.status
  unfolding recv_user_call_score_notify
  call_keeps rand r r' n n' b h = ground arith

  lord_keeps :
      (r r' : Robot A) (n n' : Node) (b : Bool)
      → recv_get_lord_notify ops w r n ≡ some (r', n', b)
      → r'.status ≡ r.status
  unfolding recv_get_lord_notify
  lord_keeps r r' n n' b h = ground arith

  base_keeps :
      (rand : ℕ) (r r' : Robot A) (n n' : Node) (b : Bool)
      → recv_get_base_card_notify ops w rand r n ≡ some (r', n', b)
      → r'.status ≡ r.status
  unfolding recv_get_base_card_notify printed
  base_keeps rand r r' n n' b h = ground arith

  take_keeps :
      (rand : ℕ) (r r' : Robot A) (n n' : Node) (b : Bool)
      → recv_get_take_out_card_notify ops w rand r n ≡ some (r', n', b)
      → r'.status ≡ r.status
  unfolding recv_get_take_out_card_notify printed
  take_keeps rand r r' n n' b h = ground arith

  trust_keeps :
      (r r' : Robot A) (n n' : Node) (b : Bool)
      → recv_get_trust_notify ops w r n ≡ some (r', n', b)
      → r'.status ≡ r.status
  unfolding recv_get_trust_notify
  trust_keeps r r' n n' b h = ground arith

  ready_keeps :
      (r r' : Robot A) (n n' : Node) (b : Bool)
      → recv_ready_for_game_ack w r n ≡ some (r', n', b)
      → r'.status ≡ r.status
  unfolding recv_ready_for_game_ack
  ready_keeps r r' n n' b h = ground arith

  call_ack_keeps :
      (r r' : Robot A) (n n' : Node) (b : Bool)
      → recv_call_score_ack w r n ≡ some (r', n', b)
      → r'.status ≡ r.status
  unfolding recv_call_score_ack
  call_ack_keeps r r' n n' b h = ground arith

  take_ack_keeps :
      (r r' : Robot A) (n n' : Node) (b : Bool)
      → recv_take_out_card_ack ops w r n ≡ some (r', n', b)
      → r'.status ≡ r.status
  unfolding recv_take_out_card_ack
  take_ack_keeps r r' n n' b h = ground arith

  trust_ack_keeps :
      (r r' : Robot A) (n n' : Node) (b : Bool)
      → recv_trust_cancel_ack w r n ≡ some (r', n', b)
      → r'.status ≡ r.status
  unfolding recv_trust_cancel_ack
  trust_ack_keeps r r' n n' b h = ground arith

  cancel_keeps :
      (r r' : Robot A) (n n' : Node) (b : Bool)
      → recv_cancel_sign_up_ack w r n ≡ some (r', n', b)
      → r'.status ≡ r.status
  unfolding recv_cancel_sign_up_ack
  cancel_keeps r r' n n' b h = ground arith

  call_handler-Moves :
      (k : Kind) (rand : ℕ) (r r' : Robot A) (n n' : Node)
      → call_handler ops w k rand r n ≡ some (r', n', true)
      → Moves k r.status r'.status
  unfolding call_handler
  call_handler-Moves verify_ack rand r r' n n' h = verify-Moves r r' n n' h
  call_handler-Moves init_game_ack rand r r' n n' h = init_game-Moves r r' n n' h
  call_handler-Moves sign_up_condition_ack rand r r' n n' h = cond-Moves r r' n n' h
  call_handler-Moves sign_up_ack rand r r' n n' h = sign_up-Moves r r' n n' h
  call_handler-Moves quick_start_ack rand r r' n n' h = quick-Moves r r' n n' h
  call_handler-Moves keep_ack rand r r' n n' h = keep-Moves r r' n n' h
  call_handler-Moves switch_scene rand r r' n n' h = scene-Moves r r' n n' h
  call_handler-Moves game_over rand r r' n n' h = game_over-Moves r r' n n' h
  call_handler-Moves game_result rand r r' n n' h = game_result-Moves r r' n n' h
  call_handler-Moves match_over rand r r' n n' h = match_over-Moves r r' n n' h
  call_handler-Moves start_game rand r r' n n' h = rw (start_keeps r r' n n' true h) stays
  call_handler-Moves deal_card rand r r' n n' h = rw (deal_keeps rand r r' n n' true h) stays
  call_handler-Moves call_score rand r r' n n' h = rw (call_keeps rand r r' n n' true h) stays
  call_handler-Moves set_lord rand r r' n n' h = rw (lord_keeps r r' n n' true h) stays
  call_handler-Moves base_card rand r r' n n' h = rw (base_keeps rand r r' n n' true h) stays
  call_handler-Moves take_out rand r r' n n' h = rw (take_keeps rand r r' n n' true h) stays
  call_handler-Moves trust rand r r' n n' h = rw (trust_keeps r r' n n' true h) stays
  call_handler-Moves ready_ack rand r r' n n' h = rw (ready_keeps r r' n n' true h) stays
  call_handler-Moves call_score_ack rand r r' n n' h = rw (call_ack_keeps r r' n n' true h) stays
  call_handler-Moves take_out_ack rand r r' n n' h = rw (take_ack_keeps r r' n n' true h) stays
  call_handler-Moves trust_cancel_ack rand r r' n n' h = rw (trust_ack_keeps r r' n n' true h) stays
  call_handler-Moves cancel_sign_up_ack rand r r' n n' h = rw (cancel_keeps r r' n n' true h) stays

  sound-some :
      (reply : Reply A) (out : Robot A × Node × Bool)
      → sound ops reply ≡ some out
      → reply ≡ some out
  unfolding sound
  sound-some none out h = h
  sound-some (some (r, n, b)) out h = ground arith

  -- A message whose handler succeeds moves the robot status along the transition diagram.
  pub handle-Moves :
      (k : Kind) (rand : ℕ) (r r' : Robot A) (n n' : Node)
      → handle ops w k rand r n ≡ some (r', n', true)
      → Moves k r.status r'.status
  unfolding handle
  handle-Moves k rand r r' n n' h =
      call_handler-Moves k rand r r' n n'
        (sound-some (call_handler ops w k rand r n) (r', n', true) h)
