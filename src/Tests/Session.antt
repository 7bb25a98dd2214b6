-- ===== src/Tests/Session.antt =====
-- A session with a concrete protocol and a card-player that only knows its seat.
use robot_ddz.Prelude.{ℕ, refl, List, [], ◌∷◌, ℤ, pos, some, none, true, false}
use robot_ddz.Session.State.{Status, init, verified, AiOps, Robot, new_node, minus_one, same}
use robot_ddz.Session.Wire.{Protocol, Request, send, CallScore}
use robot_ddz.Session.Login.{recv_verify_ack}
use robot_ddz.Session.Process.{verify_ack, call_handler, handle, Effect, Outcome}
use robot_ddz.Session.Process.Diagram.{Moves, handle-Moves}

-- The state is the robot's seat; it calls 3 and plays the point 0.
abbrev player : AiOps ℤ
player = record {
  reset_data = λ a. minus_one;
  init_card = λ seat cards a. seat;
  in_call_score = λ seat score a. a;
  out_call_score = λ score a. (a, pos 3);
  set_lord = λ seat cards a. a;
  in_take_out_card = λ seat cards a. a;
  out_take_out_card = λ a. (a, pos 0 ∷ []);
  set_seats = λ seat lord a. seat;
  set_card = λ cards base a. a;
  set_ai_seat = λ seat a. seat;
  get_ai_seat = λ a. a;
  get_cur_score = λ a. pos 0;
  set_lord_seat = λ seat a. a;
  get_lord_seat = λ a. pos 0;
  recovery_hand_cards = λ a. a;
  is_last_take_out_cards = λ cards a. true;
  remove_extra_cards = λ cards a. a;
  is_defined = λ a. true;
}

abbrev pub next_call : CallScore
next_call = record { seat_no = pos 0; seat_next = pos 1; score = pos 1 }

-- Every message parses, and every result is 0.
abbrev pub wire : Protocol
wire = record {
  open_envelope = λ s. some (some s);
  envelope = λ s. some s;
  encode = λ q. some (1 ∷ 2 ∷ []);
  atoi = λ s. pos 7;
  verify_ack = λ s. some (record { result = pos 0; has_game_name = false });
  result_ack = λ id s. some (pos 0);
  sign_up_condition_ack = λ s. none;
  keep_ack = λ s. none;
  switch_scene = λ s. some tt;
  start_game = λ s. some (s ∷ []);
  deal_card = λ s. none;
  call_score = λ s. some next_call;
  lord_set = λ s. some (pos 0);
  base_card = λ s. some [];
  take_out = λ s. none;
  trust = λ s. some (pos 1);
  game_over = λ s. some tt;
}

abbrev robot_at : Status → ℕ → Robot ℤ
robot_at status delay = record {
  robot_id = pos 7;
  status = status;
  need_keep_play = false;
  is_test_need_keep_play = false;
  match_id = pos 40;
  is_match = true;
  conf_is_match = true;
  cost_id = pos 0;
  my_score = pos 0;
  delay_active = pos 5;
  delay_passive = pos delay;
  ai = pos 1;
}

-- A robot at `init` is verified, and asks for the start of the game.
after_verify : Robot ℤ × List Effect × Outcome
after_verify = (
  record (robot_at init 4) { status = verified },
  Effect.write (0 ∷ 0 ∷ 0 ∷ 2 ∷ 0 ∷ 0 ∷ 0 ∷ 13 ∷ 1 ∷ 2 ∷ []) ∷ [],
  Outcome.carries_on,
)

handle-Moves_example : Moves verify_ack init verified
unfolding handle call_handler recv_verify_ack send same
handle-Moves_example =
    handle-Moves player wire verify_ack 9 (robot_at init 4)
      (record (robot_at init 4) { status = verified }) (new_node 12 (5 ∷ []))
      (send wire Request.init_game_req (new_node 12 (5 ∷ []))).0 refl
