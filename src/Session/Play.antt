-- ===== src/Session/Play.antt =====
-- The game itself: cards, calls, plays and the end (new_robot_client/src/RobotTask.cpp).
use robot_ddz.Prelude.{
  ℕ, zero, suc, ◌+◌, ◌%◌, true, List, [], ◌∷◌, Option, some, none, ℤ, pos, negsuc, if◌then◌else◌,
  ◌||◌, ◌&&◌, ◌==◌, leb_ℤ, ltb_ℤ,
}
use robot_ddz.Session.State.{
  init, gaming, is, same, minus_one, AiOps, Robot, Node, Reply, fail, succeed, answer, printed,
}
use robot_ddz.Session.Wire.{
  Protocol, Bytes, CallScore, TakeOut, trust_cancel_req, call_score_req, take_out_req, send,
}

-- An entry of a repeated field; an index outside it is undefined.
abbrev pub entry_at {ℓ} : {B : Type ℓ} → List B → ℤ → Option B
entry_at [] i = none
entry_at (x ∷ xs) (pos zero) = some x
entry_at (x ∷ xs) (pos (suc i)) = entry_at xs (pos i)
entry_at (x ∷ xs) (negsuc i) = none

-- `notify_dealcard` and `notify_basecard`, the messages that let the robot begin.
abbrev pub deal_card_id : ℕ
deal_card_id = 5055

abbrev pub base_card_id : ℕ
base_card_id = 5056

-- `rand() % (delay - 1) + 1`: a delay of 1 divides by zero. Below 1 the divisor is negative, and the
-- remainder is that by its absolute value, since `rand()` is not negative.
unfoldable pub call_delay : ℕ → ℤ → Option ℤ
call_delay rand (pos zero) = some (pos 1)
call_delay rand (pos (suc zero)) = none
call_delay rand (pos (suc (suc d))) = some (pos (rand % suc d + 1))
call_delay rand (negsuc d) = some (pos (rand % (d + 2) + 1))

-- The player whose name is the robot's number.
unfoldable pub find_seat : Protocol → ℤ → ℕ → List Bytes → Option ℕ
find_seat w id seat [] = none
find_seat w id seat (name ∷ names) =
    if same (w.atoi name) id then some seat else find_seat w id (seat + 1) names

-- The robot calls more than the score so far, or 0.
unfoldable pub my_call : ℤ → ℤ → ℤ → ℤ
my_call score mine current =
    if leb_ℤ mine score || (same score (pos 0) && leb_ℤ mine current) then pos 0 else mine

-- The passive delay of a play, or 0 if none is configured.
unfoldable pub play_delay : ℕ → ℤ → ℤ
play_delay rand (pos zero) = pos 0
play_delay rand (pos (suc d)) = pos (rand % suc d + 1)
play_delay rand (negsuc d) = pos 0

module _ {A : Type 0} where
  -- The delay is reckoned only when the request could be made.
  unfoldable pub delayed : Option ℤ → Robot A → Node → Reply A
  delayed none r n = none
  delayed (some d) r n = succeed r (record n { delay_second = d })

  -- `SendCallScoreReq`; `rand` is what `rand()` gives.
  unfoldable pub send_call_score_req : Protocol → ℕ → Robot A → Node → Reply A
  unfolding delayed
  send_call_score_req w rand r n =
      let sent = send w (call_score_req r.my_score) n in
      if sent.1
      then delayed
          (if n.msg_id == deal_card_id
            then some r.delay_active
            else call_delay rand r.delay_passive)
          r sent.0
      else fail r sent.0

  -- The delay of a play; one of 0 or less leaves the node's own.
  unfoldable pub take_out_delay : ℕ → Robot A → ℕ → ℤ
  unfolding play_delay
  take_out_delay rand r id =
      if id == base_card_id then r.delay_active else play_delay rand r.delay_passive

  module _ (ops : AiOps A) where
    unfoldable pub send_take_out_card_req : Protocol → ℕ → Robot A → Node → Reply A
    send_take_out_card_req w rand r n =
        let (ai', cards) = ops.out_take_out_card r.ai in
        let r' = record r { ai = ai' } in
        let sent = send w (take_out_req cards) n in
        let d = take_out_delay rand r n.msg_id in
        printed cards (
          if sent.1
          then succeed r' (if ltb_ℤ (pos 0) d then record (sent.0) { delay_second = d } else sent.0)
          else fail r' sent.0)

    unfoldable pub recv_game_start_notify : Protocol → Robot A → Node → Reply A
    recv_game_start_notify w r n =
        if is r.status gaming
        then elim (w.start_game n.msg) [
          | none ↦ fail r n
          | some names ↦ elim (find_seat w r.robot_id 0 names) [
            | none ↦ succeed r n
            | some seat ↦ succeed (record r { ai = ops.set_ai_seat (pos seat) r.ai }) n
          ]
        ]
        else fail r n

    -- The robot's own cards, and its call if the dealer has named it the first caller.
    unfoldable pub deal_cards : Protocol → ℕ → ℤ → ℤ → Option (List ℤ) → Robot A → Node → Reply A
    unfolding send_call_score_req
    deal_cards w rand seat header none r n = none
    deal_cards w rand seat header (some cards) r n =
        let dealt = ops.init_card seat cards r.ai in
        let (ai', score) = ops.out_call_score r.my_score dealt in
        printed cards (
          if same header seat
          then send_call_score_req w rand (record r { ai = ai'; my_score = score }) n
          else succeed (record r { ai = dealt }) n)

    unfoldable pub recv_init_hard_card_notify : Protocol → ℕ → Robot A → Node → Reply A
    unfolding deal_cards
    recv_init_hard_card_notify w rand r n =
        if is r.status gaming
        then elim (w.deal_card n.msg) [
          | none ↦ fail r n
          | some d ↦
              let seat = ops.get_ai_seat r.ai in
              if same seat minus_one
              then fail r n
              else deal_cards w rand seat d.header_seat (entry_at d.cards seat) r n
        ]
        else succeed r n

    unfoldable pub call_turn : Protocol → ℕ → CallScore → Robot A → Node → Reply A
    unfolding my_call send_call_score_req
    call_turn w rand c r n =
        let (ai', mine) = ops.out_call_score (pos 0) r.ai in
        if same c.seat_next minus_one
        then succeed r n
        else if same c.seat_next (ops.get_ai_seat r.ai)
        then send_call_score_req w rand
            (record r { ai = ai'; my_score = my_call c.score mine (ops.get_cur_score ai') }) n
        else succeed (record r { ai = ops.in_call_score c.seat_no c.score r.ai }) n

    unfoldable pub recv_user_call_score_notify : Protocol → ℕ → Robot A → Node → Reply A
    unfolding call_turn
    recv_user_call_score_notify w rand r n =
        if is r.status gaming
        then elim (w.call_score n.msg) [ none ↦ fail r n | some c ↦ call_turn w rand c r n ]
        else succeed r n

    unfoldable pub recv_get_lord_notify : Protocol → Robot A → Node → Reply A
    recv_get_lord_notify w r n =
        if is r.status gaming
        then elim (w.lord_set n.msg) [
          | none ↦ fail r n
          | some seat ↦ succeed (record r { ai = ops.set_lord_seat seat r.ai }) n
        ]
        else succeed r n

    -- The lord takes the base cards and, if it is the robot, plays first.
    unfoldable pub take_base_cards : Protocol → ℕ → List ℤ → Robot A → Node → Reply A
    unfolding send_take_out_card_req
    take_base_cards w rand cards r n =
        let r' = record r { ai = ops.set_lord (ops.get_lord_seat r.ai) cards r.ai } in
        printed cards (
          if same (ops.get_lord_seat r'.ai) (ops.get_ai_seat r'.ai)
          then send_take_out_card_req w rand r' n
          else succeed r' n)

    unfoldable pub recv_get_base_card_notify : Protocol → ℕ → Robot A → Node → Reply A
    unfolding take_base_cards
    recv_get_base_card_notify w rand r n =
        if is r.status gaming
        then elim (w.base_card n.msg) [
          | none ↦ fail r n
          | some cards ↦ take_base_cards w rand cards r n
        ]
        else succeed r n

    -- A play of the robot's own that it did not make itself was made by the server for it.
    unfoldable pub note_play : ℤ → TakeOut → A → A
    note_play ai_seat t a =
        let b = ops.in_take_out_card t.seat_no t.cards a in
        if same t.seat_no ai_seat
        then (if ops.is_last_take_out_cards t.cards b then b else ops.remove_extra_cards t.cards b)
        else b

    unfoldable pub play_turn : Protocol → ℕ → TakeOut → Robot A → Node → Reply A
    unfolding note_play send_take_out_card_req
    play_turn w rand t r n =
        let ai_seat = ops.get_ai_seat r.ai in
        let r' = record r { ai = note_play ai_seat t r.ai } in
        printed t.cards
          (if same t.seat_next ai_seat then send_take_out_card_req w rand r' n else succeed r' n)

    unfoldable pub recv_get_take_out_card_notify : Protocol → ℕ → Robot A → Node → Reply A
    unfolding play_turn
    recv_get_take_out_card_notify w rand r n =
        if is r.status gaming
        then elim (w.take_out n.msg) [ none ↦ fail r n | some t ↦ play_turn w rand t r n ]
        else succeed r n

    -- The server has taken over: the last play was refused, so it is taken back.
    unfoldable pub recv_get_trust_notify : Protocol → Robot A → Node → Reply A
    recv_get_trust_notify w r n =
        if is r.status gaming
        then elim (w.trust n.msg) [
          | none ↦ fail r n
          | some seat ↦
              if same (ops.get_ai_seat r.ai) seat
              then answer (record r { ai = ops.recovery_hand_cards r.ai })
                  (send w trust_cancel_req n)
              else succeed r n
        ]
        else succeed r n

    unfoldable pub recv_get_game_over_notify : Protocol → Robot A → Node → Reply A
    recv_get_game_over_notify w r n = elim (w.game_over n.msg) [
      | none ↦ succeed r n
      | some _ ↦
          succeed (record r { ai = ops.reset_data r.ai; status = init })
            (record n { game_over = true })
    ]

    unfoldable pub recv_get_game_result_notify : Robot A → Node → Reply A
    recv_get_game_result_notify r n =
        let r' = record r { ai = ops.reset_data r.ai; status = gaming } in
        if r.conf_is_match
        then succeed r' n
        else succeed (record r' { status = init }) (record n { game_over = true })

    unfoldable pub recv_get_competition_over_notify : Robot A → Node → Reply A
    recv_get_competition_over_notify r n =
        succeed (record r { ai = ops.reset_data r.ai; status = init })
          (record n { game_over = true })

    unfoldable pub recv_take_out_card_ack : Protocol → Robot A → Node → Reply A
    recv_take_out_card_ack w r n =
        if is r.status gaming
        then elim (w.result_ack 5004 n.msg) [
          | none ↦ fail r n
          | some result ↦
              if same result (pos 0)
              then succeed r n
              else succeed (record r { ai = ops.recovery_hand_cards r.ai }) n
        ]
        else fail r n

  unfoldable pub recv_ready_for_game_ack : Protocol → Robot A → Node → Reply A
  recv_ready_for_game_ack w r n =
      if is r.status gaming
      then elim (w.result_ack 5012 n.msg) [ none ↦ fail r n | some result ↦ succeed r n ]
      else succeed r n

  -- `RecvCallScoreAck` and `RecvTrustCancelAck`: the result is only logged.
  unfoldable pub recv_logged_ack : ℕ → Protocol → Robot A → Node → Reply A
  recv_logged_ack id w r n =
      if is r.status gaming
      then elim (w.result_ack id n.msg) [ none ↦ fail r n | some result ↦ succeed r n ]
      else fail r n

  unfoldable pub recv_call_score_ack : Protocol → Robot A → Node → Reply A
  unfolding recv_logged_ack
  recv_call_score_ack = recv_logged_ack 5002

  unfoldable pub recv_trust_cancel_ack : Protocol → Robot A → Node → Reply A
  unfolding recv_logged_ack
  recv_trust_cancel_ack = recv_logged_ack 5008
