-- ===== src/Player/Ops.antt =====
-- The card player behind the interface that the session uses. A state of `none` is one that
-- undefined behaviour has been reached in.
use robot_ddz.Prelude.{true, false, List, [], Option, none, some, ℤ}
use robot_ddz.Session.State.{AiOps, minus_one}
use robot_ddz.Player.State.{Ai}
use robot_ddz.Player.Game.{init_card, in_call_score, out_call_score, set_lord, in_take_out_card}
use robot_ddz.Player.Take.{recovery_hand_cards, is_last_take_out_cards, remove_extra_cards}
use robot_ddz.Player.Turn.{Plan, out_get_take_out_card}
use robot_ddz.Player.Resume.{reset_data, set_seats, set_card}

abbrev lift : (Ai → Ai) → Option Ai → Option Ai
lift f none = none
lift f (some a) = some (f a)

abbrev then : (Ai → Option Ai) → Option Ai → Option Ai
then f none = none
then f (some a) = f a

abbrev ask : {B : Type 0} → B → (Ai → B) → Option Ai → B
ask d f none = d
ask d f (some a) = f a

-- `RbtOutGetCallScore(callScore)`: the reference keeps its value where there is no answer.
abbrev give_score : ℤ → Option Ai → Option Ai × ℤ
give_score old none = (none, old)
give_score old (some a) = elim (out_call_score a) [ none ↦ (none, old) | some s ↦ (some a, s) ]

module _ (take_out_lvl1 take_out_high_lvl : Ai → Option Plan) where
  abbrev pub give_cards : Option Ai → Option Ai × List ℤ
  give_cards none = (none, [])
  give_cards (some a) = elim (out_get_take_out_card take_out_lvl1 take_out_high_lvl a) [
    | none ↦ (none, [])
    | some (b, cards) ↦ (some b, cards)
  ]

  unfoldable pub player : AiOps (Option Ai)
  player = record {
    reset_data = lift reset_data;
    init_card = λ seat cards. then (init_card seat cards);
    in_call_score = λ seat score. lift (in_call_score seat score);
    out_call_score = give_score;
    set_lord = λ seat cards. then (set_lord seat cards);
    in_take_out_card = λ seat cards. then (in_take_out_card seat cards);
    out_take_out_card = give_cards;
    set_seats = λ mine seat. lift (set_seats mine seat);
    set_card = λ cards base. then (set_card cards base);
    set_ai_seat = λ seat. lift (λ a. record a { ai_seat = seat });
    get_ai_seat = ask minus_one (λ a. a.ai_seat);
    get_cur_score = ask minus_one (λ a. a.cur_score);
    set_lord_seat = λ seat. lift (λ a. record a { lord_seat = seat });
    get_lord_seat = ask minus_one (λ a. a.lord_seat);
    recovery_hand_cards = lift recovery_hand_cards;
    is_last_take_out_cards = λ cards. ask false (is_last_take_out_cards cards);
    remove_extra_cards = λ cards. lift (remove_extra_cards cards);
    is_defined = ask false (λ a. true);
  }
