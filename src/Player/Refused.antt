-- ===== src/Player/Refused.antt =====
-- A play that the server refuses: the session (new_robot_client/src/RobotTask.cpp) with the card
-- player in it.
use mathlib.Core.Path.{subst}
use robot_ddz.Prelude.{
  ℕ, ◌≡◌, refl, sym, ap, Bool, true, false, List, Option, some, arith, if◌then◌else◌, ℤ, pos,
}
use robot_ddz.Cards.Hands.{Hand}
use robot_ddz.Cards.Points.{NonNeg}
use robot_ddz.Session.State.{gaming, same, AiOps, Robot, Node, succeed, fail, new_node, is, printed}
use robot_ddz.Session.Wire.{Protocol, send, take_out_req}
use robot_ddz.Session.Play.{send_take_out_card_req, recv_take_out_card_ack}
use robot_ddz.Player.State.{Ai, is_free, seat_index}
use robot_ddz.Player.Take.{recovery_hand_cards}
use robot_ddz.Player.Take.Same.{count, SameCards, count-append}
use robot_ddz.Player.Take.Parted.{Known}
use robot_ddz.Player.Turn.{Plan, decide, out_get_take_out_card}
use robot_ddz.Player.Turn.Checked.{InDeck, card_vec_to_point_arr-some}
use robot_ddz.Player.Turn.Legal.{Whole, Known-part}
use robot_ddz.Player.Turn.Out.{ready, out_get_take_out_card-Answering}
use robot_ddz.Player.Ops.{player, give_cards}

-- Known cards can be printed before a reply.
replies :
    {A : Type 0} (cards : List ℤ) (b : Bool) (r : Robot A) (x y : Node)
    → Known cards
    → (m : Node) × (sent : Bool) × (printed cards (if b then succeed r x else fail r y)
        ≡ some (r, m, sent))
unfolding printed
replies cards true r x y known =
    let (c, shown) = card_vec_to_point_arr-some cards known in (x, true, rw (printed, shown) refl)
replies cards false r x y known =
    let (c, shown) = card_vec_to_point_arr-some cards known in (y, false, rw (printed, shown) refl)

-- A request for known cards leaves the robot with the card player's new state, whether or not it
-- could be sent.
requests :
    {A : Type 0} (ops : AiOps A) (w : Protocol) (rand : ℕ) (r : Robot A) (n : Node)
    → Known (ops.out_take_out_card r.ai).1
    → (m : Node) × (sent : Bool) × (send_take_out_card_req ops w rand r n
        ≡ some (record r { ai = (ops.out_take_out_card r.ai).0 }, m, sent))
unfolding send_take_out_card_req
requests ops w rand r n known =
    let cards = (ops.out_take_out_card r.ai).1 in
    replies cards ((send w (take_out_req cards) n).1) _ _ _ known

refusal :
    {A : Type 0} (ops : AiOps A) (w : Protocol) (r : Robot A) (msg : List ℕ) (result : ℤ)
    → r.status ≡ gaming
    → w.result_ack 5004 msg ≡ some result
    → same result (pos 0) ≡ false
    → recv_take_out_card_ack ops w r (new_node 5004 msg)
      ≡ some (record r { ai = ops.recovery_hand_cards r.ai }, new_node 5004 msg, true)
unfolding recv_take_out_card_ack
refusal ops w r msg result playing answer bad =
    let turn : is r.status gaming ≡ true = rw playing refl in
    rw (recv_take_out_card_ack, turn, answer, bad) refl

Whole-again :
    (b : Ai) (cards : List ℤ) (a : Ai)
    → Whole a.ai_cards (b, cards)
    → b.last_take_out_cards ≡ cards
    → SameCards (recovery_hand_cards b).ai_cards a.ai_cards
unfolding recovery_hand_cards
Whole-again b cards a whole last x =
    let same : count x b.last_take_out_cards ≡ count x cards = ap (count x) last in
    omega (
      arith,
      whole x,
      count-append x cards b.ai_cards,
      count-append x b.ai_cards b.last_take_out_cards,
    )

module _ (take_out_lvl1 take_out_high_lvl : Ai → Option Plan) where
  gives :
      (s : Option Ai) (a b : Ai) (cards : List ℤ)
      → s ≡ some a
      → out_get_take_out_card take_out_lvl1 take_out_high_lvl a ≡ some (b, cards)
      → (player take_out_lvl1 take_out_high_lvl).out_take_out_card s ≡ (some b, cards)
  unfolding player
  gives s a b cards e out = rw (e, give_cards, out) refl

  recovers :
      (b : Ai)
      → (player take_out_lvl1 take_out_high_lvl).recovery_hand_cards (some b)
        ≡ some (recovery_hand_cards b)
  unfolding player
  recovers b = refl

  -- For any choices of the two higher levels: when the robot is in a game and may not lead, its
  -- seat is a seat, its own counts are not negative, its cards are at most twenty of one deck, and
  -- its level chooses a hand for it, then it can ask to play, and when the server answers that with
  -- a result other than 0, the robot holds the same cards as before it asked.
  pub refused-SameCards :
      (w : Protocol) (rand : ℕ) (r : Robot (Option Ai)) (n : Node) (msg : List ℕ) (result : ℤ)
      (a : Ai) (me : ℕ)
      → r.ai ≡ some a
      → r.status ≡ gaming
      → seat_index a.ai_seat ≡ some me
      → NonNeg (a.player_info me).points
      → InDeck a.ai_cards
      → is_free a ≡ false
      → ((k : ℤ) → (c : Ai × Hand) × (decide take_out_lvl1 take_out_high_lvl (ready a k) ≡ some c))
      → w.result_ack 5004 msg ≡ some result
      → same result (pos 0) ≡ false
      → let ops = player take_out_lvl1 take_out_high_lvl in
        (sent : Robot (Option Ai) × Node × Bool) × (c : Ai) × (send_take_out_card_req ops w rand r n
          ≡ some sent)
        × (recv_take_out_card_ack ops w sent.0 (new_node 5004 msg)
            ≡ some (record r { ai = some c }, new_node 5004 msg, true))
        × SameCards c.ai_cards a.ai_cards
  refused-SameCards w rand r n msg result a me state playing sits own deck busy decides answer bad =
      let ops : AiOps (Option Ai) = player take_out_lvl1 take_out_high_lvl in
      let ((b, cards), out, answers, whole, last) =
        out_get_take_out_card-Answering take_out_lvl1 take_out_high_lvl a me sits own deck busy
          decides in
      let gave : ops.out_take_out_card r.ai ≡ (some b, cards) = gives r.ai a b cards state out in
      let given : (ops.out_take_out_card r.ai).0 ≡ some b = ap (λ s. s.0) gave in
      let known : Known cards =
        Known-part a.ai_cards cards (λ x. omega (arith, whole x, count-append x cards b.ai_cards))
          deck.0 in
      let (m, sent, requested) =
        requests ops w rand r n (subst (λ s. Known s.1) (sym gave) known) in
      let r' : Robot (Option Ai) = record r { ai = some b } in
      let back : recv_take_out_card_ack ops w r' (new_node 5004 msg)
          ≡ some (record r { ai = ops.recovery_hand_cards (some b) }, new_node 5004 msg, true) =
        refusal ops w r' msg result playing answer bad in
      (
        (r', m, sent),
        recovery_hand_cards b,
        subst (λ u. send_take_out_card_req ops w rand r n ≡ some (record r { ai = u }, m, sent))
            given requested,
        subst
            (λ u.
              recv_take_out_card_ack ops w r' (new_node 5004 msg)
              ≡ some (record r { ai = u }, new_node 5004 msg, true))
            (recovers b) back,
        Whole-again b cards a whole last,
      )
