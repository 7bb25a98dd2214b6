-- ===== src/Player/Turn/Out.antt =====
-- `RbtOutGetTakeOutCard` as a whole, with the choice of the hand before it.
use mathlib.Core.Path.{subst}
use robot_ddz.Prelude.{
  ℕ, ◌≡◌, inl, inr, refl, sym, ◌∙◌, false, Bool-cases, Option-cases, List, Option, none, some,
  arith, ℤ, pos, eqb_ℤ,
}
use robot_ddz.Cards.Hands.{Hand}
use robot_ddz.Cards.Points.{NonNeg}
use robot_ddz.Cards.Scan.{get_lowest_control}
use robot_ddz.Player.State.{Ai, is_free, seat_index}
use robot_ddz.Player.Controls.Ends.{cal_control_bound}
use robot_ddz.Player.Game.{sort_hand_map, count_controls}
use robot_ddz.Player.Game.Kept.{Kept, Kept-by, sort_hand_map-Kept}
use robot_ddz.Player.Decide.{take_out_lvl0}
use robot_ddz.Player.Turn.{Plan, adopt, follow, decide, out_get_take_out_card}
use robot_ddz.Player.Turn.Checked.{InDeck}
use robot_ddz.Player.Turn.Legal.{Answering, Whole, play-Answering}

take_out_lvl0-Kept : (a : Ai) (r : Ai × Hand) → take_out_lvl0 a ≡ some r → Kept a r.0
unfolding take_out_lvl0
take_out_lvl0-Kept a r e = elim (Option-cases (sort_hand_map a)) [
  | inl fault ↦ let e' = rw (take_out_lvl0, fault) at e in grind arith
  | inr (b, sorted) ↦
      let e' = rw (take_out_lvl0, sorted) at e in
      let same : b ≡ r.0 = grind arith in subst (Kept a) same (sort_hand_map-Kept a b sorted)
]

follow-Kept : (a : Ai) (p : Option Plan) (r : Ai × Hand) → follow a p ≡ some r → Kept a r.0
unfolding is_free
follow-Kept a none r e = grind arith
follow-Kept a (some p) r e =
    Kept-by a (adopt a p) r.0 (refl, refl, refl, refl, refl, refl, refl) (grind arith)

-- The state with its controls counted.
abbrev pub ready : Ai → ℤ → Ai
ready a n = record a { lowest_control = get_lowest_control a.remain_points; control_num = n }

still : (a : Ai) (n : ℤ) → is_free (ready a n) ≡ is_free a
unfolding is_free
still a n = refl

counts :
    (a : Ai) (me : ℕ)
    → seat_index a.ai_seat ≡ some me
    → NonNeg (a.player_info me).points
    → (n : ℕ) × (count_controls (record a { lowest_control = get_lowest_control a.remain_points })
        ≡ some (ready a (pos n)))
unfolding count_controls
counts a me seat own =
    let (n, counted, few) =
      cal_control_bound (a.player_info me).points a.other_points
        (get_lowest_control a.remain_points) own in
    (n, rw (count_controls, seat, counted) refl)

module _ (take_out_lvl1 take_out_high_lvl : Ai → Option Plan) where
  decide-Kept :
      (a : Ai) (r : Ai × Hand) → decide take_out_lvl1 take_out_high_lvl a ≡ some r → Kept a r.0
  unfolding decide
  decide-Kept a r e = elim (Bool-cases (eqb_ℤ a.level (pos 0))) [
    | inl low ↦ take_out_lvl0-Kept a r (rw (decide, low) at e)
    | inr up ↦ elim (Bool-cases (eqb_ℤ a.level (pos 1))) [
      | inl one ↦ follow-Kept a (take_out_lvl1 a) r (rw (decide, up, one) at e)
      | inr high ↦ follow-Kept a (take_out_high_lvl a) r (rw (decide, up, high) at e)
    ]
  ]

  -- For any choices of the two higher levels: when the robot must answer a hand, its seat is a
  -- seat, its own counts are not negative, its cards are at most twenty of one deck, and a hand is
  -- chosen, RbtOutGetTakeOutCard plays cards that getHand takes for no hand, such as no cards at
  -- all, or for one that is higher than the hand on the table; the cards played and kept are
  -- together those it had, and what it notes as its last play is what it played.
  pub out_get_take_out_card-Answering :
      (a : Ai) (me : ℕ)
      → seat_index a.ai_seat ≡ some me
      → NonNeg (a.player_info me).points
      → InDeck a.ai_cards
      → is_free a ≡ false
      → ((n : ℤ) → (r : Ai × Hand) × (decide take_out_lvl1 take_out_high_lvl (ready a n) ≡ some r))
      → (r : Ai × List ℤ) × (out_get_take_out_card take_out_lvl1 take_out_high_lvl a ≡ some r)
        × Answering a.cur_hand r.1
        × Whole a.ai_cards r
        × (r.0.last_take_out_cards ≡ r.1)
  unfolding out_get_take_out_card
  out_get_take_out_card-Answering a me seat own deck busy decides =
      let (n, counted) = counts a me seat own in
      let ((c, h), chosen) = decides (pos n) in
      let (cards, cur, free, sits, infos, remains, others) =
        decide-Kept (ready a (pos n)) (c, h) chosen in
      let cards' : c.ai_cards ≡ a.ai_cards = cards in
      let cur' : c.cur_hand ≡ a.cur_hand = cur in
      let (r, played, answers, whole, last) =
        play-Answering c h (subst InDeck (sym cards') deck) (free ∙ still a (pos n) ∙ busy) in
      (
        r,
        rw (out_get_take_out_card, counted, chosen) played,
        subst (λ u. Answering u r.1) cur' answers,
        subst (λ u. Whole u r) cards' whole,
        last,
      )
