-- ===== src/Player/Turn/Lead.antt =====
-- `RbtOutGetTakeOutCard` when the robot may lead with any hand.
use robot_ddz.Prelude.{
  ◌+◌, ◌≡◌, ◌⊎◌, inl, inr, refl, ◌∙◌, true, false, Bool-cases, List, [], some, arith, ℤ,
}
use robot_ddz.Cards.Hands.{Hand, nothing, is_type}
use robot_ddz.Recognize.{hand_to_points_array}
use robot_ddz.Player.State.{Ai, is_free}
use robot_ddz.Player.Take.{take_out_hand}
use robot_ddz.Player.Take.Same.{count}
use robot_ddz.Player.Take.Parted.{Known, take_cards-Parts}
use robot_ddz.Player.Decide.{find_lowest_hand}
use robot_ddz.Player.Turn.{check_hand, settle_turn, play}
use robot_ddz.Player.Turn.Checked.{InDeck, check_hand-some}
use robot_ddz.Player.Turn.Legal.{taken_out, still_busy, plays, taken-InDeck, Known-part}

-- The cards of a hand that the rules do not have.
abbrev pub Unplayable : List ℤ → Type 0
Unplayable cards = (g : Hand) × (check_hand cards ≡ some g) × (is_type g.type nothing ≡ true)

leads :
    (b : Ai) (h : Hand) (cards : List ℤ) (g : Hand)
    → is_free b ≡ true
    → is_type g.type nothing ≡ false
    → settle_turn b h cards g ≡ some (b, cards)
unfolding settle_turn
leads b h cards g free fine = rw (settle_turn, free, fine) refl

tries_again :
    (b : Ai) (h : Hand) (cards : List ℤ) (g : Hand)
    → is_free b ≡ true
    → is_type g.type nothing ≡ true
    → settle_turn b h cards g ≡ take_out_hand (find_lowest_hand b.hands_map) b
unfolding settle_turn
tries_again b h cards g free blank = rw (settle_turn, free, blank) refl

-- A play of cards that are a hand of the rules, those taken out for the choice.
abbrev pub Leads : Ai → Hand → Ai × List ℤ → Type 0
Leads a h r =
    (take_out_hand h a ≡ some r)
    × ((g : Hand) × (check_hand r.1 ≡ some g) × (is_type g.type nothing ≡ false))

-- A play of the lowest hand, out of what was kept when other cards, which were no hand, were taken.
abbrev pub Retries : Ai → Hand → List ℤ → Ai × List ℤ → Type 0
Retries a h lost r =
    (b : Ai) × (take_out_hand h a ≡ some (b, lost))
    × Unplayable lost
    × (take_out_hand (find_lowest_hand b.hands_map) b ≡ some r)

-- When the robot may lead, with at most twenty cards of one deck, RbtOutGetTakeOutCard after its
-- choice returns. Either the cards that it takes out for the choice are a hand of the rules, and it
-- plays those; or they are none, and without putting them back it takes its lowest hand out of the
-- rest and plays what that gives. The cards played, those kept and, in the second case, the ones
-- not put back are together those it had.
pub play_lead :
    (a : Ai) (h : Hand)
    → InDeck a.ai_cards
    → is_free a ≡ true
    → (r : Ai × List ℤ) × (lost : List ℤ) × (play (a, h) ≡ some r)
      × ((x : ℤ) → count x r.1 + count x r.0.ai_cards + count x lost ≡ count x a.ai_cards)
      × ((lost ≡ []) × Leads a h r ⊎ Retries a h lost r)
play_lead a h deck free =
    let (r, done, parts) = take_cards-Parts (hand_to_points_array h) a.ai_cards deck.0 in
    let b : Ai = record a { last_take_out_cards = r.0; ai_cards = r.1 } in
    let (g, checked) =
      check_hand-some r.0 (taken-InDeck (hand_to_points_array h) a.ai_cards r parts deck) in
    let took = taken_out a h r done in
    let played : play (a, h) ≡ settle_turn b h r.0 g = plays a b h r.0 g took checked in
    let free' : is_free b ≡ true = still_busy a r ∙ free in
    elim (Bool-cases (is_type g.type nothing)) [
      | inr fine ↦ (
        (b, r.0),
        [],
        played ∙ leads b h r.0 g free' fine,
        (λ x. omega (arith, parts.0 x)),
        inl (refl, (took, (g, checked, fine))),
      )
      | inl blank ↦
          let kept : Known r.1 = Known-part a.ai_cards r.1 (λ x. omega (arith, parts.0 x)) deck.0 in
          let low : Hand = find_lowest_hand b.hands_map in
          let (r', done', parts') = take_cards-Parts (hand_to_points_array low) r.1 kept in
          let took' = taken_out b low r' done' in
          (
            (record b { last_take_out_cards = r'.0; ai_cards = r'.1 }, r'.0),
            r.0,
            played ∙ tries_again b h r.0 g free' blank ∙ took',
            (λ x. omega (arith, parts.0 x, parts'.0 x)),
            inr (b, took, (g, checked, blank), took'),
          )
    ]
