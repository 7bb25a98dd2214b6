-- ===== src/Player/Take/Parted.antt =====
-- Taking out a hand parts the cards, and takes what the hand has.
use robot_ddz.Prelude.{
  ℕ, ◌+◌, ◌≡◌, inl, inr, refl, ap, true, false, Bool-cases, List, [], ◌∷◌, some, arith, leb,
  if◌then◌else◌, ℤ, pos, pos_part, neg_part, ltb_ℤ, eqb_ℤ, eq_of_parts, ◌-ℤ◌, -ℤ_parts, All,
}
use robot_ddz.Cards.Hands.{Hand}
use robot_ddz.Cards.Points.{Points, update, card_to_point}
use robot_ddz.Recognize.{hand_to_points_array}
use robot_ddz.Player.State.{Ai}
use robot_ddz.Player.Take.{take_cards, take_out_hand, recovery_hand_cards}
use robot_ddz.Player.Take.Same.{count, SameCards, count-append}

-- How many cards of the point `p` are in a list.
abbrev pub cards_of : ℕ → List ℤ → ℕ
cards_of p [] = 0
cards_of p (card ∷ cards) = (if eqb_ℤ (card_to_point card) (pos p) then 1 else 0) + cards_of p cards

-- The cards come apart, the taken ones being those of the points asked for, as far as they go.
abbrev pub Parts : Points → List ℤ → List ℤ × List ℤ → Type 0
Parts c cards r =
    ((x : ℤ) → count x r.0 + count x r.1 ≡ count x cards)
    × ((p : ℕ)
        → cards_of p r.0
          ≡ (if leb (cards_of p cards) (pos_part (c p)) then cards_of p cards else pos_part (c p)))

module _ (c : Points) (card : ℤ) (cards : List ℤ) (p : ℕ) (at : card_to_point card ≡ pos p) where
  takes :
      (r : List ℤ × List ℤ)
      → ltb_ℤ (pos 0) (c p) ≡ true
      → take_cards (update c p (c p -ℤ pos 1)) cards ≡ some r
      → take_cards c (card ∷ cards) ≡ some (card ∷ r.0, r.1)
  unfolding take_cards
  takes r held rest = rw (take_cards, at, held, rest) refl

  keeps :
      (r : List ℤ × List ℤ)
      → ltb_ℤ (pos 0) (c p) ≡ false
      → take_cards c cards ≡ some r
      → take_cards c (card ∷ cards) ≡ some (r.0, card ∷ r.1)
  unfolding take_cards
  keeps r bare rest = rw (take_cards, at, bare, rest) refl

  takes-Parts :
      (r : List ℤ × List ℤ)
      → ltb_ℤ (pos 0) (c p) ≡ true
      → Parts (update c p (c p -ℤ pos 1)) cards r
      → Parts c (card ∷ cards) (card ∷ r.0, r.1)
  takes-Parts r held (all, some_of) =
      let same : pos_part (card_to_point card) ≡ p = ap pos_part at in
      let up : neg_part (card_to_point card) ≡ 0 = ap neg_part at in
      ((λ x. omega (arith, all x)), λ q. ground (arith, some_of q, -ℤ_parts (c p) (pos 1)))

  keeps-Parts :
      (r : List ℤ × List ℤ)
      → ltb_ℤ (pos 0) (c p) ≡ false
      → Parts c cards r
      → Parts c (card ∷ cards) (r.0, card ∷ r.1)
  keeps-Parts r bare (all, some_of) =
      let same : pos_part (card_to_point card) ≡ p = ap pos_part at in
      let up : neg_part (card_to_point card) ≡ 0 = ap neg_part at in
      ((λ x. omega (arith, all x)), λ q. ground (arith, some_of q))

-- Every card is of some point.
abbrev pub Known : List ℤ → Type 0
Known cards = All (λ card. neg_part (card_to_point card) ≡ 0) cards

pub take_cards-Parts :
    (c : Points) (cards : List ℤ)
    → Known cards
    → (r : List ℤ × List ℤ) × (take_cards c cards ≡ some r) × Parts c cards r
take_cards-Parts c [] known =
    unfold take_cards in (([], []), refl, ((λ x. omega arith), λ p. ground arith))
take_cards-Parts c (card ∷ cards) known =
    let p : ℕ = pos_part (card_to_point card) in
    let at : card_to_point card ≡ pos p =
      eq_of_parts (card_to_point card) (pos p) (omega (arith, known.0)) in
    elim (Bool-cases (ltb_ℤ (pos 0) (c p))) [
      | inl held ↦
          let (r, done, parts) = take_cards-Parts (update c p (c p -ℤ pos 1)) cards known.1 in
          (
            (card ∷ r.0, r.1),
            takes c card cards p at r held done,
            takes-Parts c card cards p at r held parts,
          )
      | inr bare ↦
          let (r, done, parts) = take_cards-Parts c cards known.1 in
          (
            (r.0, card ∷ r.1),
            keeps c card cards p at r bare done,
            keeps-Parts c card cards p at r bare parts,
          )
    ]

-- Given cards that each have a point, takeOutHand parts them: the cards taken and kept are together
-- those that were there, of each point as many are taken as the hand has, or all if there are
-- fewer, and RecoveryHandCards gives back the cards that were there.
pub take_out_hand-Parts :
    (h : Hand) (a : Ai)
    → Known a.ai_cards
    → (r : Ai × List ℤ) × (take_out_hand h a ≡ some r)
      × Parts (hand_to_points_array h) a.ai_cards (r.1, r.0.ai_cards)
      × SameCards (recovery_hand_cards r.0).ai_cards a.ai_cards
unfolding take_out_hand recovery_hand_cards
take_out_hand-Parts h a known =
    let ((taken, kept), done, parts) = take_cards-Parts (hand_to_points_array h) a.ai_cards known in
    (
      (record a { last_take_out_cards = taken; ai_cards = kept }, taken),
      rw (take_out_hand, done) refl,
      parts,
      λ x. omega (arith, parts.0 x, count-append x kept taken),
    )
