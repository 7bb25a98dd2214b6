-- ===== src/Player/Turn/Legal.antt =====
-- The cards that are played: a hand that beats the one on the table, or none of the kinds.
use robot_ddz.Prelude.{
  ◌+◌, ◌≤◌, ◌≡◌, ◌⊎◌, inl, inr, refl, sym, ◌∙◌, length, length-append, Bool, true, false, not,
  Bool-cases, List, [], ◌∷◌, ◌++◌, some, arith, ◌&&◌, ℤ, pos, pos_part, neg_part, eqb_ℤ,
  eq_of_parts,
}
use robot_ddz.Cards.Hands.{Hand, nothing, is_type, rank, is_hand_higher_than}
use robot_ddz.Cards.Points.{Points, no_points, card_to_point, count_cards, card_vec_to_point_arr}
use robot_ddz.Recognize.{
  get_hand, overfull, overlong, points_with, classify, fill_kind, hand_to_points_array,
}
use robot_ddz.Search.Higher.{no_hand}
use robot_ddz.Player.State.{Ai, is_free}
use robot_ddz.Player.Take.{take_cards, take_out_hand, recovery_hand_cards}
use robot_ddz.Player.Take.Same.{count, SameCards, SameCards-length, count-append}
use robot_ddz.Player.Take.Parted.{Known, Parts, take_cards-Parts}
use robot_ddz.Player.Turn.{check_hand, settle_turn, play}
use robot_ddz.Player.Turn.Checked.{InDeck, check_hand-some}

-- What `RbtOutGetTakeOutCard` may play on a hand that is on the table: no hand of the rules, such
-- as no cards at all, or a higher one.
abbrev pub Answering : Hand → List ℤ → Type 0
Answering cur cards =
    (g : Hand) × (check_hand cards ≡ some g)
    × ((is_type g.type nothing ≡ true) ⊎ (is_hand_higher_than g cur ≡ true))

-- The cards that are played and those that are kept are the cards that were there.
abbrev pub Whole : List ℤ → Ai × List ℤ → Type 0
Whole cards r = SameCards (r.1 ++ r.0.ai_cards) cards

Known-at :
    (cards : List ℤ) (x : ℤ) → 1 ≤ count x cards → Known cards → neg_part (card_to_point x) ≡ 0
Known-at [] x there known = grind arith
Known-at (y ∷ cards) x there known = elim (Bool-cases (eqb_ℤ y x)) [
  | inl here ↦ let same = eq_of_parts y x (ground arith) in rw⁻¹ same known.0
  | inr away ↦ Known-at cards x (ground arith) known.1
]

pub Known-part :
    (cards taken : List ℤ) → ((x : ℤ) → count x taken ≤ count x cards) → Known cards → Known taken
Known-part cards [] less known = tt
Known-part cards (x ∷ taken) less known = (
  Known-at cards x (ground (arith, less x)) known,
  Known-part cards taken (λ y. omega (arith, less y)) known,
)

length-part :
    (cards : List ℤ) (r : List ℤ × List ℤ)
    → ((x : ℤ) → count x r.0 + count x r.1 ≡ count x cards)
    → length cards ≡ length r.0 + length r.1
length-part cards r all =
    let whole : SameCards (r.0 ++ r.1) cards = λ x. count-append x r.0 r.1 ∙ all x in
    sym (SameCards-length (r.0 ++ r.1) cards whole) ∙ length-append r.0 r.1

pub taken-InDeck :
    (c : Points) (cards : List ℤ) (r : List ℤ × List ℤ)
    → Parts c cards r
    → InDeck cards
    → InDeck r.0
taken-InDeck c cards r (all, some_of) (known, four, few) = (
  Known-part cards r.0 (λ x. omega (arith, all x)) known,
  (λ p. ground (arith, some_of p, four p)),
  omega (arith, length-part cards r all),
)

take_nothing : (cards : List ℤ) → Known cards → take_cards no_points cards ≡ some ([], cards)
unfolding take_cards
take_nothing [] known = refl
take_nothing (card ∷ cards) known =
    let at : card_to_point card ≡ pos (pos_part (card_to_point card)) =
      eq_of_parts (card_to_point card) (pos (pos_part (card_to_point card)))
        (omega (arith, known.0)) in
    rw (take_cards, at, take_nothing cards known.1) refl

blank : (h : Hand) → hand_to_points_array (record h { type = nothing }) ≡ no_points
unfolding hand_to_points_array fill_kind
blank h = refl

give_up :
    (h : Hand) (a : Ai)
    → Known a.ai_cards
    → take_out_hand (record h { type = nothing }) a
      ≡ some (record a { last_take_out_cards = [] }, [])
unfolding take_out_hand
give_up h a known = rw (take_out_hand, blank h, take_nothing a.ai_cards known) refl

pub nothing_checked : check_hand [] ≡ some no_hand
unfolding check_hand card_vec_to_point_arr count_cards get_hand overfull overlong points_with
    classify
nothing_checked = refl

settles :
    (b : Ai) (h : Hand) (cards : List ℤ) (g : Hand)
    → is_free b ≡ false
    → (not (is_type g.type nothing) && not (is_hand_higher_than g b.cur_hand)) ≡ false
    → settle_turn b h cards g ≡ some (b, cards)
unfolding settle_turn
settles b h cards g busy fine = rw (settle_turn, busy, fine) refl

takes_back :
    (b : Ai) (h : Hand) (cards : List ℤ) (g : Hand)
    → is_free b ≡ false
    → (not (is_type g.type nothing) && not (is_hand_higher_than g b.cur_hand)) ≡ true
    → settle_turn b h cards g ≡ take_out_hand (record h { type = nothing }) (recovery_hand_cards b)
unfolding settle_turn
takes_back b h cards g busy low = rw (settle_turn, busy, low) refl

recovered :
    (b : Ai) (x : ℤ)
    → count x (recovery_hand_cards b).ai_cards ≡ count x b.ai_cards + count x b.last_take_out_cards
unfolding recovery_hand_cards
recovered b x = count-append x b.ai_cards b.last_take_out_cards

pub plays :
    (a b : Ai) (h : Hand) (cards : List ℤ) (g : Hand)
    → take_out_hand h a ≡ some (b, cards)
    → check_hand cards ≡ some g
    → play (a, h) ≡ settle_turn b h cards g
unfolding play
plays a b h cards g taken checked = rw (play, taken, checked) refl

pub taken_out :
    (a : Ai) (h : Hand) (r : List ℤ × List ℤ)
    → take_cards (hand_to_points_array h) a.ai_cards ≡ some r
    → take_out_hand h a ≡ some (record a { last_take_out_cards = r.0; ai_cards = r.1 }, r.0)
unfolding take_out_hand
taken_out a h r done = rw (take_out_hand, done) refl

pub still_busy :
    (a : Ai) (r : List ℤ × List ℤ)
    → is_free (record a { last_take_out_cards = r.0; ai_cards = r.1 }) ≡ is_free a
unfolding is_free
still_busy a r = refl

higher_or_none : (t u : Bool) → (not t && not u) ≡ false → (t ≡ true) ⊎ (u ≡ true)
higher_or_none true u e = inl refl
higher_or_none false true e = inr refl
higher_or_none false false e = grind arith

-- With at most twenty cards of one deck, a play in answer to a hand answers it, and every card
-- stays accounted for.
pub play-Answering :
    (a : Ai) (h : Hand)
    → InDeck a.ai_cards
    → is_free a ≡ false
    → (r : Ai × List ℤ) × (play (a, h) ≡ some r)
      × Answering a.cur_hand r.1
      × Whole a.ai_cards r
      × (r.0.last_take_out_cards ≡ r.1)
play-Answering a h deck busy =
    let (r, done, parts) = take_cards-Parts (hand_to_points_array h) a.ai_cards deck.0 in
    let b : Ai = record a { last_take_out_cards = r.0; ai_cards = r.1 } in
    let (g, checked) =
      check_hand-some r.0 (taken-InDeck (hand_to_points_array h) a.ai_cards r parts deck) in
    let played : play (a, h) ≡ settle_turn b h r.0 g =
      plays a b h r.0 g (taken_out a h r done) checked in
    let busy' : is_free b ≡ false = still_busy a r ∙ busy in
    elim (Bool-cases (not (is_type g.type nothing) && not (is_hand_higher_than g b.cur_hand))) [
      | inr fine ↦ (
        (b, r.0),
        played ∙ settles b h r.0 g busy' fine,
        (g, checked, higher_or_none _ _ fine),
        (λ x. omega (arith, parts.0 x, count-append x r.0 r.1)),
        refl,
      )
      | inl low ↦
          let c : Ai = recovery_hand_cards b in
          let back : (x : ℤ) → count x c.ai_cards ≡ count x a.ai_cards =
            λ x. recovered b x ∙ omega (arith, parts.0 x) in
          let known : Known c.ai_cards =
            Known-part a.ai_cards c.ai_cards (λ x. omega (arith, back x)) deck.0 in
          (
            (record c { last_take_out_cards = [] }, []),
            played ∙ takes_back b h r.0 g busy' low ∙ give_up h c known,
            (no_hand, nothing_checked, inl (unfold rank in refl)),
            back,
            refl,
          )
    ]
