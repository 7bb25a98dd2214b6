-- ===== src/Split/Kinds/Keep.antt =====
-- What the kinds of splitting keep.
use robot_ddz.Prelude.{
  ℕ, ◌≤◌, ◌≡◌, refl, [], arith, Bool, true, false, pos, pos_part, Option, some, ◌∙◌,
}
use robot_ddz.Cards.Hands.{solo_chain, red_joker, rank}
use robot_ddz.Cards.Points.{Points, NonNeg}
use robot_ddz.Cards.HandMap.{hands_of, set_hands, map_at}
use robot_ddz.Split.Work.{Deal, Splits, Conserves}
use robot_ddz.Split.Bomb.{
  get_bomb, get_trio, get_bomb-Conserves, get_trio-Conserves, get_bomb-NonNeg, get_trio-NonNeg,
}
use robot_ddz.Split.Normal.{
  get_normal_hand, get_normal_hand-Conserves, Countable, get_normal_hand_clears,
}
use robot_ddz.Split.Solo.Conservation.{get_solo_chain-Splits}
use robot_ddz.Split.Kicker.Loose.{Tidy}
use robot_ddz.Split.Kicker.Rounds.{find_kicker-Kept}
use robot_ddz.Split.Kicker.Settled.{
  get_solo_chain-Tidy, get_bomb-Tidy, get_trio-Tidy, get_normal_hand-Tidy,
}
use robot_ddz.Split.Kinds.{
  fresh, settle_rest, split_cards_to_hands_kind4, split_cards_to_hands_kind5,
}

-- The last steps, with or without the search for kickers, count like `getNormalHand`, and hold as
-- many cards.
abbrev LikeNormal : Deal → Option Deal → Type 0
LikeNormal d r =
    (d' : Deal) × (r ≡ some d')
    × ((p : ℕ) → d'.cards p ≡ (get_normal_hand d).cards p)
    × ((p : ℕ) → map_at d'.hand_map p ≡ map_at (get_normal_hand d).hand_map p)

settle_rest-LikeNormal :
    (search_kicker : Bool) (d : Deal) → Tidy d.hand_map → LikeNormal d (settle_rest search_kicker d)
settle_rest-LikeNormal true d t =
    let (m, found, tidy, held) =
      find_kicker-Kept (get_normal_hand d).hand_map (get_normal_hand-Tidy d t) in
    (record (get_normal_hand d) { hand_map = m }, rw found refl, (λ p. refl), held)
settle_rest-LikeNormal false d t = (get_normal_hand d, refl, (λ p. refl), λ p. refl)

Conserves-LikeNormal :
    (d d' : Deal)
    → ((p : ℕ) → d'.cards p ≡ (get_normal_hand d).cards p)
    → ((p : ℕ) → map_at d'.hand_map p ≡ map_at (get_normal_hand d).hand_map p)
    → Conserves d d'
Conserves-LikeNormal d d' same held p = rw (same p, held p) (get_normal_hand-Conserves d p)

only_bombs_and_trios :
    (c : Points) → hands_of solo_chain (get_trio (get_bomb (fresh c))).hand_map ≡ []
unfolding get_bomb get_trio hands_of set_hands rank
only_bombs_and_trios c = refl

no_hands-Tidy : (c : Points) → Tidy (fresh c).hand_map
unfolding hands_of
no_hands-Tidy c = (tt, tt, tt, tt)

-- The split for a single card (splitCardsToHandsKind4, with kickers or without) returns for every
-- count of cards, and at each point the cards left and those in its hands add up to the cards
-- given.
pub kind4-Splits :
    (c : Points) (search_kicker : Bool)
    → Splits (fresh c) (split_cards_to_hands_kind4 c search_kicker)
unfolding split_cards_to_hands_kind4 hands_of
kind4-Splits c search_kicker =
    let (d1, e, kept, runs, sound) = get_solo_chain-Splits (fresh c) tt in
    let d2 : Deal = get_bomb d1 in
    let tidy : Tidy d2.hand_map =
      get_bomb-Tidy d1 (get_solo_chain-Tidy (fresh c) d1 e (no_hands-Tidy c)) in
    let (d', done, same, held) = settle_rest-LikeNormal search_kicker d2 tidy in
    (
      d',
      rw e done,
      λ p. omega (arith, kept p, get_bomb-Conserves d1 p, Conserves-LikeNormal d2 d' same held p),
    )

-- The fifth split (splitCardsToHandsKind5, with kickers or without) returns for every count of
-- cards, and at each point the cards left and those in its hands add up to the cards given.
pub kind5-Splits :
    (c : Points) (search_kicker : Bool)
    → Splits (fresh c) (split_cards_to_hands_kind5 c search_kicker)
unfolding split_cards_to_hands_kind5
kind5-Splits c search_kicker =
    let d0 : Deal = get_trio (get_bomb (fresh c)) in
    let (d1, e, kept, runs, sound) = get_solo_chain-Splits d0 (rw (only_bombs_and_trios c) tt) in
    let tidy : Tidy d1.hand_map =
      get_solo_chain-Tidy d0 d1 e
        (get_trio-Tidy (get_bomb (fresh c)) (get_bomb-Tidy (fresh c) (no_hands-Tidy c))) in
    let (d', done, same, held) = settle_rest-LikeNormal search_kicker d1 tidy in
    (
      d',
      rw e done,
      λ p. omega (
        arith,
        get_bomb-Conserves (fresh c) p,
        get_trio-Conserves (get_bomb (fresh c)) p,
        kept p,
        Conserves-LikeNormal d1 d' same held p,
      ),
    )

-- Every card is in a hand, and only those are.
abbrev pub PutsAll : Points → Option Deal → Type 0
PutsAll c r =
    (d' : Deal) × (r ≡ some d')
    × ((p : ℕ) → p ≤ red_joker → (d'.cards p ≡ pos 0) × (map_at d'.hand_map p ≡ pos_part (c p)))

-- With no count below 0 or above 4, the last steps take up whole what they are given.
settled :
    (c : Points) (search_kicker : Bool) (d : Deal)
    → ((p : ℕ) → Countable (c p))
    → Conserves (fresh c) d
    → NonNeg d.cards
    → Tidy d.hand_map
    → PutsAll c (settle_rest search_kicker d)
settled c search_kicker d few kept sound tidy =
    let (d', done, same, held) = settle_rest-LikeNormal search_kicker d tidy in
    (d', done, λ p low. (same p ∙ none_left p low, held p ∙ in_hands p low))
  where
    none_left : (p : ℕ) → p ≤ red_joker → (get_normal_hand d).cards p ≡ pos 0
    none_left p low =
        get_normal_hand_clears d p (omega (arith, kept p, few p, sound p), sound p) low

    in_hands : (p : ℕ) → p ≤ red_joker → map_at (get_normal_hand d).hand_map p ≡ pos_part (c p)
    in_hands p low =
        ground (arith, none_left p low, kept p, few p, sound p, get_normal_hand-Conserves d p)

-- If no count is below 0 or above 4, the split for a single card (splitCardsToHandsKind4, with
-- kickers or without) returns, leaves no card up to the red joker, and at each such point its hands
-- hold exactly the cards given.
pub kind4-PutsAll :
    (c : Points) (search_kicker : Bool)
    → ((p : ℕ) → Countable (c p))
    → PutsAll c (split_cards_to_hands_kind4 c search_kicker)
unfolding split_cards_to_hands_kind4 hands_of
kind4-PutsAll c search_kicker few =
    let (d1, e, kept, runs, sound) = get_solo_chain-Splits (fresh c) tt in
    rw e (
      settled c search_kicker (get_bomb d1) few
        (λ p. omega (arith, kept p, get_bomb-Conserves d1 p))
        (get_bomb-NonNeg d1 (sound (λ p. (few p).1)))
        (get_bomb-Tidy d1 (get_solo_chain-Tidy (fresh c) d1 e (no_hands-Tidy c))))

-- If no count is below 0 or above 4, the fifth split (splitCardsToHandsKind5, with kickers or
-- without) returns, leaves no card up to the red joker, and at each such point its hands hold
-- exactly the cards given.
pub kind5-PutsAll :
    (c : Points) (search_kicker : Bool)
    → ((p : ℕ) → Countable (c p))
    → PutsAll c (split_cards_to_hands_kind5 c search_kicker)
unfolding split_cards_to_hands_kind5
kind5-PutsAll c search_kicker few =
    let d0 : Deal = get_trio (get_bomb (fresh c)) in
    let (d1, e, kept, runs, sound) = get_solo_chain-Splits d0 (rw (only_bombs_and_trios c) tt) in
    rw e (
      settled c search_kicker d1 few
        (λ p. omega (
          arith,
          get_bomb-Conserves (fresh c) p,
          get_trio-Conserves (get_bomb (fresh c)) p,
          kept p,
        ))
        (sound (get_trio-NonNeg (get_bomb (fresh c)) (get_bomb-NonNeg (fresh c) (λ p. (few p).1))))
        (get_solo_chain-Tidy d0 d1 e
          (get_trio-Tidy (get_bomb (fresh c)) (get_bomb-Tidy (fresh c) (no_hands-Tidy c)))))
