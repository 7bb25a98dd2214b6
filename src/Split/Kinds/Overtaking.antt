-- ===== src/Split/Kinds/Overtaking.antt =====
-- The first three kinds of splitting, which look for pair chains.
use robot_ddz.Prelude.{
  false, ℕ, ◌+◌, ◌*◌, ◌≡◌, refl, ap, ◌∙◌, [], arith, Option, some, false, pos_part, neg_part,
}
use robot_ddz.Cards.Hands.{solo_chain, pair_chain, rank}
use robot_ddz.Cards.Points.{Points}
use robot_ddz.Cards.HandMap.{hands_of, map_at}
use robot_ddz.Split.Work.{Deal}
use robot_ddz.Split.Bomb.{get_bomb, get_bomb-Conserves}
use robot_ddz.Split.Chains.Conservation.{ends_at, get_trio_chain-Splits, get_pair_chain_overtakes}
use robot_ddz.Split.Normal.{get_normal_hand, get_normal_hand-Conserves}
use robot_ddz.Split.Solo.Conservation.{get_solo_chain-Splits}
use robot_ddz.Split.Kinds.{
  fresh, split_cards_to_hands_kind1, split_cards_to_hands_kind2, split_cards_to_hands_kind3,
}
use robot_ddz.Split.Kinds.Under.{
  SameUnder, get_solo_chain-SameUnder, get_trio_chain-SameUnder, get_bomb-SameUnder,
  get_normal_hand-SameUnder,
}

-- The code returns, and of the cards given those that are neither left nor in hands are a pair
-- for each pair chain, at the point behind it.
abbrev pub Overtakes : Points → Option Deal → Type 0
Overtakes c r =
    (d' : Deal) × (r ≡ some d')
    × ((p : ℕ)
        → pos_part (c p) + neg_part (d'.cards p)
          ≡ pos_part (d'.cards p)
            + map_at d'.hand_map p
            + 2 * ends_at (hands_of pair_chain d'.hand_map) p
            + neg_part (c p))

same_ends :
    (d d' : Deal) (p : ℕ)
    → SameUnder pair_chain d d'
    → ends_at (hands_of pair_chain d'.hand_map) p ≡ ends_at (hands_of pair_chain d.hand_map) p
same_ends d d' p e = ap (λ hs. ends_at hs p) e

-- The first kind returns, and overtakes by its pair chains.
kind1-Overtakes : (c : Points) → Overtakes c (split_cards_to_hands_kind1 c false)
unfolding split_cards_to_hands_kind1 hands_of
kind1-Overtakes c =
    let (d1, e1, k1, runs, sound) = get_solo_chain-Splits (fresh c) tt in
    let d2 : Deal = get_bomb d1 in
    let (d3, e3, k3) = get_trio_chain-Splits d2 in
    let new : hands_of pair_chain d3.hand_map ≡ [] =
      get_trio_chain-SameUnder pair_chain d2 d3 (unfold rank in refl) e3
      ∙ get_bomb-SameUnder pair_chain d1 (unfold rank in refl)
      ∙ get_solo_chain-SameUnder pair_chain (fresh c) d1 (unfold rank in refl) e1 in
    let (d4, e4, k4) = get_pair_chain_overtakes d3 new in
    (
      get_normal_hand d4,
      rw (e1, e3, e4) refl,
      λ p. omega (
        arith,
        k1 p,
        get_bomb-Conserves d1 p,
        k3 p,
        k4 p,
        get_normal_hand-Conserves d4 p,
        same_ends d4 (get_normal_hand d4) p (get_normal_hand-SameUnder d4),
      ),
    )

-- So does the second.
kind2-Overtakes : (c : Points) → Overtakes c (split_cards_to_hands_kind2 c false)
unfolding split_cards_to_hands_kind2 hands_of
kind2-Overtakes c =
    let d1 : Deal = get_bomb (fresh c) in
    let (d2, e2, k2) = get_trio_chain-Splits d1 in
    let no_straights : hands_of solo_chain d2.hand_map ≡ [] =
      get_trio_chain-SameUnder solo_chain d1 d2 (unfold rank in refl) e2
      ∙ get_bomb-SameUnder solo_chain (fresh c) (unfold rank in refl) in
    let (d3, e3, k3, runs, sound) = get_solo_chain-Splits d2 (rw no_straights tt) in
    let new : hands_of pair_chain d3.hand_map ≡ [] =
      get_solo_chain-SameUnder pair_chain d2 d3 (unfold rank in refl) e3
      ∙ get_trio_chain-SameUnder pair_chain d1 d2 (unfold rank in refl) e2
      ∙ get_bomb-SameUnder pair_chain (fresh c) (unfold rank in refl) in
    let (d4, e4, k4) = get_pair_chain_overtakes d3 new in
    (
      get_normal_hand d4,
      rw (e2, e3, e4) refl,
      λ p. omega (
        arith,
        get_bomb-Conserves (fresh c) p,
        k2 p,
        k3 p,
        k4 p,
        get_normal_hand-Conserves d4 p,
        same_ends d4 (get_normal_hand d4) p (get_normal_hand-SameUnder d4),
      ),
    )

-- So does the third.
kind3-Overtakes : (c : Points) → Overtakes c (split_cards_to_hands_kind3 c false)
unfolding split_cards_to_hands_kind3 hands_of
kind3-Overtakes c =
    let (d1, e1, k1, runs, sound) = get_solo_chain-Splits (fresh c) tt in
    let d2 : Deal = get_bomb d1 in
    let new : hands_of pair_chain d2.hand_map ≡ [] =
      get_bomb-SameUnder pair_chain d1 (unfold rank in refl)
      ∙ get_solo_chain-SameUnder pair_chain (fresh c) d1 (unfold rank in refl) e1 in
    let (d3, e3, k3) = get_pair_chain_overtakes d2 new in
    let (d4, e4, k4) = get_trio_chain-Splits d3 in
    (
      get_normal_hand d4,
      rw (e1, e3, e4) refl,
      λ p. omega (
        arith,
        k1 p,
        get_bomb-Conserves d1 p,
        k3 p,
        k4 p,
        get_normal_hand-Conserves d4 p,
        same_ends d4 (get_normal_hand d4) p (get_normal_hand-SameUnder d4),
        same_ends d3 d4 p (get_trio_chain-SameUnder pair_chain d3 d4 (unfold rank in refl) e4),
      ),
    )

-- Each of the first three splits, without kickers, returns for every count of cards, and of the
-- cards given those that are neither left nor in hands are two for each pair chain, at the point
-- behind it.
pub first_kinds-Overtakes :
    (c : Points)
    → Overtakes c (split_cards_to_hands_kind1 c false)
      × Overtakes c (split_cards_to_hands_kind2 c false)
      × Overtakes c (split_cards_to_hands_kind3 c false)
first_kinds-Overtakes c = (kind1-Overtakes c, kind2-Overtakes c, kind3-Overtakes c)
