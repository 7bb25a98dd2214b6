-- ===== src/Split/Solo/Conservation.antt =====
-- `getSoloChain` as a whole.
use robot_ddz.Prelude.{◌≡◌, refl, arith, Option, some, none}
use robot_ddz.Cards.Hands.{card_3, solo_chain}
use robot_ddz.Cards.Points.{NonNeg}
use robot_ddz.Cards.HandMap.{hands_of, set_hands, map_at-set_hands, hands_of-set_hands}
use robot_ddz.Split.Work.{Deal, Work, on_key?, Conserves}
use robot_ddz.Split.Solo.Five.{solo_loop, solo_fuel, solo_loop_lem, AllStraight}
use robot_ddz.Split.Solo.Grow.{expand_solo_chain-NonNeg, expand_solo_chain, expand_solo_chain_lem}
use robot_ddz.Split.Solo.Trim.{
  optimize_solo_chain-NonNeg, optimize_solo_chain, optimize_solo_chain_lem, AllRun,
}

abbrev improve : Option Work → Option Work
improve none = none
improve (some w) = some (optimize_solo_chain (expand_solo_chain w))

unfoldable pub get_solo_chain : Deal → Option Deal
unfolding solo_loop
get_solo_chain d = on_key? solo_chain (λ w. improve (solo_loop (solo_fuel w.cards) card_3 w)) d

-- If the map holds only straights so far, getSoloChain returns for every count of cards, keeps
-- every card, and leaves only runs of four points or more, none above the ace, under SOLO_CHAIN;
-- and if no count was negative, none becomes so.
pub get_solo_chain-Splits :
    (d : Deal)
    → AllStraight (hands_of solo_chain d.hand_map)
    → (d' : Deal) × (get_solo_chain d ≡ some d')
      × Conserves d d'
      × AllRun (hands_of solo_chain d'.hand_map)
      × (NonNeg d.cards → NonNeg d'.cards)
unfolding get_solo_chain
get_solo_chain-Splits d a =
    let w : Work = record { cards = d.cards; hands = hands_of solo_chain d.hand_map } in
    let (w1, e, kept, a1, sound1) = solo_loop_lem (solo_fuel d.cards) card_3 w (omega arith) a in
    let (a2, kept2) = expand_solo_chain_lem w1 a1 in
    let (a3, kept3) = optimize_solo_chain_lem (expand_solo_chain w1) a2 in
    let w3 : Work = optimize_solo_chain (expand_solo_chain w1) in
    (
      record { cards = w3.cards; hand_map = set_hands solo_chain w3.hands d.hand_map },
      rw e refl,
      λ p.
          omega
            (arith, kept p, kept2 p, kept3 p, map_at-set_hands solo_chain w3.hands d.hand_map p),
      rw (hands_of-set_hands solo_chain w3.hands d.hand_map) a3,
      λ h.
          optimize_solo_chain-NonNeg (expand_solo_chain w1)
            (expand_solo_chain-NonNeg w1 (sound1 h)),
    )
