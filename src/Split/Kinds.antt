-- ===== src/Split/Kinds.antt =====
-- `splitCardsToHandsKind1` to `splitCardsToHandsKind5`.
pub mod Keep
pub mod Under
pub mod Overtaking
use robot_ddz.Prelude.{[], if◌then◌else◌, Option, some, none, Bool}
use robot_ddz.Cards.Points.{Points}
use robot_ddz.Split.Work.{Deal}
use robot_ddz.Split.Bomb.{get_bomb, get_trio}
use robot_ddz.Split.Normal.{get_normal_hand}
use robot_ddz.Split.Chains.{get_trio_chain, get_pair_chain}
use robot_ddz.Split.Solo.Conservation.{get_solo_chain}
use robot_ddz.Split.Kicker.{find_kicker_for_trio_or_trio_chain}

infixl 5 ◌>>=◌
abbrev ◌>>=◌ : Option Deal → (Deal → Option Deal) → Option Deal
none >>= f = none
some d >>= f = f d

-- `handMap.clear();`
abbrev pub fresh : Points → Deal
fresh c = record { cards = c; hand_map = [] }

-- `getNormalHand` and the search for kickers, with which every kind ends.
abbrev pub settle_rest : Bool → Deal → Option Deal
settle_rest search_kicker d =
    let e = get_normal_hand d in
    if search_kicker
    then elim (find_kicker_for_trio_or_trio_chain e.hand_map) [
      | none ↦ none
      | some m ↦ some (record e { hand_map = m })
    ]
    else some e

unfoldable pub split_cards_to_hands_kind1 : Points → Bool → Option Deal
split_cards_to_hands_kind1 c search_kicker = do
  d1 ← get_solo_chain (fresh c)
  d2 ← get_trio_chain (get_bomb d1)
  d3 ← get_pair_chain d2
  settle_rest search_kicker d3

unfoldable pub split_cards_to_hands_kind2 : Points → Bool → Option Deal
split_cards_to_hands_kind2 c search_kicker = do
  d1 ← get_trio_chain (get_bomb (fresh c))
  d2 ← get_solo_chain d1
  d3 ← get_pair_chain d2
  settle_rest search_kicker d3

unfoldable pub split_cards_to_hands_kind3 : Points → Bool → Option Deal
split_cards_to_hands_kind3 c search_kicker = do
  d1 ← get_solo_chain (fresh c)
  d2 ← get_pair_chain (get_bomb d1)
  d3 ← get_trio_chain d2
  settle_rest search_kicker d3

unfoldable pub split_cards_to_hands_kind4 : Points → Bool → Option Deal
split_cards_to_hands_kind4 c search_kicker = do
  d1 ← get_solo_chain (fresh c)
  settle_rest search_kicker (get_bomb d1)

unfoldable pub split_cards_to_hands_kind5 : Points → Bool → Option Deal
split_cards_to_hands_kind5 c search_kicker = do
  d1 ← get_solo_chain (get_trio (get_bomb (fresh c)))
  settle_rest search_kicker d1
