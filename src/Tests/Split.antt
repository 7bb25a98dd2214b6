-- ===== src/Tests/Split.antt =====
-- Splitting at concrete cards.
use robot_ddz.Prelude.{
  false, true, ℕ, ◌+◌, ◌*◌, ◌≤◌, ◌≡◌, refl, [], ◌∷◌, arith, pos, pos_part, neg_part, get_or,
  get_or_bound, some,
}
use robot_ddz.Cards.Hands.{solo_chain, pair_chain, make_chain}
use robot_ddz.Cards.Points.{Points, NonNeg}
use robot_ddz.Cards.HandMap.{HandMap, hands_of, map_at}
use robot_ddz.Split.Work.{Deal, Splits, Conserves}
use robot_ddz.Split.Bomb.{get_bomb, get_bomb-Conserves}
use robot_ddz.Split.Normal.{
  get_normal_hand, get_normal_hand-Conserves, get_normal_hand_clears, Countable,
}
use robot_ddz.Split.Chains.{get_trio_chain, get_pair_chain, optimize_pair_chain}
use robot_ddz.Split.Chains.Conservation.{
  get_trio_chain-Splits, get_pair_chain_overtakes, optimize_pair_chain_within, ends_at,
}
use robot_ddz.Split.Solo.Conservation.{get_solo_chain, get_solo_chain-Splits}
use robot_ddz.Split.Solo.Trim.{AllRun}
use robot_ddz.Split.Kicker.{find_kicker_for_trio_or_trio_chain}
use robot_ddz.Split.Kicker.Loose.{Tidy}
use robot_ddz.Split.Kicker.Rounds.{find_kicker-Kept}
use robot_ddz.Split.Kicker.Settled.{get_normal_hand-Tidy}
use robot_ddz.Split.Kinds.Overtaking.{Overtakes, first_kinds-Overtakes}
use robot_ddz.Split.Kinds.{
  split_cards_to_hands_kind1, split_cards_to_hands_kind2, split_cards_to_hands_kind3, fresh,
  split_cards_to_hands_kind4, split_cards_to_hands_kind5,
}
use robot_ddz.Split.Kinds.Keep.{kind4-Splits, kind5-Splits, PutsAll, kind4-PutsAll, kind5-PutsAll}

-- 3 4 5 6 7 8, 9 9 9, 10 10, J J, Q Q, 2 2 2 2 and the jokers.
abbrev sample : Points
sample i = pos (get_or (1 ∷ 1 ∷ 1 ∷ 1 ∷ 1 ∷ 1 ∷ 3 ∷ 2 ∷ 2 ∷ 2 ∷ 0 ∷ 0 ∷ 4 ∷ 1 ∷ 1 ∷ 0 ∷ []) i 0)

get_bomb-Conserves_example : Conserves (fresh sample) (get_bomb (fresh sample))
get_bomb-Conserves_example = get_bomb-Conserves (fresh sample)

get_normal_hand-Conserves_example : Conserves (fresh sample) (get_normal_hand (fresh sample))
get_normal_hand-Conserves_example = get_normal_hand-Conserves (fresh sample)

get_normal_hand_clears_example : (get_normal_hand (fresh sample)).cards 6 ≡ pos 0
get_normal_hand_clears_example = get_normal_hand_clears (fresh sample) 6 (omega arith) (omega arith)

get_trio_chain-Splits_example : Splits (fresh sample) (get_trio_chain (fresh sample))
get_trio_chain-Splits_example = get_trio_chain-Splits (fresh sample)

get_pair_chain_overtakes_example :
    (d' : Deal) × (get_pair_chain (fresh sample) ≡ some d')
    × ((p : ℕ)
        → pos_part (sample p) + 0 + neg_part (d'.cards p)
          ≡ pos_part (d'.cards p)
            + map_at d'.hand_map p
            + 2 * ends_at (hands_of pair_chain d'.hand_map) p
            + neg_part (sample p))
get_pair_chain_overtakes_example = get_pair_chain_overtakes (fresh sample) (unfold hands_of in refl)

optimize_pair_chain_within_example :
    let h' = optimize_pair_chain sample (make_chain pair_chain 6 4) in
    (6 ≤ h'.key_point) × (h'.key_point + h'.len ≤ 10) × (3 ≤ h'.len)
optimize_pair_chain_within_example =
    optimize_pair_chain_within sample (make_chain pair_chain 6 4) (omega arith)

get_solo_chain-Splits_example :
    (d' : Deal) × (get_solo_chain (fresh sample) ≡ some d')
    × Conserves (fresh sample) d'
    × AllRun (hands_of solo_chain d'.hand_map)
    × (NonNeg sample → NonNeg d'.cards)
get_solo_chain-Splits_example = get_solo_chain-Splits (fresh sample) (unfold hands_of in tt)

kind4-Splits_example : Splits (fresh sample) (split_cards_to_hands_kind4 sample true)
kind4-Splits_example = kind4-Splits sample true

kind5-Splits_example : Splits (fresh sample) (split_cards_to_hands_kind5 sample true)
kind5-Splits_example = kind5-Splits sample true

sample-Countable : (p : ℕ) → Countable (sample p)
sample-Countable p = (
  get_or_bound 4 (1 ∷ 1 ∷ 1 ∷ 1 ∷ 1 ∷ 1 ∷ 3 ∷ 2 ∷ 2 ∷ 2 ∷ 0 ∷ 0 ∷ 4 ∷ 1 ∷ 1 ∷ 0 ∷ []) p 0
      (
        omega arith,
        (
          omega arith,
          (
            omega arith,
            (
              omega arith,
              (
                omega arith,
                (
                  omega arith,
                  (
                    omega arith,
                    (
                      omega arith,
                      (
                        omega arith,
                        (
                          omega arith,
                          (
                            omega arith,
                            (
                              omega arith,
                              (omega arith, (omega arith, (omega arith, (omega arith, tt)))),
                            ),
                          ),
                        ),
                      ),
                    ),
                  ),
                ),
              ),
            ),
          ),
        ),
      )
      (omega arith),
  refl,
)

kind4-PutsAll_example : PutsAll sample (split_cards_to_hands_kind4 sample true)
kind4-PutsAll_example = kind4-PutsAll sample true sample-Countable

kind5-PutsAll_example : PutsAll sample (split_cards_to_hands_kind5 sample true)
kind5-PutsAll_example = kind5-PutsAll sample true sample-Countable

sample-Tidy : Tidy (get_normal_hand (fresh sample)).hand_map
unfolding hands_of
sample-Tidy = get_normal_hand-Tidy (fresh sample) (tt, tt, tt, tt)

find_kicker-Kept_example :
    let m = (get_normal_hand (fresh sample)).hand_map in
    (m' : HandMap) × (find_kicker_for_trio_or_trio_chain m ≡ some m')
    × Tidy m'
    × ((p : ℕ) → map_at m' p ≡ map_at m p)
find_kicker-Kept_example = find_kicker-Kept (get_normal_hand (fresh sample)).hand_map sample-Tidy

first_kinds-Overtakes_example :
    Overtakes sample (split_cards_to_hands_kind1 sample false)
    × Overtakes sample (split_cards_to_hands_kind2 sample false)
    × Overtakes sample (split_cards_to_hands_kind3 sample false)
first_kinds-Overtakes_example = first_kinds-Overtakes sample
