-- ===== src/Tests/Choice.antt =====
-- The choice among the splits at concrete cards.
use robot_ddz.Prelude.{
  ℕ, get_or_bound, arith, true, [], ◌∷◌, ◌≡◌, refl, Option, some, none, pos, get_or, ◌⊎◌, ltb,
  if◌then◌else◌,
}
use robot_ddz.Cards.Points.{Points}
use robot_ddz.Split.Kinds.{
  split_cards_to_hands_kind1, split_cards_to_hands_kind2, split_cards_to_hands_kind3,
  split_cards_to_hands_kind4, split_cards_to_hands_kind5,
}
use robot_ddz.Split.Work.{Deal}
use robot_ddz.Split.Solo.Conservation.{get_solo_chain}
use robot_ddz.Split.Solo.Five.{low_cards}
use robot_ddz.Split.Solo.Grow.{expand_solo_chain}
use robot_ddz.Split.Solo.Trim.{optimize_solo_chain}
use robot_ddz.Split.Bomb.{get_bomb, get_trio}
use robot_ddz.Split.Chains.{get_trio_chain, get_pair_chain}
use robot_ddz.Split.Normal.{get_normal_hand}
use robot_ddz.Split.Kicker.{find_kicker_for_trio_or_trio_chain}
use robot_ddz.Cards.HandMap.{hands_of, set_hands, push_hand}
use robot_ddz.Cards.Hands.{rank, get_card_number}
use robot_ddz.Choice.Charge.{is_charge_hand}
use robot_ddz.Choice.Summary.{no_summary, get_hands_map_summary}
use robot_ddz.Choice.Sort.{Assessed, assess, sort_hands_with_best_kind, sort_hands_lord_only_1_card}
use robot_ddz.Split.Normal.{Countable}
use robot_ddz.Choice.Held.{HoldsAll, sort_hands_lord_only_1_card-HoldsAll}
use robot_ddz.Choice.Best.{IsNoWorse, sort_hands_with_best_kind_best}
use robot_ddz.Choice.Solos.{sort_hands_lord_only_1_card_lem}

-- 3 3, 4, 5 5 5 and 6, against 7, 8 8 and 2.
abbrev mine : Points
mine i = pos (get_or (2 ∷ 1 ∷ 3 ∷ 1 ∷ []) i 0)

abbrev theirs : Points
theirs i = pos (get_or (0 ∷ 0 ∷ 0 ∷ 0 ∷ 1 ∷ 2 ∷ 0 ∷ 0 ∷ 0 ∷ 0 ∷ 0 ∷ 0 ∷ 1 ∷ []) i 0)

abbrev assessed : Option Deal → Assessed
assessed d = elim (assess 10 4 theirs d) [ none ↦ ([], no_summary) | some a ↦ a ]

kind1_assessed :
    assess 10 4 theirs (split_cards_to_hands_kind1 mine true)
    ≡ some (assessed (split_cards_to_hands_kind1 mine true))
unfolding assess split_cards_to_hands_kind1 get_solo_chain low_cards get_hands_map_summary
    find_kicker_for_trio_or_trio_chain hands_of set_hands get_normal_hand get_bomb
    optimize_solo_chain expand_solo_chain push_hand rank is_charge_hand get_card_number
    get_trio_chain get_pair_chain
kind1_assessed = refl

kind2_assessed :
    assess 10 4 theirs (split_cards_to_hands_kind2 mine true)
    ≡ some (assessed (split_cards_to_hands_kind2 mine true))
unfolding assess split_cards_to_hands_kind2 get_solo_chain low_cards get_hands_map_summary
    find_kicker_for_trio_or_trio_chain hands_of set_hands get_normal_hand get_bomb
    optimize_solo_chain expand_solo_chain push_hand rank is_charge_hand get_card_number
    get_trio_chain get_pair_chain
kind2_assessed = refl

kind3_assessed :
    assess 10 4 theirs (split_cards_to_hands_kind3 mine true)
    ≡ some (assessed (split_cards_to_hands_kind3 mine true))
unfolding assess split_cards_to_hands_kind3 get_solo_chain low_cards get_hands_map_summary
    find_kicker_for_trio_or_trio_chain hands_of set_hands get_normal_hand get_bomb
    optimize_solo_chain expand_solo_chain push_hand rank is_charge_hand get_card_number
    get_trio_chain get_pair_chain
kind3_assessed = refl

kind4_assessed :
    assess 10 4 theirs (split_cards_to_hands_kind4 mine true)
    ≡ some (assessed (split_cards_to_hands_kind4 mine true))
unfolding assess split_cards_to_hands_kind4 get_solo_chain low_cards get_hands_map_summary
    find_kicker_for_trio_or_trio_chain hands_of set_hands get_normal_hand get_bomb
    optimize_solo_chain expand_solo_chain push_hand rank is_charge_hand get_card_number
kind4_assessed = refl

kind5_assessed :
    assess 10 4 theirs (split_cards_to_hands_kind5 mine true)
    ≡ some (assessed (split_cards_to_hands_kind5 mine true))
unfolding assess split_cards_to_hands_kind5 get_solo_chain low_cards get_hands_map_summary
    find_kicker_for_trio_or_trio_chain hands_of set_hands get_normal_hand get_bomb
    optimize_solo_chain expand_solo_chain push_hand rank is_charge_hand get_card_number get_trio
kind5_assessed = refl

sort_hands_with_best_kind_best_example :
    (r : Assessed) × (sort_hands_with_best_kind 10 4 theirs mine true ≡ some r)
    × ((r ≡ assessed (split_cards_to_hands_kind1 mine true))
        ⊎ ((r ≡ assessed (split_cards_to_hands_kind2 mine true))
            ⊎ (r ≡ assessed (split_cards_to_hands_kind3 mine true))))
    × IsNoWorse r.1 (assessed (split_cards_to_hands_kind1 mine true)).1
    × IsNoWorse r.1 (assessed (split_cards_to_hands_kind2 mine true)).1
    × IsNoWorse r.1 (assessed (split_cards_to_hands_kind3 mine true)).1
sort_hands_with_best_kind_best_example =
    sort_hands_with_best_kind_best 10 4 theirs mine true
      (assessed (split_cards_to_hands_kind1 mine true))
      (assessed (split_cards_to_hands_kind2 mine true))
      (assessed (split_cards_to_hands_kind3 mine true)) kind1_assessed kind2_assessed kind3_assessed

sort_hands_lord_only_1_card_lem_example :
    let a = assessed (split_cards_to_hands_kind4 mine true) in
    let b = assessed (split_cards_to_hands_kind5 mine true) in
    sort_hands_lord_only_1_card 10 4 theirs mine true
    ≡ some (if ltb a.1.lowest_solo b.1.lowest_solo then b else a)
sort_hands_lord_only_1_card_lem_example =
    sort_hands_lord_only_1_card_lem 10 4 theirs mine true
      (assessed (split_cards_to_hands_kind4 mine true))
      (assessed (split_cards_to_hands_kind5 mine true)) kind4_assessed kind5_assessed

mine-Countable : (p : ℕ) → Countable (mine p)
mine-Countable p = (
  get_or_bound 4 (2 ∷ 1 ∷ 3 ∷ 1 ∷ []) p 0
      (omega arith, (omega arith, (omega arith, (omega arith, tt)))) (omega arith),
  refl,
)

sort_hands_lord_only_1_card-HoldsAll_example :
    (r : Assessed) × (sort_hands_lord_only_1_card 10 4 theirs mine true ≡ some r)
    × HoldsAll mine r.0
sort_hands_lord_only_1_card-HoldsAll_example =
    sort_hands_lord_only_1_card-HoldsAll 10 4 theirs mine true
      (assessed (split_cards_to_hands_kind4 mine true))
      (assessed (split_cards_to_hands_kind5 mine true)) mine-Countable kind4_assessed kind5_assessed
