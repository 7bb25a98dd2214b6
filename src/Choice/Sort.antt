-- ===== src/Choice/Sort.antt =====
-- `sortHandsWithBestKind` and `sortHandsLordOnly1Card`.
use robot_ddz.Prelude.{ℕ, Bool, Option, some, none, ltb, ◌==◌, ◌&&◌, ◌||◌, if◌then◌else◌}
use robot_ddz.Cards.Points.{Points}
use robot_ddz.Cards.HandMap.{HandMap}
use robot_ddz.Split.Work.{Deal}
use robot_ddz.Split.Kinds.{
  split_cards_to_hands_kind1, split_cards_to_hands_kind2, split_cards_to_hands_kind3,
  split_cards_to_hands_kind4, split_cards_to_hands_kind5,
}
use robot_ddz.Choice.Summary.{HandsMapSummary, get_hands_map_summary, compare_hand_map_summary}

-- A map and what is counted in it.
abbrev pub Assessed : Type 0
Assessed = HandMap × HandsMapSummary

-- `if (!compareHandMapSummary(summary, tmpSummary)) { handsMap = tmpMap; summary = tmpSummary; }`
unfoldable pub keep_better : Assessed → Assessed → Assessed
unfolding compare_hand_map_summary
keep_better a b = if compare_hand_map_summary a.1 b.1 then a else b

-- The test of `sortHandsLordOnly1Card`.
unfoldable pub keep_fewer_solos : Assessed → Assessed → Assessed
keep_fewer_solos a b =
    if ltb b.1.solo_count a.1.solo_count
      || (b.1.solo_count == a.1.solo_count && ltb a.1.lowest_solo b.1.lowest_solo)
    then b
    else a

module _ (lowest max_opp : ℕ) (opp : Points) where
  -- A split and its summary.
  unfoldable pub assess : Option Deal → Option Assessed
  assess none = none
  assess (some d) = get_hands_map_summary lowest max_opp opp d.hand_map

  unfoldable pub choose_three :
      Option Assessed → Option Assessed → Option Assessed → Option Assessed
  unfolding keep_better
  choose_three (some a) (some b) (some c) = some (keep_better (keep_better a b) c)
  choose_three _ _ _ = none

  unfoldable pub sort_hands_with_best_kind : Points → Bool → Option Assessed
  unfolding assess choose_three
  sort_hands_with_best_kind c search_kicker =
      choose_three (assess (split_cards_to_hands_kind1 c search_kicker))
        (assess (split_cards_to_hands_kind2 c search_kicker))
        (assess (split_cards_to_hands_kind3 c search_kicker))

  unfoldable pub choose_two : Option Assessed → Option Assessed → Option Assessed
  unfolding keep_fewer_solos
  choose_two (some a) (some b) = some (keep_fewer_solos a b)
  choose_two _ _ = none

  unfoldable pub sort_hands_lord_only_1_card : Points → Bool → Option Assessed
  unfolding assess choose_two
  sort_hands_lord_only_1_card c search_kicker =
      choose_two (assess (split_cards_to_hands_kind4 c search_kicker))
        (assess (split_cards_to_hands_kind5 c search_kicker))
