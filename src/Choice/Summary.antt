-- ===== src/Choice/Summary.antt =====
-- `HandsMapSummary`, `getHandsMapSummary` and `compareHandMapSummary`.
use robot_ddz.Prelude.{
  ℕ, ◌+◌, Bool, true, false, List, [], ◌∷◌, Option, some, none, ltb, leb, ◌==◌, if◌then◌else◌, ◌||◌,
  length, ℤ, pos, sub_ℕ, ltb_ℤ,
}
use robot_ddz.Cards.Hands.{
  HandType, Hand, nothing, trio_chain_pair, trio_chain_solo, trio_chain, pair_chain, solo_chain,
  trio_pair, trio_solo, trio, pair, solo, four_dual_pair, four_dual_solo, lz_bomb, bomb, nuke, lz,
  is_type, red_joker, cal_hand_control,
}
use robot_ddz.Cards.Points.{Points}
use robot_ddz.Cards.HandMap.{HandMap}
use robot_ddz.Choice.Charge.{is_charge_hand}

pub record HandsMapSummary : Type 0 where
  pub real_hands_count : ℕ
  pub un_charge_hands_count : ℕ
  pub extra_bomb_count : ℕ
  pub two_controls_hands_count : ℕ
  pub effective_hands_count : ℤ
  pub hands_type_count : ℕ
  pub solo_count : ℕ
  pub lowest_solo : ℕ
  pub sencond_lowest_solo : ℕ

abbrev pub no_summary : HandsMapSummary
no_summary = record {
  real_hands_count = 0;
  un_charge_hands_count = 0;
  extra_bomb_count = 0;
  two_controls_hands_count = 0;
  effective_hands_count = pos 0;
  hands_type_count = 0;
  solo_count = 0;
  lowest_solo = red_joker;
  sencond_lowest_solo = red_joker;
}

-- The bombs below the controls.
unfoldable pub low_bombs : ℕ → List Hand → ℕ
low_bombs lowest [] = 0
low_bombs lowest (h ∷ hs) = (if ltb h.key_point lowest then 1 else 0) + low_bombs lowest hs

unfoldable pub has_len : ℕ → List Hand → Bool
has_len len [] = false
has_len len (h ∷ hs) = (h.len == len) || has_len len hs

-- `chainLength.size()`
unfoldable pub count_lens : List Hand → ℕ
unfolding has_len
count_lens [] = 0
count_lens (h ∷ hs) = (if has_len h.len hs then 0 else 1) + count_lens hs

-- The first two single cards.
unfoldable pub note_solos : List Hand → HandsMapSummary → HandsMapSummary
note_solos [] s = s
note_solos (h ∷ []) s = record s { lowest_solo = h.key_point }
note_solos (h ∷ g ∷ hs) s = record s {
  lowest_solo = h.key_point;
  sencond_lowest_solo = g.key_point;
}

-- How the kind of an entry counts.
unfoldable pub note_kind : HandType → List Hand → HandsMapSummary → HandsMapSummary
unfolding count_lens note_solos
note_kind k hs s =
    if is_type k solo_chain
    then record s { hands_type_count = s.hands_type_count + count_lens hs }
    else if is_type k solo
    then note_solos hs (record s { hands_type_count = s.hands_type_count + 1 })
    else record s { hands_type_count = s.hands_type_count + 1 }

-- How one hand counts, where `charge` is what `isChargeHand` gave.
abbrev pub note_hand : ℕ → Bool → Hand → HandsMapSummary → HandsMapSummary
note_hand lowest charge h s = record s {
  un_charge_hands_count = s.un_charge_hands_count + (if charge then 0 else 1);
  two_controls_hands_count =
      s.two_controls_hands_count + (if leb 2 (cal_hand_control h lowest) then 1 else 0);
}

-- The keys in their order.
abbrev pub all_kinds : List HandType
all_kinds =
    nothing ∷ trio_chain_pair ∷ trio_chain_solo ∷ trio_chain ∷ pair_chain ∷ solo_chain ∷ trio_pair
    ∷ trio_solo ∷ trio ∷ pair ∷ solo ∷ four_dual_pair ∷ four_dual_solo ∷ lz_bomb ∷ bomb ∷ nuke ∷ lz
    ∷ []

-- `handMap.find(k)`
unfoldable pub find_hands : HandType → HandMap → Option (List Hand)
find_hands k [] = none
find_hands k ((j, hs) ∷ m) = if is_type j k then some hs else find_hands k m

module _ (lowest max_opp : ℕ) (opp : Points) where
  unfoldable pub note_hands :
      List Hand → HandMap → HandsMapSummary → Option (HandMap × HandsMapSummary)
  note_hands [] m s = some (m, s)
  note_hands (h ∷ hs) m s = elim (is_charge_hand h max_opp opp m) [
    | none ↦ none
    | some (charge, m') ↦ note_hands hs m' (note_hand lowest charge h s)
  ]

  -- One entry of the map.
  unfoldable pub note_entry :
      HandType → List Hand → HandMap → HandsMapSummary → Option (HandMap × HandsMapSummary)
  unfolding low_bombs note_kind note_hands
  note_entry k hs m s =
      if is_type k bomb
      then some (m, record s { extra_bomb_count = s.extra_bomb_count + low_bombs lowest hs })
      else note_hands hs m (
          let t = note_kind k hs s in
          record t { real_hands_count = t.real_hands_count + length hs })

  -- The iterator goes to the next key that is in the map then; `isChargeHand` may have added it.
  unfoldable pub note_entries :
      List HandType → HandMap → HandsMapSummary → Option (HandMap × HandsMapSummary)
  unfolding note_entry find_hands
  note_entries [] m s = some (m, s)
  note_entries (k ∷ ks) m s = elim (find_hands k m) [
    | none ↦ note_entries ks m s
    | some hs ↦ elim (note_entry k hs m s) [ none ↦ none | some (m', s') ↦ note_entries ks m' s' ]
  ]

  unfoldable pub get_hands_map_summary : HandMap → Option (HandMap × HandsMapSummary)
  unfolding note_entries
  get_hands_map_summary m = elim (note_entries all_kinds m no_summary) [
    | none ↦ none
    | some (m', s) ↦ some (
      m',
      record s {
        effective_hands_count =
            sub_ℕ (s.un_charge_hands_count + s.two_controls_hands_count) s.extra_bomb_count;
      },
    )
  ]

-- The comparison by the effective hands, the kinds, the solos, and the lowest solo.
unfoldable pub compare_hand_map_summary : HandsMapSummary → HandsMapSummary → Bool
compare_hand_map_summary a b =
    if ltb_ℤ a.effective_hands_count b.effective_hands_count
    then true
    else if ltb_ℤ b.effective_hands_count a.effective_hands_count
    then false
    else if ltb a.hands_type_count b.hands_type_count
    then true
    else if ltb b.hands_type_count a.hands_type_count
    then false
    else if ltb a.solo_count b.solo_count
    then true
    else if ltb b.solo_count a.solo_count
    then false
    else leb b.lowest_solo a.lowest_solo
