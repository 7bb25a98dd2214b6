-- ===== src/Choice/Held.antt =====
-- The map that is chosen holds the robot's cards.
use robot_ddz.Prelude.{
  ℕ, ◌≤◌, ◌+◌, ◌≡◌, Bool, Bool-cases, Option-cases, inl, inr, Option, some, ltb, length, arith, ◌∙◌,
  List, [], ◌∷◌, pos_part, ◌||◌,
}
use robot_ddz.Cards.Points.{Points}
use robot_ddz.Cards.Hands.{
  Hand, HandType, is_type, bomb, red_joker, solo_chain, trio, trio_solo, trio_pair,
}
use robot_ddz.Cards.HandMap.{HandMap, map_at}
use robot_ddz.Split.Work.{Deal}
use robot_ddz.Split.Normal.{Countable}
use robot_ddz.Split.Kicker.{touch}
use robot_ddz.Split.Kicker.Loose.{map_at-touch}
use robot_ddz.Split.Kinds.{split_cards_to_hands_kind4, split_cards_to_hands_kind5}
use robot_ddz.Split.Kinds.Keep.{PutsAll, kind4-PutsAll, kind5-PutsAll}
use robot_ddz.Choice.Summary.{
  HandsMapSummary, get_hands_map_summary, note_entries, note_entry, note_hands, note_kind,
  note_hand, all_kinds, no_summary, find_hands,
}
use robot_ddz.Choice.Charge.{is_charge_hand, charge_alone, touch_rivals, is_trio_kind}
use robot_ddz.Choice.Sort.{Assessed, assess, sort_hands_lord_only_1_card}
use robot_ddz.Choice.Solos.{sort_hands_lord_only_1_card_lem}

-- The one map holds as many cards of each point as the other.
abbrev SameCards : HandMap → HandMap → Type 0
SameCards m m' = (p : ℕ) → map_at m' p ≡ map_at m p

touch_rivals-SameCards : (h : Hand) (m : HandMap) → SameCards m (touch_rivals h m)
touch_rivals-SameCards h m p = elim (Bool-cases (is_type h.type solo_chain)) [
  | inl straight ↦ rw straight (map_at-touch solo_chain m p)
  | inr other ↦ rw other (
      map_at-touch trio_pair (touch trio_solo (touch trio m)) p
      ∙ map_at-touch trio_solo (touch trio m) p
      ∙ map_at-touch trio m p)
]

module _ (max_opp : ℕ) (opp : Points) where
  is_charge_hand-SameCards :
      (h : Hand) (m m' : HandMap) (b : Bool)
      → is_charge_hand h max_opp opp m ≡ some (b, m')
      → SameCards m m'
  unfolding is_charge_hand
  is_charge_hand-SameCards h m m' b e p = elim (Option-cases (charge_alone h max_opp opp)) [
    | inl gone ↦ let e' = rw (is_charge_hand, gone) at e in grind arith
    | inr (alone, found) ↦ elim (Bool-cases alone) [
      | inl yes_alone ↦ let e' = rw (is_charge_hand, found, yes_alone) at e in grind arith
      | inr not_alone ↦ elim (Bool-cases (is_trio_kind h.type || is_type h.type solo_chain)) [
        | inl looks ↦
            let e' = rw (is_charge_hand, found, not_alone, looks) at e in
            let same = touch_rivals-SameCards h m p in grind arith
        | inr skips ↦ let e' = rw (is_charge_hand, found, not_alone, skips) at e in grind arith
      ]
    ]
  ]

-- The map holds the robot's cards, at every point up to the red joker.
abbrev pub HoldsAll : Points → HandMap → Type 0
HoldsAll c m = (p : ℕ) → p ≤ red_joker → map_at m p ≡ pos_part (c p)

module _ (lowest max_opp : ℕ) (opp : Points) where
  note_hands-SameCards :
      (hs : List Hand) (m m' : HandMap) (s s' : HandsMapSummary)
      → note_hands lowest max_opp opp hs m s ≡ some (m', s')
      → SameCards m m'
  unfolding note_hands
  note_hands-SameCards [] m m' s s' e p = grind arith
  note_hands-SameCards (h ∷ hs) m m' s s' e p =
      elim (Option-cases (is_charge_hand h max_opp opp m)) [
        | inl gone ↦ let e' = rw (note_hands, gone) at e in grind arith
        | inr (r, found) ↦
            let e' = rw (note_hands, found) at e in
            note_hands-SameCards hs r.1 m' (note_hand lowest r.0 h s) s' e' p
            ∙ is_charge_hand-SameCards max_opp opp h m r.1 r.0 found p
      ]

  note_entry-SameCards :
      (k : HandType) (hs : List Hand) (m m' : HandMap) (s s' : HandsMapSummary)
      → note_entry lowest max_opp opp k hs m s ≡ some (m', s')
      → SameCards m m'
  unfolding note_entry
  note_entry-SameCards k hs m m' s s' e p = elim (Bool-cases (is_type k bomb)) [
    | inl bombs ↦ let e' = rw (note_entry, bombs) at e in grind arith
    | inr others ↦
        let e' = rw (note_entry, others) at e in
        let t : HandsMapSummary = note_kind k hs s in
        note_hands-SameCards hs m m'
          (record t { real_hands_count = t.real_hands_count + length hs }) s' e' p
  ]

  note_entries-SameCards :
      (ks : List HandType) (m m' : HandMap) (s s' : HandsMapSummary)
      → note_entries lowest max_opp opp ks m s ≡ some (m', s')
      → SameCards m m'
  unfolding note_entries
  note_entries-SameCards [] m m' s s' e p = grind arith
  note_entries-SameCards (k ∷ ks) m m' s s' e p = elim (Option-cases (find_hands k m)) [
    | inl missing ↦
        let e' = rw (note_entries, missing) at e in note_entries-SameCards ks m m' s s' e' p
    | inr (hs, there) ↦ elim (Option-cases (note_entry lowest max_opp opp k hs m s)) [
      | inl gone ↦ let e' = rw (note_entries, there, gone) at e in grind arith
      | inr (r, noted) ↦
          let e' = rw (note_entries, there, noted) at e in
          note_entries-SameCards ks r.0 m' r.1 s' e' p
          ∙ note_entry-SameCards k hs m r.0 s r.1 noted p
    ]
  ]

  summary-SameCards :
      (m m' : HandMap) (s : HandsMapSummary)
      → get_hands_map_summary lowest max_opp opp m ≡ some (m', s)
      → SameCards m m'
  unfolding get_hands_map_summary
  summary-SameCards m m' s e p =
      elim (Option-cases (note_entries lowest max_opp opp all_kinds m no_summary)) [
        | inl gone ↦ let e' = rw (get_hands_map_summary, gone) at e in grind arith
        | inr (r, noted) ↦
            let e' = rw (get_hands_map_summary, noted) at e in
            let same = note_entries-SameCards all_kinds m r.0 no_summary r.1 noted p in grind arith
      ]

  assess-HoldsAll :
      (c : Points) (r : Option Deal) (a : Assessed)
      → PutsAll c r
      → assess lowest max_opp opp r ≡ some a
      → HoldsAll c a.0
  unfolding assess
  assess-HoldsAll c r a (d, e, puts) f p low =
      let f' : get_hands_map_summary lowest max_opp opp d.hand_map ≡ some (a.0, a.1) =
        rw (assess, e) at f in
      summary-SameCards d.hand_map a.0 a.1 f' p ∙ (puts p low).1

  -- If no count is below 0 or above 4, and the fourth and the fifth split can be assessed,
  -- sortHandsLordOnly1Card returns a map whose hands hold, at each point up to the red joker,
  -- exactly the cards given.
  pub sort_hands_lord_only_1_card-HoldsAll :
      (c : Points) (search_kicker : Bool) (a b : Assessed)
      → ((p : ℕ) → Countable (c p))
      → assess lowest max_opp opp (split_cards_to_hands_kind4 c search_kicker) ≡ some a
      → assess lowest max_opp opp (split_cards_to_hands_kind5 c search_kicker) ≡ some b
      → (r : Assessed) × (sort_hands_lord_only_1_card lowest max_opp opp c search_kicker ≡ some r)
        × HoldsAll c r.0
  sort_hands_lord_only_1_card-HoldsAll c search_kicker a b few e f =
      let of_a =
        assess-HoldsAll c (split_cards_to_hands_kind4 c search_kicker) a
          (kind4-PutsAll c search_kicker few) e in
      let of_b =
        assess-HoldsAll c (split_cards_to_hands_kind5 c search_kicker) b
          (kind5-PutsAll c search_kicker few) f in
      let chosen = sort_hands_lord_only_1_card_lem lowest max_opp opp c search_kicker a b e f in
      elim (Bool-cases (ltb a.1.lowest_solo b.1.lowest_solo)) [
        | inl fifth ↦ (b, rw fifth at chosen, of_b)
        | inr fourth ↦ (a, rw fourth at chosen, of_a)
      ]
