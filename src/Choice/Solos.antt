-- ===== src/Choice/Solos.antt =====
-- What `sortHandsLordOnly1Card` decides by.
use robot_ddz.Prelude.{
  ℕ, ◌+◌, ◌≡◌, refl, Bool, Bool-cases, Option-cases, inl, inr, Option, some, none, ltb, length,
  if◌then◌else◌, arith, ◌∙◌, List, [], ◌∷◌,
}
use robot_ddz.Cards.Points.{Points}
use robot_ddz.Cards.Hands.{Hand, HandType, is_type, bomb}
use robot_ddz.Cards.HandMap.{HandMap}
use robot_ddz.Split.Work.{Deal}
use robot_ddz.Split.Kinds.{split_cards_to_hands_kind4, split_cards_to_hands_kind5}
use robot_ddz.Choice.Summary.{
  HandsMapSummary, get_hands_map_summary, note_entries, note_entry, note_hands, note_kind,
  note_solos, note_hand, all_kinds, no_summary, find_hands,
}
use robot_ddz.Choice.Charge.{is_charge_hand}
use robot_ddz.Choice.Sort.{Assessed, assess, sort_hands_lord_only_1_card}

note_solos-solo_count :
    (hs : List Hand) (s : HandsMapSummary) → (note_solos hs s).solo_count ≡ s.solo_count
unfolding note_solos
note_solos-solo_count [] s = refl
note_solos-solo_count (h ∷ []) s = refl
note_solos-solo_count (h ∷ g ∷ hs) s = refl

note_kind-solo_count :
    (k : HandType) (hs : List Hand) (s : HandsMapSummary)
    → (note_kind k hs s).solo_count ≡ s.solo_count
unfolding note_kind
note_kind-solo_count k hs s =
    ground
      (arith, note_solos-solo_count hs (record s { hands_type_count = s.hands_type_count + 1 }))

module _ (lowest max_opp : ℕ) (opp : Points) where
  note_hands-solo_count :
      (hs : List Hand) (m m' : HandMap) (s s' : HandsMapSummary)
      → note_hands lowest max_opp opp hs m s ≡ some (m', s')
      → s'.solo_count ≡ s.solo_count
  unfolding note_hands
  note_hands-solo_count [] m m' s s' e = grind arith
  note_hands-solo_count (h ∷ hs) m m' s s' e =
      elim (Option-cases (is_charge_hand h max_opp opp m)) [
        | inl gone ↦ let e' = rw (note_hands, gone) at e in grind arith
        | inr (r, found) ↦
            let e' = rw (note_hands, found) at e in
            note_hands-solo_count hs r.1 m' (note_hand lowest r.0 h s) s' e'
      ]

  note_entry-solo_count :
      (k : HandType) (hs : List Hand) (m m' : HandMap) (s s' : HandsMapSummary)
      → note_entry lowest max_opp opp k hs m s ≡ some (m', s')
      → s'.solo_count ≡ s.solo_count
  unfolding note_entry
  note_entry-solo_count k hs m m' s s' e = elim (Bool-cases (is_type k bomb)) [
    | inl bombs ↦ let e' = rw (note_entry, bombs) at e in grind arith
    | inr others ↦
        let e' = rw (note_entry, others) at e in
        let t : HandsMapSummary = note_kind k hs s in
        note_hands-solo_count hs m m'
          (record t { real_hands_count = t.real_hands_count + length hs }) s' e'
        ∙ note_kind-solo_count k hs s
  ]

  note_entries-solo_count :
      (ks : List HandType) (m m' : HandMap) (s s' : HandsMapSummary)
      → note_entries lowest max_opp opp ks m s ≡ some (m', s')
      → s'.solo_count ≡ s.solo_count
  unfolding note_entries
  note_entries-solo_count [] m m' s s' e = grind arith
  note_entries-solo_count (k ∷ ks) m m' s s' e = elim (Option-cases (find_hands k m)) [
    | inl missing ↦
        let e' = rw (note_entries, missing) at e in note_entries-solo_count ks m m' s s' e'
    | inr (hs, there) ↦ elim (Option-cases (note_entry lowest max_opp opp k hs m s)) [
      | inl gone ↦ let e' = rw (note_entries, there, gone) at e in grind arith
      | inr (r, noted) ↦
          let e' = rw (note_entries, there, noted) at e in
          note_entries-solo_count ks r.0 m' r.1 s' e' ∙ note_entry-solo_count k hs m r.0 s r.1 noted
    ]
  ]

  summary-solo_count :
      (m m' : HandMap) (s : HandsMapSummary)
      → get_hands_map_summary lowest max_opp opp m ≡ some (m', s)
      → s.solo_count ≡ 0
  unfolding get_hands_map_summary
  summary-solo_count m m' s e =
      elim (Option-cases (note_entries lowest max_opp opp all_kinds m no_summary)) [
        | inl gone ↦ let e' = rw (get_hands_map_summary, gone) at e in grind arith
        | inr (r, noted) ↦
            let e' = rw (get_hands_map_summary, noted) at e in
            let none_counted = note_entries-solo_count all_kinds m r.0 no_summary r.1 noted in
            grind arith
      ]

  assess-solo_count :
      (d : Option Deal) (a : Assessed) → assess lowest max_opp opp d ≡ some a → a.1.solo_count ≡ 0
  unfolding assess
  assess-solo_count none a e = grind arith
  assess-solo_count (some d) a e = summary-solo_count d.hand_map a.0 a.1 e

  -- If the fourth and the fifth split can be assessed, sortHandsLordOnly1Card takes the fifth
  -- exactly when its lowest single card is higher; the number of single cards never decides.
  pub sort_hands_lord_only_1_card_lem :
      (c : Points) (search_kicker : Bool) (a b : Assessed)
      → assess lowest max_opp opp (split_cards_to_hands_kind4 c search_kicker) ≡ some a
      → assess lowest max_opp opp (split_cards_to_hands_kind5 c search_kicker) ≡ some b
      → sort_hands_lord_only_1_card lowest max_opp opp c search_kicker
        ≡ some (if ltb a.1.lowest_solo b.1.lowest_solo then b else a)
  unfolding sort_hands_lord_only_1_card
  sort_hands_lord_only_1_card_lem c search_kicker a b e f =
      let of_a = assess-solo_count (split_cards_to_hands_kind4 c search_kicker) a e in
      let of_b = assess-solo_count (split_cards_to_hands_kind5 c search_kicker) b f in
      rw (e, f) (rw (of_a, of_b) refl)
