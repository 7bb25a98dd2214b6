-- ===== src/Choice/Best.antt =====
-- What the choice among the splits comes to.
use robot_ddz.Prelude.{
  ◌∙◌, ◌⊎◌, inl, inr, some, refl, Bool, some, ℤ, ltb_ℤ, leb, ltb, ℕ, true, false, if◌then◌else◌,
  ◌≡◌, refl, true, false, Bool-cases, inl, inr, ◌⊎◌, arith,
}
use robot_ddz.Choice.Summary.{HandsMapSummary, compare_hand_map_summary}
use robot_ddz.Cards.Points.{Points}
use robot_ddz.Split.Kinds.{
  split_cards_to_hands_kind1, split_cards_to_hands_kind2, split_cards_to_hands_kind3,
}
use robot_ddz.Choice.Sort.{Assessed, keep_better, assess, sort_hands_with_best_kind}

abbrev pub IsNoWorse : HandsMapSummary → HandsMapSummary → Type 0
IsNoWorse a b = compare_hand_map_summary a b ≡ true

-- Of two summaries one is no worse than the other, and the order is transitive.
pub compare_total : (a b : HandsMapSummary) → compare_hand_map_summary a b ≡ false → IsNoWorse b a
unfolding compare_hand_map_summary
compare_total a b h = ground arith

abbrev by_first : Bool → Bool → Bool → Bool
by_first less more rest = if less then true else if more then false else rest

by_first_trans :
    (x y z : ℤ) (r s t : Bool)
    → by_first (ltb_ℤ x y) (ltb_ℤ y x) r ≡ true
    → by_first (ltb_ℤ y z) (ltb_ℤ z y) s ≡ true
    → (r ≡ true → s ≡ true → t ≡ true)
    → by_first (ltb_ℤ x z) (ltb_ℤ z x) t ≡ true
by_first_trans x y z r s t h k next = ground arith

by_first_trans_nat :
    (x y z : ℕ) (r s t : Bool)
    → by_first (ltb x y) (ltb y x) r ≡ true
    → by_first (ltb y z) (ltb z y) s ≡ true
    → (r ≡ true → s ≡ true → t ≡ true)
    → by_first (ltb x z) (ltb z x) t ≡ true
by_first_trans_nat x y z r s t h k next = ground arith

by_lowest : (x y z : ℕ) → leb y x ≡ true → leb z y ≡ true → leb z x ≡ true
by_lowest x y z h k = ground arith

pub compare_trans : (a b c : HandsMapSummary) → IsNoWorse a b → IsNoWorse b c → IsNoWorse a c
unfolding compare_hand_map_summary
compare_trans a b c h k =
    by_first_trans a.effective_hands_count b.effective_hands_count c.effective_hands_count _ _ _ h k
      λ h1 k1.
        by_first_trans_nat a.hands_type_count b.hands_type_count c.hands_type_count _ _ _ h1 k1
          λ h2 k2.
            by_first_trans_nat a.solo_count b.solo_count c.solo_count _ _ _ h2 k2
              λ h3 k3. by_lowest a.lowest_solo b.lowest_solo c.lowest_solo h3 k3

compare_refl : (a : HandsMapSummary) → IsNoWorse a a
unfolding compare_hand_map_summary
compare_refl a = ground arith

-- What is kept is one of the two, and no worse than either.
keep_better_lem :
    (a b : Assessed)
    → ((keep_better a b ≡ a) ⊎ (keep_better a b ≡ b))
      × IsNoWorse (keep_better a b).1 a.1
      × IsNoWorse (keep_better a b).1 b.1
unfolding keep_better
keep_better_lem a b = elim (Bool-cases (compare_hand_map_summary a.1 b.1)) [
  | inl better ↦ rw better (inl refl, compare_refl a.1, better)
  | inr worse ↦ rw worse (inr refl, compare_total a.1 b.1 worse, compare_refl b.1)
]

-- If the first three splits can be assessed, sortHandsWithBestKind returns one of the three with
-- its summary, and by compareHandMapSummary that summary is no worse than any of the three.
pub sort_hands_with_best_kind_best :
    (lowest max_opp : ℕ) (opp c : Points) (search_kicker : Bool) (a b d : Assessed)
    → assess lowest max_opp opp (split_cards_to_hands_kind1 c search_kicker) ≡ some a
    → assess lowest max_opp opp (split_cards_to_hands_kind2 c search_kicker) ≡ some b
    → assess lowest max_opp opp (split_cards_to_hands_kind3 c search_kicker) ≡ some d
    → (r : Assessed) × (sort_hands_with_best_kind lowest max_opp opp c search_kicker ≡ some r)
      × ((r ≡ a) ⊎ ((r ≡ b) ⊎ (r ≡ d)))
      × IsNoWorse r.1 a.1
      × IsNoWorse r.1 b.1
      × IsNoWorse r.1 d.1
unfolding sort_hands_with_best_kind
sort_hands_with_best_kind_best lowest max_opp opp c search_kicker a b d e f g =
    let first : Assessed = keep_better a b in
    let r : Assessed = keep_better first d in
    let (which, over_a, over_b) = keep_better_lem a b in
    let (which', over_first, over_d) = keep_better_lem first d in
    let source : (r ≡ a) ⊎ ((r ≡ b) ⊎ (r ≡ d)) = elim which' [
      | inr third ↦ inr (inr third)
      | inl kept ↦ elim which [ inl one ↦ inl (kept ∙ one) | inr two ↦ inr (inl (kept ∙ two)) ]
    ] in
    (
      r,
      rw (e, f, g) refl,
      source,
      compare_trans r.1 first.1 a.1 over_first over_a,
      compare_trans r.1 first.1 b.1 over_first over_b,
      over_d,
    )
