-- ===== src/Search/Beats.antt =====
-- `findHigherHandFromPoints` finds a hand that beats the given one, or there is none.
use robot_ddz.Search.Runs.{find_chain_lem, NoRun, Held}
use robot_ddz.Prelude.{
  none, ◌==◌, ℕ, ◌+◌, ◌-◌, ◌≤◌, ◌<◌, ◌≡◌, refl, sym, ◌∙◌, Bool, true, false, ◌⊎◌, inl, inr, Option,
  some, arith, ltb, leb, if◌then◌else◌, pos, pos_part, leb_ℤ,
}
use robot_ddz.Cards.Hands.{
  card_3, Hand, HandType, nothing, trio_chain, pair_chain, solo_chain, trio, pair, solo, bomb,
  card_a, red_joker, is_chain, is_hand_higher_than,
}
use robot_ddz.Cards.Points.{run_at, Points}
use robot_ddz.Cards.HandMap.{hand_at, one_if}
use robot_ddz.Cards.Scan.{first_up_lem}
use robot_ddz.Search.Higher.{
  find_chain, higher_chain, chain_number, single_number, higher_single, no_hand,
}

-- The kinds of hands that have no kickers; the two jokers are left aside.
unfoldable pub is_plain : HandType → Bool
is_plain solo = true
is_plain pair = true
is_plain trio = true
is_plain bomb = true
is_plain solo_chain = true
is_plain pair_chain = true
is_plain trio_chain = true
is_plain _ = false

-- A chain ends at the ace or before.
abbrev pub in_deck : Hand → Bool
in_deck g =
    if is_chain g.type then leb (g.key_point + g.len) (card_a + 1) else leb g.key_point red_joker

-- A hand of the same kind that is higher, and that the points hold.
abbrev pub Beats : Points → Hand → Hand → Type 0
Beats c h g =
    (g.type ≡ h.type)
    × (is_hand_higher_than g h ≡ true)
    × (in_deck g ≡ true)
    × ((p : ℕ) → hand_at g p ≤ pos_part (c p))

-- The best that can be done: a hand that beats `h`, or the answer that none does.
abbrev pub Answers : Points → Hand → Option Hand → Type 0
Answers c h r =
    (g : Hand) × (r ≡ some g) × (Beats c h g ⊎ (g.type ≡ nothing) × ((b : Hand) → ¬ Beats c h b))

-- A kind with `k` cards of one point.
module _ (t : HandType) (k : ℕ) (one : 1 ≤ k) (single : is_chain t ≡ false)
    (number : single_number t ≡ k)
    (shape : (g : Hand) (p : ℕ) → g.type ≡ t → hand_at g p ≡ one_if k g.key_point p)
    (order : (g h : Hand)
      → g.type ≡ t
      → h.type ≡ t
      → is_hand_higher_than g h ≡ ltb h.key_point g.key_point) where
  single-Beats :
      (h : Hand) (c : Points) (s : ℕ)
      → h.type ≡ t
      → h.key_point < s
      → s ≤ red_joker
      → leb_ℤ (pos k) (c s) ≡ true
      → Beats c h (record no_hand { type = h.type; key_point = s })
  single-Beats h c s e above low held =
      let g : Hand = record no_hand { type = h.type; key_point = s } in
      (
        refl,
        order g h e e ∙ ground arith,
        rw (e, single) (ground arith),
        λ p. ground (arith, shape g p e),
      )

  single_none :
      (h : Hand) (c : Points)
      → h.type ≡ t
      → ((j : ℕ)
          → h.key_point + 1 ≤ j
          → j < h.key_point + 1 + (red_joker - h.key_point)
          → leb_ℤ (pos k) (c j) ≡ false)
      → (b : Hand) → ¬ Beats c h b
  single_none h c e few b (same, higher, inside, covered) =
      let f : b.type ≡ t = same ∙ e in
      let over : ltb h.key_point b.key_point ≡ true = sym (order b h f e) ∙ higher in
      let low : leb b.key_point red_joker ≡ true = rw (f, single) at inside in
      let cards : k ≤ pos_part (c b.key_point) =
        ground (arith, covered b.key_point, shape b b.key_point f) in
      ground (arith, few b.key_point)

  pub higher_single_lem :
      (h : Hand) (c : Points)
      → h.type ≡ t
      → let g = (higher_single h c).0 in
        Beats c h g ⊎ (g.type ≡ nothing) × ((b : Hand) → ¬ Beats c h b)
  unfolding higher_single
  higher_single_lem h c e =
      elim (first_up_lem (red_joker - h.key_point) (h.key_point + 1)
        (λ i. leb_ℤ (pos (single_number h.type)) (c i))) [
          | inl (s, found, lo, hi, hit, before) ↦
              let hit' : leb_ℤ (pos k) (c s) ≡ true = rw (e, number) at hit in
              rw (found, higher_single)
                (inl (single-Beats h c s e (omega arith) (omega arith) hit'))
          | inr (missing, few) ↦
              let few' = rw (e, number) at few in
              rw (missing, higher_single) (inr (refl, single_none h c e few'))
        ]

found_chain :
    (h : Hand) (c : Points) (s : ℕ)
    → find_chain 12 h.len (chain_number h.type) (h.key_point + 1) c ≡ some s
    → ltb card_3 s ≡ true
    → (higher_chain h c).0 ≡ record no_hand { type = h.type; key_point = s; len = h.len }
unfolding higher_chain
found_chain h c s e above = rw (e, higher_chain, above) refl

missing_chain :
    (h : Hand) (c : Points)
    → find_chain 12 h.len (chain_number h.type) (h.key_point + 1) c ≡ none
    → (higher_chain h c).0 ≡ no_hand
unfolding higher_chain
missing_chain h c e = rw (e, higher_chain) refl

-- A kind with `k` cards of each of some neighbouring points.
module _ (t : HandType) (k : ℕ) (one : 1 ≤ k) (chain : is_chain t ≡ true)
    (number : chain_number t ≡ k)
    (shape : (g : Hand) (p : ℕ) → g.type ≡ t → hand_at g p ≡ run_at k g.key_point g.len p)
    (order : (g h : Hand)
      → g.type ≡ t
      → h.type ≡ t
      → is_hand_higher_than g h
        ≡ (if ltb h.key_point g.key_point then g.len == h.len else false)) where
  chain-Beats :
      (h : Hand) (c : Points) (s : ℕ)
      → h.type ≡ t
      → h.key_point < s
      → s + h.len ≤ card_a + 1
      → Held k c s (s + h.len)
      → Beats c h (record no_hand { type = h.type; key_point = s; len = h.len })
  chain-Beats h c s e above low held =
      let g : Hand = record no_hand { type = h.type; key_point = s; len = h.len } in
      (
        refl,
        order g h e e ∙ ground arith,
        rw (e, chain) (ground arith),
        λ p. ground (arith, shape g p e, held p),
      )

  chain_none :
      (h : Hand) (c : Points)
      → h.type ≡ t
      → ((s : ℕ) → h.key_point + 1 ≤ s → NoRun h.len k c s)
      → (b : Hand) → ¬ Beats c h b
  chain_none h c e missing b (same, higher, inside, covered) =
      let f : b.type ≡ t = same ∙ e in
      let over = sym (order b h f e) ∙ higher in
      let low : leb (b.key_point + b.len) (card_a + 1) ≡ true = rw (f, chain) at inside in
      let equal : b.len ≡ h.len = ground arith in
      missing b.key_point (ground arith) (ground arith)
        (λ p lo hi. ground (arith, covered p, shape b p f))

  pub higher_chain_lem :
      (h : Hand) (c : Points)
      → h.type ≡ t
      → 1 ≤ h.len
      → let g = (higher_chain h c).0 in
        Beats c h g ⊎ (g.type ≡ nothing) × ((b : Hand) → ¬ Beats c h b)
  higher_chain_lem h c e long =
      elim (find_chain_lem 12 h.len k (h.key_point + 1) c long one (omega arith)) [
        | inl (s, found, lo, hi, run) ↦
            let found' = rw (← number, ← e) at found in
            let above : ltb card_3 s ≡ true = ground arith in
            rw (found_chain h c s found' above) (inl (chain-Beats h c s e (omega arith) hi run))
        | inr (missing, none_from) ↦
            let missing' = rw (← number, ← e) at missing in
            rw (missing_chain h c missing') (inr (refl, chain_none h c e none_from))
      ]
