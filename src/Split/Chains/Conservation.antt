-- ===== src/Split/Chains/Conservation.antt =====
-- `getTrioChain` keeps every card; `getPairChain` takes one pair too many behind each chain.
use robot_ddz.Prelude.{
  ℕ, zero, suc, ◌+◌, ◌-◌, ◌*◌, ◌≤◌, ◌<◌, ◌≡◌, refl, ap, inl, inr, List, [], ◌∷◌, ◌++◌, arith, leb,
  ◌==◌, if◌then◌else◌, pos_part, neg_part, Bool-cases, some,
}
use robot_ddz.Cards.Hands.{Hand, card_k, card_q, card_3, make_chain, trio_chain, pair_chain}
use robot_ddz.Cards.Points.{Points, take_run_lem, run_at}
use robot_ddz.Cards.HandMap.{
  hands_at, hand_at, hands_of, hands_at-append, map_at, set_hands, map_at-set_hands,
  hands_of-set_hands,
}
use robot_ddz.Split.Work.{Deal, Work, KeepsBy, Splits}
use robot_ddz.Split.Chains.{
  take_trio_chain, get_trio_chain, shrink_pair_chain, optimize_pair_chain, push_pair_chain,
  take_pair_chain, get_pair_chain,
}
use robot_ddz.Split.Chains.Loop.{run_loop-KeepsBy}

take_trio_chain-KeepsBy :
    (i end : ℕ) (w : Work) → i < end → KeepsBy hands_at w (take_trio_chain i end w)
unfolding take_trio_chain
take_trio_chain-KeepsBy i end w h p = ground (
  arith,
  take_run_lem (end - i) 3 i w.cards p,
  hands_at-append w.hands (make_chain trio_chain i (end - i) ∷ []) p,
)

-- getTrioChain returns for every count of cards, and at each point the cards left and those in
-- hands stay as many together.
pub get_trio_chain-Splits : (d : Deal) → Splits d (get_trio_chain d)
unfolding get_trio_chain
get_trio_chain-Splits d =
    let w : Work = record { cards = d.cards; hands = hands_of trio_chain d.hand_map } in
    let (w', e, kept) =
      run_loop-KeepsBy hands_at 3 take_trio_chain take_trio_chain-KeepsBy card_k (card_k + 2) card_3
        w (omega arith) (omega arith) in
    (
      record { cards = w'.cards; hand_map = set_hands trio_chain w'.hands d.hand_map },
      rw e refl,
      λ p. omega (arith, kept p, map_at-set_hands trio_chain w'.hands d.hand_map p),
    )

-- How many of the hands end just before the point `p`.
abbrev pub ends_at : List Hand → ℕ → ℕ
ends_at [] p = 0
ends_at (h ∷ hs) p = (if h.key_point + h.len == p then 1 else 0) + ends_at hs p

ends_at-append : (hs gs : List Hand) (p : ℕ) → ends_at (hs ++ gs) p ≡ ends_at hs p + ends_at gs p
ends_at-append [] gs p = omega arith
ends_at-append (h ∷ hs) gs p = omega (arith, ends_at-append hs gs p)

-- The cards of the chains, and a pair more behind each.
abbrev pub overtaken : List Hand → ℕ → ℕ
overtaken hs p = hands_at hs p + 2 * ends_at hs p

push_pair_chain-KeepsBy :
    (h : Hand) (w : Work) → h.type ≡ pair_chain → KeepsBy overtaken w (push_pair_chain h w)
unfolding push_pair_chain
push_pair_chain-KeepsBy h w t p =
    let at : hand_at h p ≡ run_at 2 h.key_point h.len p = rw t refl in
    ground (
      arith,
      at,
      take_run_lem (h.len + 1) 2 h.key_point w.cards p,
      hands_at-append w.hands (h ∷ []) p,
      ends_at-append w.hands (h ∷ []) p,
    )

optimize_pair_chain_type : (c : Points) (h : Hand) → (optimize_pair_chain c h).type ≡ h.type
unfolding optimize_pair_chain
optimize_pair_chain_type c h = ground arith

take_pair_chain-KeepsBy :
    (i end : ℕ) (w : Work) → i < end → KeepsBy overtaken w (take_pair_chain i end w)
unfolding take_pair_chain
take_pair_chain-KeepsBy i end w h p = elim (Bool-cases (leb (i + 3) end)) [
  | inl long ↦ rw long (
      push_pair_chain-KeepsBy (optimize_pair_chain w.cards (make_chain pair_chain i (end - i))) w
        (optimize_pair_chain_type w.cards (make_chain pair_chain i (end - i))) p)
  | inr short ↦ rw short refl
]

-- If the map holds no pair chains so far, getPairChain returns, and at every point it takes away
-- what it puts into hands and two cards more for each chain that ends just before the point.
pub get_pair_chain_overtakes :
    (d : Deal)
    → hands_of pair_chain d.hand_map ≡ []
    → (d' : Deal) × (get_pair_chain d ≡ some d')
      × ((p : ℕ)
          → pos_part (d.cards p) + map_at d.hand_map p + neg_part (d'.cards p)
            ≡ pos_part (d'.cards p)
              + map_at d'.hand_map p
              + 2 * ends_at (hands_of pair_chain d'.hand_map) p
              + neg_part (d.cards p))
unfolding get_pair_chain
get_pair_chain_overtakes d new =
    let w : Work = record { cards = d.cards; hands = hands_of pair_chain d.hand_map } in
    let (w', e, kept) =
      run_loop-KeepsBy overtaken 2 take_pair_chain take_pair_chain-KeepsBy card_q (card_q + 2)
        card_3 w (omega arith) (omega arith) in
    (
      record { cards = w'.cards; hand_map = set_hands pair_chain w'.hands d.hand_map },
      rw e refl,
      λ p. omega (
        arith,
        kept p,
        map_at-set_hands pair_chain w'.hands d.hand_map p,
        ap (λ hs. hands_at hs p) new,
        ap (λ hs. ends_at hs p) new,
        ap (λ hs. ends_at hs p) (hands_of-set_hands pair_chain w'.hands d.hand_map),
      ),
    )

-- The chain that is kept lies within the run that was found, and has three pairs or more.
shrink_pair_chain_within :
    (n key : ℕ) (c : Points)
    → let left = shrink_pair_chain n key c in
      (key ≤ left.0) × (left.0 + left.1 ≤ key + n + 3) × (3 ≤ left.1)
unfolding shrink_pair_chain
shrink_pair_chain_within zero key c = omega arith
shrink_pair_chain_within (suc n) key c =
    ground (arith, shrink_pair_chain_within n key c, shrink_pair_chain_within n (key + 1) c)

-- optimizePairChain, given a chain of three pairs or more, leaves three pairs or more, all within
-- the chain.
pub optimize_pair_chain_within :
    (c : Points) (h : Hand)
    → 3 ≤ h.len
    → let h' = optimize_pair_chain c h in
      (h.key_point ≤ h'.key_point) × (h'.key_point + h'.len ≤ h.key_point + h.len) × (3 ≤ h'.len)
unfolding optimize_pair_chain
optimize_pair_chain_within c h l =
    ground (arith, shrink_pair_chain_within (h.len - 3) h.key_point c)
