-- ===== src/Search/Answers.antt =====
-- `findHigherHandFromPoints` on the kinds without kickers.
use robot_ddz.Prelude.{
  ◌==◌, ℕ, ◌≤◌, ◌≡◌, refl, true, false, ◌⊎◌, inl, inr, arith, ltb, if◌then◌else◌,
}
use robot_ddz.Cards.Hands.{
  rank, Hand, HandType, nothing, trio_chain, pair_chain, solo_chain, trio, pair, solo, bomb,
  is_chain, is_hand_higher_than,
}
use robot_ddz.Cards.Points.{run_at, Points}
use robot_ddz.Cards.HandMap.{hand_at, one_if}
use robot_ddz.Search.Higher.{
  wants_kicker, find_higher_hand_from_points, higher_main, higher_chain, chain_number,
  single_number, higher_single,
}
use robot_ddz.Search.Beats.{is_plain, Beats, Answers, higher_single_lem, higher_chain_lem}

chain_order :
    (t : HandType) (g h : Hand)
    → is_plain t ≡ true
    → is_chain t ≡ true
    → g.type ≡ t
    → h.type ≡ t
    → is_hand_higher_than g h ≡ (if ltb h.key_point g.key_point then g.len == h.len else false)
unfolding is_hand_higher_than is_chain is_plain
chain_order solo_chain g h pl ch e f = rw (e, f) (ground arith)
chain_order pair_chain g h pl ch e f = rw (e, f) (ground arith)
chain_order trio_chain g h pl ch e f = rw (e, f) (ground arith)
chain_order t g h pl ch e f = cc

single_order :
    (t : HandType) (g h : Hand)
    → is_plain t ≡ true
    → is_chain t ≡ false
    → g.type ≡ t
    → h.type ≡ t
    → is_hand_higher_than g h ≡ ltb h.key_point g.key_point
unfolding is_hand_higher_than is_chain is_plain
single_order solo g h pl ch e f = rw (e, f) (ground arith)
single_order pair g h pl ch e f = rw (e, f) (ground arith)
single_order trio g h pl ch e f = rw (e, f) (ground arith)
single_order bomb g h pl ch e f = rw (e, f) (ground arith)
single_order t g h pl ch e f = cc

main_chain : (h : Hand) (c : Points) → is_chain h.type ≡ true → higher_main h c ≡ higher_chain h c
unfolding higher_main
main_chain h c e = rw e refl

main_single :
    (h : Hand) (c : Points) → is_chain h.type ≡ false → higher_main h c ≡ higher_single h c
unfolding higher_main
main_single h c e = rw e refl

chain_answer :
    (t : HandType) (k : ℕ)
    → 1 ≤ k
    → is_plain t ≡ true
    → is_chain t ≡ true
    → chain_number t ≡ k
    → ((g : Hand) (p : ℕ) → g.type ≡ t → hand_at g p ≡ run_at k g.key_point g.len p)
    → (h : Hand) (c : Points) → h.type ≡ t
    → 1 ≤ h.len
    → let g = (higher_main h c).0 in Beats c h g ⊎ (g.type ≡ nothing) × ((b : Hand) → ¬ Beats c h b)
chain_answer t k one pl ch num shape h c e long =
    let ch' : is_chain h.type ≡ true = rw e ch in
    rw (main_chain h c ch')
      (higher_chain_lem t k one ch num shape (λ g b f. chain_order t g b pl ch f) h c e long)

single_answer :
    (t : HandType) (k : ℕ)
    → 1 ≤ k
    → is_plain t ≡ true
    → is_chain t ≡ false
    → single_number t ≡ k
    → ((g : Hand) (p : ℕ) → g.type ≡ t → hand_at g p ≡ one_if k g.key_point p)
    → (h : Hand) (c : Points) → h.type ≡ t
    → let g = (higher_main h c).0 in Beats c h g ⊎ (g.type ≡ nothing) × ((b : Hand) → ¬ Beats c h b)
single_answer t k one pl ch num shape h c e =
    let ch' : is_chain h.type ≡ false = rw e ch in
    rw (main_single h c ch')
      (higher_single_lem t k one ch num shape (λ g b f. single_order t g b pl ch f) h c e)

plain_answer :
    (t : HandType) (h : Hand) (c : Points)
    → h.type ≡ t
    → is_plain t ≡ true
    → (is_chain t ≡ true → 1 ≤ h.len)
    → let g = (higher_main h c).0 in Beats c h g ⊎ (g.type ≡ nothing) × ((b : Hand) → ¬ Beats c h b)
unfolding is_plain
plain_answer solo h c e pl long =
    single_answer solo 1 (omega arith) (unfold is_plain in refl) (unfold is_chain in refl)
      (unfold single_number in refl) (λ g p f. rw f refl) h c e
plain_answer pair h c e pl long =
    single_answer pair 2 (omega arith) (unfold is_plain in refl) (unfold is_chain in refl)
      (unfold single_number in refl) (λ g p f. rw f refl) h c e
plain_answer trio h c e pl long =
    single_answer trio 3 (omega arith) (unfold is_plain in refl) (unfold is_chain in refl)
      (unfold single_number in refl) (λ g p f. rw f refl) h c e
plain_answer bomb h c e pl long =
    single_answer bomb 4 (omega arith) (unfold is_plain in refl) (unfold is_chain in refl)
      (unfold single_number in refl) (λ g p f. rw f refl) h c e
plain_answer solo_chain h c e pl long =
    chain_answer solo_chain 1 (omega arith) (unfold is_plain in refl) (unfold is_chain in refl)
      (unfold chain_number in refl) (λ g p f. rw f refl) h c e (long (unfold is_chain in refl))
plain_answer pair_chain h c e pl long =
    chain_answer pair_chain 2 (omega arith) (unfold is_plain in refl) (unfold is_chain in refl)
      (unfold chain_number in refl) (λ g p f. rw f refl) h c e (long (unfold is_chain in refl))
plain_answer trio_chain h c e pl long =
    chain_answer trio_chain 3 (omega arith) (unfold is_plain in refl) (unfold is_chain in refl)
      (unfold chain_number in refl) (λ g p f. rw f refl) h c e (long (unfold is_chain in refl))
plain_answer t h c e pl long = cc

no_kicker : (t u : HandType) → is_plain t ≡ true → (u ≡ t) ⊎ (u ≡ nothing) → wants_kicker u ≡ false
unfolding is_plain rank
no_kicker solo u pl (inl e) = rw e refl
no_kicker pair u pl (inl e) = rw e refl
no_kicker trio u pl (inl e) = rw e refl
no_kicker bomb u pl (inl e) = rw e refl
no_kicker solo_chain u pl (inl e) = rw e refl
no_kicker pair_chain u pl (inl e) = rw e refl
no_kicker trio_chain u pl (inl e) = rw e refl
no_kicker t u pl (inl e) = cc
no_kicker t u pl (inr e) = rw e refl

kind_found :
    (c : Points) (h g : Hand)
    → Beats c h g ⊎ (g.type ≡ nothing) × ((b : Hand) → ¬ Beats c h b)
    → (g.type ≡ h.type) ⊎ (g.type ≡ nothing)
kind_found c h g (inl beats) = inl beats.0
kind_found c h g (inr none_does) = inr none_does.0

-- For a hand of a kind without kickers, a chain having at least one point, findHigherHandFromPoints
-- gives a higher hand of that kind, within the deck and covered by the points, or it gives no hand,
-- and then no hand of that kind is higher, within the deck and covered.
pub find_higher_hand-Answers :
    (h : Hand) (c : Points) (lowest max_opp : ℕ) (other : Points)
    → is_plain h.type ≡ true
    → (is_chain h.type ≡ true → 1 ≤ h.len)
    → Answers c h (find_higher_hand_from_points h c lowest max_opp other)
unfolding find_higher_hand_from_points
find_higher_hand-Answers h c lowest max_opp other pl long =
    let answer = plain_answer h.type h c refl pl long in
    let g : Hand = (higher_main h c).0 in
    (g, rw (no_kicker h.type g.type pl (kind_found c h g answer)) refl, answer)
