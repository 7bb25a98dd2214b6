-- ===== src/Split/Normal.antt =====
-- `getNormalHand`: what is left after the chains goes into bombs, trios, pairs and solos.
use robot_ddz.Prelude.{
  ℕ, zero, suc, ◌+◌, ◌≤◌, ◌<◌, ◌≡◌, refl, ◌&&◌, inl, inr, ◌∙◌, arith, ◌==◌, if◌then◌else◌, ℤ, pos,
  pos_part, neg_part, eqb_ℤ, false, Bool-cases,
}
use robot_ddz.Cards.Hands.{
  HandType, make_hand, nuke, bomb, trio, pair, solo, black_joker, red_joker, card_3,
}
use robot_ddz.Cards.Points.{update}
use robot_ddz.Cards.HandMap.{push_hand, map_at-push_hand, hand_at}
use robot_ddz.Split.Work.{Deal, Conserves, Conserves-trans}

-- `if (cards[i] == k) { ...; handMap[t].push_back(hand); cards[i] = 0; }`
unfoldable pub grab : ℕ → HandType → ℕ → Deal → Deal
grab k t i d =
    if eqb_ℤ (d.cards i) (pos k)
    then record {
      cards = update d.cards i (pos 0);
      hand_map = push_hand t (make_hand t i) d.hand_map;
    }
    else d

-- One round of the loop; the first test is `if ... else if ...`.
unfoldable pub settle : ℕ → Deal → Deal
unfolding grab
settle i d =
    let d1 = if eqb_ℤ (d.cards i) (pos 4) then grab 4 bomb i d else grab 3 trio i d in
    grab 1 solo i (grab 2 pair i d1)

unfoldable pub settle_all : ℕ → ℕ → Deal → Deal
unfolding settle
settle_all zero i d = d
settle_all (suc n) i d = settle_all n (i + 1) (settle i d)

unfoldable pub grab_nuke : Deal → Deal
grab_nuke d =
    if eqb_ℤ (d.cards black_joker) (pos 1) && eqb_ℤ (d.cards red_joker) (pos 1)
    then record {
      cards = update (update d.cards black_joker (pos 0)) red_joker (pos 0);
      hand_map = push_hand bomb (make_hand nuke black_joker) d.hand_map;
    }
    else d

unfoldable pub get_normal_hand : Deal → Deal
unfolding settle_all grab_nuke
get_normal_hand d = settle_all 15 card_3 (grab_nuke d)

grab-Conserves :
    (k : ℕ) (t : HandType)
    → ((i p : ℕ) → hand_at (make_hand t i) p ≡ (if i == p then k else 0))
    → (i : ℕ) (d : Deal) → Conserves d (grab k t i d)
unfolding grab
grab-Conserves k t fits i d p =
    ground (arith, fits i p, map_at-push_hand t (make_hand t i) d.hand_map p)

settle-Conserves : (i : ℕ) (d : Deal) → Conserves d (settle i d)
unfolding settle
settle-Conserves i d p =
    let d1 : Deal = if eqb_ℤ (d.cards i) (pos 4) then grab 4 bomb i d else grab 3 trio i d in
    let d2 : Deal = grab 2 pair i d1 in
    ground (
      arith,
      grab-Conserves 4 bomb (λ i p. refl) i d p,
      grab-Conserves 3 trio (λ i p. refl) i d p,
      grab-Conserves 2 pair (λ i p. refl) i d1 p,
      grab-Conserves 1 solo (λ i p. refl) i d2 p,
    )

settle_all-Conserves : (n i : ℕ) (d : Deal) → Conserves d (settle_all n i d)
unfolding settle_all
settle_all-Conserves zero i d p = omega arith
settle_all-Conserves (suc n) i d p =
    omega (arith, settle-Conserves i d p, settle_all-Conserves n (i + 1) (settle i d) p)

grab_nuke-Conserves : (d : Deal) → Conserves d (grab_nuke d)
unfolding grab_nuke
grab_nuke-Conserves d p =
    ground (arith, map_at-push_hand bomb (make_hand nuke black_joker) d.hand_map p)

pub get_normal_hand-Conserves : (d : Deal) → Conserves d (get_normal_hand d)
unfolding get_normal_hand
get_normal_hand-Conserves d =
    Conserves-trans d (grab_nuke d) _ (grab_nuke-Conserves d)
      (settle_all-Conserves 15 card_3 (grab_nuke d))

-- A count that the four kinds can take up.
abbrev pub Countable : ℤ → Type 0
Countable z = (pos_part z ≤ 4) × (neg_part z ≡ 0)

grab_other :
    (k : ℕ) (t : HandType) (i p : ℕ) (d : Deal)
    → (i == p) ≡ false
    → (grab k t i d).cards p ≡ d.cards p
unfolding grab
grab_other k t i p d h = ground arith

settle_other : (i p : ℕ) (d : Deal) → (i == p) ≡ false → (settle i d).cards p ≡ d.cards p
unfolding settle grab
settle_other i p d h = ground arith

settle_self : (i p : ℕ) (d : Deal) → i ≡ p → Countable (d.cards p) → (settle i d).cards p ≡ pos 0
unfolding settle grab
settle_self i p d e h = rw e (ground arith)

settle_all_before : (n i p : ℕ) (d : Deal) → p < i → (settle_all n i d).cards p ≡ d.cards p
unfolding settle_all
settle_all_before zero i p d h = refl
settle_all_before (suc n) i p d h =
    ground (arith, settle_all_before n (i + 1) p (settle i d), settle_other i p d)

settle_all_clears :
    (n i p : ℕ) (d : Deal)
    → Countable (d.cards p)
    → i ≤ p
    → p < i + n
    → (settle_all n i d).cards p ≡ pos 0
unfolding settle_all
settle_all_clears zero i p d c h k = absurd (omega arith)
settle_all_clears (suc n) i p d c h k = elim (Bool-cases (i == p)) [
  | inl here ↦
      settle_all_before n (i + 1) p (settle i d) (ground arith) ∙ settle_self i p d (ground arith) c
  | inr later ↦
      settle_all_clears n (i + 1) p (settle i d) (rw (settle_other i p d later) c) (ground arith)
        (omega arith)
]

-- getNormalHand empties every point up to the red joker that holds between no card and four.
pub get_normal_hand_clears :
    (d : Deal) (p : ℕ) → Countable (d.cards p) → p ≤ red_joker → (get_normal_hand d).cards p ≡ pos 0
unfolding get_normal_hand grab_nuke
get_normal_hand_clears d p c h =
    settle_all_clears 15 card_3 p (grab_nuke d) (ground arith) (omega arith) (omega arith)
