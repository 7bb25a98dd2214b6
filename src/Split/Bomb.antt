-- ===== src/Split/Bomb.antt =====
-- `getBomb` and `getTrio`.
use robot_ddz.Prelude.{
  ℕ, zero, suc, ◌+◌, ◌≡◌, refl, ◌&&◌, [], ◌∷◌, ◌++◌, arith, ◌==◌, if◌then◌else◌, pos, eqb_ℤ,
}
use robot_ddz.Cards.Hands.{HandType, make_hand, nuke, bomb, trio, black_joker, red_joker, card_3}
use robot_ddz.Cards.Points.{NonNeg, update}
use robot_ddz.Cards.HandMap.{hands_of, hand_at, hands_at-append}
use robot_ddz.Split.Work.{Deal, Work, Conserves, ConservesAt, on_key, on_key-Conserves}

-- One round: a point with exactly `k` cards becomes a hand.
unfoldable pub take_one : ℕ → ℕ → HandType → Work → Work
take_one i k t w =
    if eqb_ℤ (w.cards i) (pos k)
    then record { cards = update w.cards i (pos 0); hands = w.hands ++ make_hand t i ∷ [] }
    else w

-- `for (i = CARD_3; i <= CARD_2; ++i)`, `n` rounds from `i` on.
unfoldable pub take_all : ℕ → ℕ → ℕ → HandType → Work → Work
unfolding take_one
take_all zero i k t w = w
take_all (suc n) i k t w = take_all n (i + 1) k t (take_one i k t w)

take_nuke : Work → Work
take_nuke w =
    if eqb_ℤ (w.cards black_joker) (pos 1) && eqb_ℤ (w.cards red_joker) (pos 1)
    then record {
      cards = update (update w.cards black_joker (pos 0)) red_joker (pos 0);
      hands = w.hands ++ make_hand nuke black_joker ∷ [];
    }
    else w

unfoldable pub get_bomb : Deal → Deal
unfolding take_all take_nuke
get_bomb d = on_key bomb (λ w. take_all 13 card_3 4 bomb (take_nuke w)) d

unfoldable pub get_trio : Deal → Deal
unfolding take_all
get_trio d = on_key trio (λ w. take_all 13 card_3 3 trio w) d

module _ (k : ℕ) (t : HandType)
    (fits : (i p : ℕ) → hand_at (make_hand t i) p ≡ (if i == p then k else 0)) where
  take_one-ConservesAt : (i : ℕ) (w : Work) (p : ℕ) → ConservesAt p w (take_one i k t w)
  unfolding take_one
  take_one-ConservesAt i w p =
      ground (arith, fits i p, hands_at-append w.hands (make_hand t i ∷ []) p)

  take_all-ConservesAt : (n i : ℕ) (w : Work) (p : ℕ) → ConservesAt p w (take_all n i k t w)
  unfolding take_all
  take_all-ConservesAt zero i w p = omega arith
  take_all-ConservesAt (suc n) i w p =
      omega (arith, take_one-ConservesAt i w p, take_all-ConservesAt n (i + 1) (take_one i k t w) p)

take_nuke-ConservesAt : (w : Work) (p : ℕ) → ConservesAt p w (take_nuke w)
unfolding take_nuke
take_nuke-ConservesAt w p =
    ground (arith, hands_at-append w.hands (make_hand nuke black_joker ∷ []) p)

pub get_bomb-Conserves : (d : Deal) → Conserves d (get_bomb d)
unfolding get_bomb
get_bomb-Conserves d =
    on_key-Conserves bomb (λ w. take_all 13 card_3 4 bomb (take_nuke w)) d
      λ w p. omega (
        arith,
        take_nuke-ConservesAt w p,
        take_all-ConservesAt 4 bomb (λ i p. refl) 13 card_3 (take_nuke w) p,
      )

pub get_trio-Conserves : (d : Deal) → Conserves d (get_trio d)
unfolding get_trio
get_trio-Conserves d =
    on_key-Conserves trio _ d λ w p. take_all-ConservesAt 3 trio (λ i p. refl) 13 card_3 w p

take_one-NonNeg :
    (k i : ℕ) (t : HandType) (w : Work) → NonNeg w.cards → NonNeg (take_one i k t w).cards
unfolding take_one
take_one-NonNeg k i t w h p = ground (arith, h p)

take_all-NonNeg :
    (n i k : ℕ) (t : HandType) (w : Work) → NonNeg w.cards → NonNeg (take_all n i k t w).cards
unfolding take_all
take_all-NonNeg zero i k t w h = h
take_all-NonNeg (suc n) i k t w h =
    take_all-NonNeg n (i + 1) k t (take_one i k t w) (take_one-NonNeg k i t w h)

take_nuke-NonNeg : (w : Work) → NonNeg w.cards → NonNeg (take_nuke w).cards
unfolding take_nuke
take_nuke-NonNeg w h p = ground (arith, h p)

pub get_bomb-NonNeg : (d : Deal) → NonNeg d.cards → NonNeg (get_bomb d).cards
unfolding get_bomb
get_bomb-NonNeg d h =
    let w : Work = record { cards = d.cards; hands = hands_of bomb d.hand_map } in
    take_all-NonNeg 13 card_3 4 bomb (take_nuke w) (take_nuke-NonNeg w h)

pub get_trio-NonNeg : (d : Deal) → NonNeg d.cards → NonNeg (get_trio d).cards
unfolding get_trio
get_trio-NonNeg d h =
    take_all-NonNeg 13 card_3 3 trio (record { cards = d.cards; hands = hands_of trio d.hand_map })
      h
