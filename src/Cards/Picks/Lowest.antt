-- ===== src/Cards/Picks/Lowest.antt =====
-- What findMostCardsHand of new_robot_client/src/AIUtils.cpp finds.
use mathlib.Core.Path.{subst}
use mathlib.Core.List.{Memᴰ}
use mathlib.Core.List.Memᴰ.{head, tail}
use robot_ddz.Prelude.{
  ℕ, ◌≤◌, ◌≡◌, refl, sym, true, false, Bool-cases, inl, inr, List, [], ◌∷◌, arith, ltb, ◌==◌,
}
use robot_ddz.Cards.Hands.{Hand, nothing, nuke, bomb, is_type, rank, get_hand_count}
use robot_ddz.Cards.HandMap.{HandMap}
use robot_ddz.Cards.Picks.{pick_hand, all_hands, has_most, find_most_cards_hand}

-- A hand of a kind other than NOTHING, NUKE and BOMB.
abbrev pub Plain : Hand → Type 0
Plain h =
    (is_type h.type nothing ≡ false) × (is_type h.type nuke ≡ false) × (is_type h.type bomb ≡ false)

abbrev pub AllPlain : List Hand → Type 0
AllPlain [] = Unit
AllPlain (h ∷ hs) = Plain h × AllPlain hs

-- No hand of the list has a key point below `k`.
abbrev pub NoneBelow : ℕ → List Hand → Type 0
NoneBelow k [] = Unit
NoneBelow k (h ∷ hs) = (k ≤ h.key_point) × NoneBelow k hs

abbrev pub IsLowest : List Hand → Hand → Type 0
IsLowest hs r = Memᴰ r hs × NoneBelow r.key_point hs

self_below : (n : ℕ) → ltb n n ≡ false
self_below n = ground arith

self_equal : (n : ℕ) → (n == n) ≡ true
self_equal n = ground arith

has_most_lem : (best h : Hand) → Plain best → has_most best h ≡ ltb h.key_point best.key_point
has_most_lem best h (some_hand, no_nuke, no_bomb) =
    rw (some_hand, no_nuke, no_bomb, self_below (get_hand_count h), self_equal (get_hand_count h))
      refl

pick_hand-IsLowest :
    (best : Hand) (hs : List Hand)
    → Plain best
    → AllPlain hs
    → IsLowest (best ∷ hs) (pick_hand has_most best hs)
pick_hand-IsLowest best [] plain all_plain = (head refl, (ground arith, tt))
pick_hand-IsLowest best (h ∷ hs) plain (plain_h, all_plain) =
    elim (Bool-cases (ltb h.key_point best.key_point)) [
      | inl lower ↦
          let step : pick_hand has_most best (h ∷ hs) ≡ pick_hand has_most h hs =
            rw (has_most_lem best h plain, lower) refl in
          let (found, (least, others)) = pick_hand-IsLowest h hs plain_h all_plain in
          subst (IsLowest (best ∷ h ∷ hs)) (sym step) (tail found, (ground arith, (least, others)))
      | inr higher ↦
          let step : pick_hand has_most best (h ∷ hs) ≡ pick_hand has_most best hs =
            rw (has_most_lem best h plain, higher) refl in
          let (found, (least, others)) = pick_hand-IsLowest best hs plain all_plain in
          subst (IsLowest (best ∷ h ∷ hs)) (sym step) (past found, (least, (ground arith, others)))
    ]
  where
    past : {r : Hand} → Memᴰ r (best ∷ hs) → Memᴰ r (best ∷ h ∷ hs)
    past (head e) = head e
    past (tail m) = tail (tail m)

-- When a map holds a hand, and none of the kinds NOTHING, NUKE and BOMB, findMostCardsHand gives
-- one of its hands, and no hand of the map has a lower key point, whatever their numbers of cards.
pub find_most_cards_hand-IsLowest :
    (m : HandMap) (hand h : Hand) (hs : List Hand)
    → all_hands m ≡ h ∷ hs
    → AllPlain (h ∷ hs)
    → IsLowest (all_hands m) (find_most_cards_hand m hand)
unfolding find_most_cards_hand rank
find_most_cards_hand-IsLowest m hand h hs held (plain, all_plain) =
    rw (find_most_cards_hand, held) (pick_hand-IsLowest h hs plain all_plain)
