-- ===== src/Recognize.antt =====
-- Hands and points: `handToPointsArray` and `getHand` (new_robot_client/src/AIUtils.cpp).
pub mod RoundTrip
use robot_ddz.Prelude.{
  ℕ, zero, suc, ◌+◌, ◌-◌, ◌≡◌, Bool, true, false, ◌&&◌, ◌||◌, List, [], ◌∷◌, Option, some, none,
  ltb, leb, ◌==◌, if◌then◌else◌, ℤ, pos, negsuc, eqb_ℤ, ltb_ℤ, length, get_or,
}
use robot_ddz.Cards.Hands.{
  HandType, nothing, trio_chain_pair, trio_chain_solo, trio_chain, pair_chain, solo_chain,
  trio_pair, trio_solo, trio, pair, solo, four_dual_pair, four_dual_solo, bomb, nuke, Hand,
  kicker_at, black_joker, red_joker, card_a, card_3, card_point_num,
}
use robot_ddz.Cards.Points.{Points, no_points, update, sum_from}

abbrev put_kicker : Option ℕ → ℕ → Points → Points
put_kicker none p c = c
put_kicker (some w) p c = update c p (pos w)

-- `for (i = 0; i < hand.len; ++i)`: `k` cards of each point of the chain and, for the kinds with
-- kickers, `w` of each kicker.
pub fill_chain : ℕ → ℕ → ℕ → Option ℕ → Hand → Points → Points
fill_chain zero i k w h c = c
fill_chain (suc n) i k w h c =
    fill_chain n (i + 1) k w h (put_kicker w (kicker_at h i) (update c (h.key_point + i) (pos k)))

unfoldable pub fill_kind : HandType → Hand → Points → Points
unfolding fill_chain
fill_kind nuke h c = update (update c black_joker (pos 1)) red_joker (pos 1)
fill_kind solo h c = update c h.key_point (pos 1)
fill_kind pair h c = update c h.key_point (pos 2)
fill_kind trio h c = update c h.key_point (pos 3)
fill_kind trio_solo h c = update (update c h.key_point (pos 3)) (kicker_at h 0) (pos 1)
fill_kind trio_pair h c = update (update c h.key_point (pos 3)) (kicker_at h 0) (pos 2)
fill_kind bomb h c = update c h.key_point (pos 4)
fill_kind four_dual_solo h c =
    update (update (update c h.key_point (pos 4)) (kicker_at h 0) (pos 1)) (kicker_at h 1) (pos 1)
fill_kind four_dual_pair h c =
    update (update (update c h.key_point (pos 4)) (kicker_at h 0) (pos 2)) (kicker_at h 1) (pos 2)
fill_kind solo_chain h c = fill_chain h.len 0 1 none h c
fill_kind pair_chain h c = fill_chain h.len 0 2 none h c
fill_kind trio_chain h c = fill_chain h.len 0 3 none h c
fill_kind trio_chain_solo h c = fill_chain h.len 0 3 (some 1) h c
fill_kind trio_chain_pair h c = fill_chain h.len 0 3 (some 2) h c
fill_kind _ h c = c

unfoldable pub hand_to_points_array : Hand → Points
unfolding fill_kind
hand_to_points_array h = fill_kind h.type h no_points

-- `sortedCard[k - 1]`: the points with exactly `k` cards, of the `n` points from `i` on.
unfoldable pub points_with : ℕ → ℕ → ℕ → Points → List ℕ
points_with zero i k c = []
points_with (suc n) i k c =
    let rest = points_with n (i + 1) k c in if eqb_ℤ (c i) (pos k) then i ∷ rest else rest

-- Whether one of the `n` points from `i` on has more than four cards, where `sortedCard` has no row.
unfoldable pub overfull : ℕ → ℕ → Points → Bool
overfull zero i c = false
overfull (suc n) i c = ltb_ℤ (pos 4) (c i) || overfull n (i + 1) c

abbrev pub front : List ℕ → ℕ
front [] = 0
front (x ∷ xs) = x

abbrev pub back : List ℕ → ℕ
back [] = 0
back (x ∷ []) = x
back (x ∷ y ∷ xs) = back (y ∷ xs)

-- `hand->kicker[i] = k[i]` for every `i` within the array; `overlong` sees to those outside it.
abbrev pub overwrite : List ℕ → List ℕ → List ℕ
overwrite [] old = old
overwrite (x ∷ xs) [] = []
overwrite (x ∷ xs) (y ∷ old) = x ∷ overwrite xs old

abbrev keyed : HandType → ℕ → Hand → Hand
keyed t k h = record h { type = t; key_point = k }

abbrev chained : HandType → List ℕ → Hand → Hand
chained t xs h = record h { type = t; key_point = front xs; len = length xs }

abbrev kicked : List ℕ → Hand → Hand
kicked xs h = record h { kicker = overwrite xs h.kicker }

abbrev empty : List ℕ → Bool
empty xs = length xs == 0

-- Three of each of some neighbouring points.
pub trio_chain_hand : List ℕ → List ℕ → List ℕ → Hand → Hand
trio_chain_hand s1 s2 s3 h =
    if empty s1 && empty s2
    then chained trio_chain s3 h
    else if (length s1 == length s3) && empty s2
    then kicked s1 (chained trio_chain_solo s3 h)
    else if (length s2 == length s3) && empty s1
    then kicked s2 (chained trio_chain_pair s3 h)
    else h

pub small_hand : List ℕ → List ℕ → List ℕ → Hand → Hand
small_hand s1 s2 s3 h =
    if length s3 == 1
    then (if empty s2 && empty s1
        then keyed trio (front s3) h
        else if (length s2 == 1) && empty s1
        then kicked (front s2 ∷ []) (keyed trio_pair (front s3) h)
        else if empty s2 && (length s1 == 1)
        then kicked (front s1 ∷ []) (keyed trio_solo (front s3) h)
        else h)
    else if empty s3 && (length s2 == 1) && empty s1
    then keyed pair (front s2) h
    else if empty s3 && empty s2 && (length s1 == 1)
    then keyed solo (front s1) h
    else h

pub four_hand : List ℕ → List ℕ → List ℕ → ℕ → Hand → Hand
four_hand s1 s2 s3 four h =
    if empty s3 && empty s2 && empty s1
    then keyed bomb four h
    else if empty s3 && (length s2 == 2) && empty s1
    then kicked s2 (keyed four_dual_pair four h)
    else if empty s3 && empty s2 && (length s1 == 2)
    then kicked s1 (keyed four_dual_solo four h)
    else h

-- Trios of neighbouring points, up to the ace.
abbrev pub are_trio_chain : List ℕ → Bool
are_trio_chain s3 =
    leb 2 (length s3) && leb (back s3) card_a && (back s3 + 1 == front s3 + length s3)

-- A chain of more than five trios with as many kickers, which are written outside the array.
unfoldable pub overlong : List ℕ → List ℕ → List ℕ → List ℕ → Bool
overlong s1 s2 s3 s4 =
    empty s4
    && are_trio_chain s3
    && ltb 5 (length s3)
    && ((length s1 == length s3) && empty s2 || (length s2 == length s3) && empty s1)

-- The rows of `sortedCard` decide. Only the chain of trios is tested for neighbouring points.
unfoldable pub classify : List ℕ → List ℕ → List ℕ → List ℕ → Hand → Hand
unfolding trio_chain_hand small_hand four_hand
classify s1 s2 s3 s4 h =
    if empty s4
    then (if are_trio_chain s3
        then trio_chain_hand s1 s2 s3 h
        else if empty s3 && empty s1 && leb 3 (length s2) && leb (back s2) card_a
        then chained pair_chain s2 h
        else if empty s3 && empty s2 && leb 5 (length s1) && leb (back s1) card_a
        then chained solo_chain s1 h
        else small_hand s1 s2 s3 h)
    else if length s4 == 1
    then four_hand s1 s2 s3 (front s4) h
    else h

-- `getHand(points, &old)`: the fields that the kind does not use keep what they held.
unfoldable pub get_hand : Points → Hand → Option Hand
get_hand c old =
    let blank = record old { type = nothing } in
    if eqb_ℤ (c black_joker) (pos 1) && eqb_ℤ (c red_joker) (pos 1)
    then some (
        if eqb_ℤ (sum_from card_point_num 0 c) (pos 2) then keyed nuke black_joker blank else blank)
    else let s1 = points_with 15 card_3 1 c in
      let s2 = points_with 15 card_3 2 c in
      let s3 = points_with 15 card_3 3 c in
      let s4 = points_with 15 card_3 4 c in
      if overfull 15 card_3 c || overlong s1 s2 s3 s4
      then none
      else some (classify s1 s2 s3 s4 blank)
