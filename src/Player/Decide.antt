-- ===== src/Player/Decide.antt =====
-- How `OGLordRobotAI` chooses a hand at level 0, and what it judges its position by
-- (new_robot_client/src/OGLordRobotAI.cpp).
use robot_ddz.Prelude.{
  ℕ, zero, suc, ◌+◌, Bool, true, false, List, [], ◌∷◌, Option, none, some, length, ltb, leb, ◌==◌,
  ◌&&◌, ◌||◌, if◌then◌else◌, ℤ, pos, eqb_ℤ, leb_ℤ, ltb_ℤ, ◌-ℤ◌,
}
use robot_ddz.Cards.Hands.{
  Hand, nothing, bomb, solo, is_type, is_chain, get_hand_count, black_joker, red_joker, card_2,
}
use robot_ddz.Cards.Points.{Points}
use robot_ddz.Cards.HandMap.{HandMap, hands_of}
use robot_ddz.Cards.Picks.{pick_hand}
use robot_ddz.Cards.Scan.{get_highest_point}
use robot_ddz.Choice.Summary.{HandsMapSummary}
use robot_ddz.Search.Higher.{no_hand}
use robot_ddz.Player.State.{Ai, seat_index, is_lord}
use robot_ddz.Player.Game.{sort_hand_map}

-- The first hand of each kind, in the order of the kinds.
abbrev pub fronts : HandMap → List Hand
fronts [] = []
fronts ((k, []) ∷ m) = fronts m
fronts ((k, h ∷ hs) ∷ m) = h ∷ fronts m

abbrev pub is_lower : Hand → Hand → Bool
is_lower best h =
    is_type best.type nothing
    || is_type best.type bomb
    || ltb h.key_point best.key_point
    || (h.key_point == best.key_point) && ltb (get_hand_count best) (get_hand_count h)

abbrev pub has_more : Hand → Hand → Bool
has_more best h =
    is_type best.type nothing
    || is_type best.type bomb
    || ltb (get_hand_count best) (get_hand_count h)
    || (get_hand_count h == get_hand_count best) && ltb h.key_point best.key_point

-- `findLowestHand`.
unfoldable pub find_lowest_hand : HandMap → Hand
find_lowest_hand m = pick_hand is_lower no_hand (fronts m)

-- `findMostCardsHandNotBomb`.
unfoldable pub find_most_cards_hand_not_bomb : HandMap → Hand
find_most_cards_hand_not_bomb m = pick_hand has_more no_hand (fronts m)

-- The loop of `findHigherHandNotBomb`.
abbrev pub first_over : Hand → List Hand → Hand
first_over cur [] = no_hand
first_over cur (h ∷ hs) =
    if ltb cur.key_point h.key_point && (if is_chain cur.type then h.len == cur.len else true)
    then h
    else first_over cur hs

-- `findHigherHandNotBomb`; the empty entry that `operator[]` may make is left out, as every reader
-- of the map passes over it.
unfoldable pub find_higher_hand_not_bomb : Hand → HandMap → Hand
find_higher_hand_not_bomb cur m = first_over cur (hands_of cur.type m)

abbrev pub front_or : Hand → List Hand → Hand
front_or d [] = d
front_or d (h ∷ hs) = h

-- `findHigherHand`. No type is both BOMB and NUKE, so the test on the current hand always holds.
unfoldable pub find_higher_hand : Hand → HandMap → Hand
unfolding find_higher_hand_not_bomb
find_higher_hand cur m =
    let h = find_higher_hand_not_bomb cur m in
    if is_type h.type nothing then front_or h (hands_of bomb m) else h

-- `takeOutLvl0`.
unfoldable pub take_out_lvl0 : Ai → Option (Ai × Hand)
unfolding sort_hand_map
take_out_lvl0 a = elim (sort_hand_map a) [
  | none ↦ none
  | some b ↦ some (
    b,
    (if eqb_ℤ b.cur_hand_seat b.ai_seat || is_lord b.ai_position && ltb_ℤ b.cur_hand_seat (pos 0)
        then find_lowest_hand b.hands_map
        else find_higher_hand b.cur_hand b.hands_map),
  )
]

-- The last hand of a vector.
abbrev pub back_key : ℕ → List Hand → ℕ
back_key d [] = d
back_key d (h ∷ hs) = back_key h.key_point hs

-- The loop of `isDanger`, over the points below `n`: the highest bomb of the others.
abbrev pub danger_below : ℕ → Points → List Hand → Bool
danger_below zero c bombs = false
danger_below (suc i) c bombs =
    let lower = danger_below i c bombs in
    if eqb_ℤ (c i) (pos 4) then (length bombs == 0) || ltb (back_key 0 bombs) i else lower

-- `isDanger`.
unfoldable pub is_danger : Ai → Bool
is_danger a =
    if eqb_ℤ (a.other_points black_joker) (pos 1) && eqb_ℤ (a.other_points red_joker) (pos 1)
    then true
    else danger_below (card_2 + 1) a.other_points (hands_of bomb a.hands_map)

abbrev pub low_solos : ℕ → List Hand → ℕ
low_solos top [] = 0
low_solos top (h ∷ hs) = (if ltb h.key_point top then 1 else 0) + low_solos top hs

-- `isGood`.
unfoldable pub is_good : HandsMapSummary → ℤ → ℤ → Ai → Bool
is_good s controls min_opp a =
    let few = ltb_ℤ (s.effective_hands_count -ℤ controls) (pos 2) in
    if eqb_ℤ min_opp (pos 1)
    then (let low =
          leb (low_solos (get_highest_point a.other_points) (hands_of solo a.hands_map)) 1 in
        if is_lord a.ai_position then few && low else low)
    else few

-- The loop of `isFirstHalf`, from the seat `i` on.
abbrev pub first_half_from : ℕ → ℕ → Ai → Bool
first_half_from zero i a = true
first_half_from (suc n) i a =
    let rest = first_half_from n (i + 1) a in
    if eqb_ℤ (pos i) a.lord_seat && leb_ℤ ((a.player_info i).total) (pos 10)
      || leb_ℤ ((a.player_info i).total) (pos 8)
    then false
    else rest

-- `isFirstHalf`.
unfoldable pub is_first_half : Ai → Bool
is_first_half a = first_half_from 3 0 a

-- `isGoodFarmer`.
unfoldable pub is_good_farmer : Ai → Option Bool
unfolding is_good is_first_half
is_good_farmer a = elim (seat_index a.lord_seat) [
  | none ↦ none
  | some l ↦
      let surplus = a.summary.effective_hands_count -ℤ a.control_num in
      some (
        if eqb_ℤ ((a.player_info l).total) (pos 1)
        then is_good a.summary a.control_num a.min_opp_number a
        else if is_first_half a
        then ltb_ℤ surplus (pos 5)
        else ltb_ℤ surplus (pos 3))
]
