-- ===== src/Cards/Picks.antt =====
-- The choices of a hand out of a map in new_robot_client/src/AIUtils.cpp.
pub mod Lowest
use robot_ddz.Prelude.{
  ℕ, Bool, true, false, List, [], ◌∷◌, ◌++◌, ltb, ◌==◌, ◌&&◌, ◌||◌, not, if◌then◌else◌,
}
use robot_ddz.Cards.Hands.{
  Hand, nothing, nuke, bomb, solo, is_type, get_hand_count, contains_control,
}
use robot_ddz.Cards.HandMap.{HandMap}

-- Each hand that is preferred to the best so far takes its place.
abbrev pub pick_hand : (Hand → Hand → Bool) → Hand → List Hand → Hand
pick_hand better best [] = best
pick_hand better best (h ∷ hs) = pick_hand better (if better best h then h else best) hs

-- The hands in the order in which the loops meet them.
abbrev pub all_hands : HandMap → List Hand
all_hands [] = []
all_hands ((k, hs) ∷ m) = hs ++ all_hands m

-- Those under keys other than BOMB and SOLO.
abbrev pub other_hands : HandMap → List Hand
other_hands [] = []
other_hands ((k, hs) ∷ m) =
    let rest = other_hands m in if is_type k bomb || is_type k solo then rest else hs ++ rest

-- The test that findLowestHandNotSolo and findLowestHandNotSoloAndNoControl share. The source
-- compares the count of the new hand with itself.
abbrev pub is_lower_hand : Hand → Hand → Bool
is_lower_hand best h =
    is_type best.type nothing
    || ltb h.key_point best.key_point
    || (h.key_point == best.key_point) && ltb (get_hand_count h) (get_hand_count h)

-- `findLowestHandNotSoloAndNoControl`
unfoldable pub find_lowest_hand_not_solo_and_no_control : HandMap → ℕ → Hand → Hand
find_lowest_hand_not_solo_and_no_control m lowest_control hand =
    pick_hand (λ best h. not (contains_control lowest_control h) && is_lower_hand best h)
      (record hand { type = nothing }) (other_hands m)

-- `findLowestHandNotSolo`
unfoldable pub find_lowest_hand_not_solo : HandMap → Hand → Hand
find_lowest_hand_not_solo m hand =
    pick_hand is_lower_hand (record hand { type = nothing }) (other_hands m)

-- The test of findMostCardsHand; here too a count is compared with itself.
abbrev pub has_most : Hand → Hand → Bool
has_most best h =
    is_type best.type nothing
    || is_type best.type nuke
    || is_type best.type bomb
    || ltb (get_hand_count h) (get_hand_count h)
    || (get_hand_count h == get_hand_count h) && ltb h.key_point best.key_point

-- `findMostCardsHand`
unfoldable pub find_most_cards_hand : HandMap → Hand → Hand
find_most_cards_hand m hand = pick_hand has_most (record hand { type = nothing }) (all_hands m)
