-- ===== src/Player/Take.antt =====
-- How `OGLordRobotAI` parts with its cards and takes them back
-- (new_robot_client/src/OGLordRobotAI.cpp and, for `IsSameCardsInfo`, AIUtils.cpp).
pub mod Same
pub mod Parted
use robot_ddz.Prelude.{
  erase_first, ℕ, suc, ◌+◌, Bool, true, false, List, [], ◌∷◌, ◌++◌, Option, none, some, length, ltb,
  ◌==◌, if◌then◌else◌, ℤ, pos, negsuc, eqb_ℤ, leb_ℤ, ltb_ℤ, ◌-ℤ◌, ◌&&◌,
}
use robot_ddz.Cards.Hands.{Hand}
use robot_ddz.Cards.Points.{Points, update, card_to_point}
use robot_ddz.Recognize.{hand_to_points_array}
use robot_ddz.Player.State.{Ai}

-- The loop of `takeOutHand`: the cards taken and those kept. A card of no point is a read outside
-- the array.
unfoldable pub take_cards : Points → List ℤ → Option (List ℤ × List ℤ)
take_cards c [] = some ([], [])
take_cards c (card ∷ cards) = elim (card_to_point card) [
  | negsuc n ↦ none
  | pos p ↦
      if ltb_ℤ (pos 0) (c p)
      then elim (take_cards (update c p (c p -ℤ pos 1)) cards) [
        | none ↦ none
        | some (taken, kept) ↦ some (card ∷ taken, kept)
      ]
      else elim (take_cards c cards) [
        | none ↦ none
        | some (taken, kept) ↦ some (taken, card ∷ kept)
      ]
]

-- `takeOutHand`, with the cards that it gives back.
unfoldable pub take_out_hand : Hand → Ai → Option (Ai × List ℤ)
take_out_hand h a = elim (take_cards (hand_to_points_array h) a.ai_cards) [
  | none ↦ none
  | some (taken, kept) ↦ some (record a { last_take_out_cards = taken; ai_cards = kept }, taken)
]

-- `RecoveryHandCards`.
unfoldable pub recovery_hand_cards : Ai → Ai
recovery_hand_cards a = record a { ai_cards = a.ai_cards ++ a.last_take_out_cards }

-- `std::sort` of the cards.
pub insert_card : ℤ → List ℤ → List ℤ
insert_card x [] = x ∷ []
insert_card x (y ∷ ys) = let rest = insert_card x ys in if leb_ℤ x y then x ∷ y ∷ ys else y ∷ rest

pub sort_cards : List ℤ → List ℤ
sort_cards [] = []
sort_cards (x ∷ xs) = insert_card x (sort_cards xs)

pub all_same : List ℤ → List ℤ → Bool
all_same [] ys = true
all_same (x ∷ xs) [] = false
all_same (x ∷ xs) (y ∷ ys) = eqb_ℤ x y && all_same xs ys

-- `IsSameCardsInfo`.
unfoldable pub is_same_cards_info : List ℤ → List ℤ → Bool
unfolding sort_cards all_same
is_same_cards_info xs ys =
    if length xs == length ys then all_same (sort_cards xs) (sort_cards ys) else false

-- `IsLastTakeOutCards`.
unfoldable pub is_last_take_out_cards : List ℤ → Ai → Bool
is_last_take_out_cards cards a = is_same_cards_info a.last_take_out_cards cards

-- `find` and `erase` of each card.
abbrev pub erase_cards : List ℤ → List ℤ → List ℤ
erase_cards [] held = held
erase_cards (x ∷ xs) held = erase_cards xs (erase_first x held)

-- `RemoveExtraCards`.
unfoldable pub remove_extra_cards : List ℤ → Ai → Ai
remove_extra_cards cards a = record a { ai_cards = erase_cards cards a.ai_cards }
