-- ===== src/Cards/Hands.antt =====
-- The cards' points, the kinds of hands and a hand (new_robot_client/include/RobotConfig.h), and
-- the functions on one hand of new_robot_client/src/AIUtils.cpp.
use robot_ddz.Prelude.{
  ℕ, zero, suc, ◌+◌, ◌-◌, ◌*◌, Bool, true, false, ◌&&◌, ◌||◌, List, [], ◌∷◌, ltb, leb, ◌==◌,
  if◌then◌else◌, get_or,
}

abbrev pub card_3 : ℕ
card_3 = 0

abbrev pub card_t : ℕ
card_t = 7

abbrev pub card_q : ℕ
card_q = 9

abbrev pub card_k : ℕ
card_k = 10

abbrev pub card_a : ℕ
card_a = 11

abbrev pub card_2 : ℕ
card_2 = 12

abbrev pub black_joker : ℕ
black_joker = 13

abbrev pub red_joker : ℕ
red_joker = 14

-- `CARD_POINT_NUM`: the points 0 to 14 and the wild card.
abbrev pub card_point_num : ℕ
card_point_num = 16

pub data HandType : Type 0 where
  nothing trio_chain_pair trio_chain_solo trio_chain pair_chain solo_chain : HandType
  trio_pair trio_solo trio pair solo four_dual_pair four_dual_solo lz_bomb bomb nuke lz : HandType

-- The enumeration's values, which order the keys of a hand map.
unfoldable pub rank : HandType → ℕ
rank nothing = 0
rank trio_chain_pair = 1
rank trio_chain_solo = 2
rank trio_chain = 3
rank pair_chain = 4
rank solo_chain = 5
rank trio_pair = 6
rank trio_solo = 7
rank trio = 8
rank pair = 9
rank solo = 10
rank four_dual_pair = 11
rank four_dual_solo = 12
rank lz_bomb = 13
rank bomb = 14
rank nuke = 15
rank lz = 16

-- The fields `prob`, `laizi_num` and `m_vecReplaceCards` are used by none of the functions here.
-- A field that the source leaves unset is 0.
pub record Hand : Type 0 where
  pub type : HandType
  pub key_point : ℕ
  pub len : ℕ
  pub kicker : List ℕ

abbrev pub no_kicker : List ℕ
no_kicker = 0 ∷ 0 ∷ 0 ∷ 0 ∷ 0 ∷ []

-- `Hand hand; hand.type = t; hand.keyPoint = k;`
abbrev pub make_hand : HandType → ℕ → Hand
make_hand t k = record { type = t; key_point = k; len = 0; kicker = no_kicker }

abbrev pub make_chain : HandType → ℕ → ℕ → Hand
make_chain t k n = record { type = t; key_point = k; len = n; kicker = no_kicker }

abbrev pub kicker_at : Hand → ℕ → ℕ
kicker_at h i = get_or h.kicker i 0

count_of : HandType → ℕ → ℕ
count_of solo len = 1
count_of pair len = 2
count_of nuke len = 2
count_of trio len = 3
count_of bomb len = 4
count_of trio_solo len = 4
count_of trio_pair len = 5
count_of four_dual_solo len = 6
count_of four_dual_pair len = 8
count_of solo_chain len = len
count_of pair_chain len = 2 * len
count_of trio_chain len = 3 * len
count_of trio_chain_solo len = 4 * len
count_of trio_chain_pair len = 5 * len
count_of _ len = 0

-- `getCardNumber` and `getHandCount` have the same cases.
unfoldable pub get_card_number : Hand → ℕ
unfolding count_of
get_card_number h = count_of h.type h.len

unfoldable pub get_hand_count : Hand → ℕ
unfolding count_of
get_hand_count h = count_of h.type h.len

unfoldable pub is_chain : HandType → Bool
is_chain solo_chain = true
is_chain pair_chain = true
is_chain trio_chain = true
is_chain trio_chain_solo = true
is_chain trio_chain_pair = true
is_chain _ = false

abbrev pub is_type : HandType → HandType → Bool
is_type a b = rank a == rank b

unfoldable pub is_hand_higher_than : Hand → Hand → Bool
unfolding is_chain rank
is_hand_higher_than h0 h1 =
    if is_type h1.type nuke
    then false
    else if is_type h1.type bomb
    then is_type h0.type nuke || (is_type h0.type bomb && ltb h1.key_point h0.key_point)
    else if is_type h0.type nuke || is_type h0.type bomb
    then true
    else if is_type h0.type h1.type && ltb h1.key_point h0.key_point
    then (if is_chain h0.type then h0.len == h1.len else true)
    else false

-- Whether one of the first `n` kickers, from the `i`-th on, is a control.
any_kicker : ℕ → ℕ → ℕ → Hand → Bool
any_kicker zero i lowest h = false
any_kicker (suc n) i lowest h = leb lowest (kicker_at h i) || any_kicker n (i + 1) lowest h

contains_control_kind : HandType → ℕ → Hand → Bool
unfolding any_kicker
contains_control_kind solo lowest h = leb lowest h.key_point
contains_control_kind pair lowest h = leb lowest h.key_point
contains_control_kind trio lowest h = leb lowest h.key_point
contains_control_kind solo_chain lowest h = leb (lowest + 1) (h.key_point + h.len)
contains_control_kind pair_chain lowest h = leb (lowest + 1) (h.key_point + h.len)
contains_control_kind trio_chain lowest h = leb (lowest + 1) (h.key_point + h.len)
contains_control_kind trio_chain_solo lowest h =
    leb (lowest + 1) (h.key_point + h.len) || any_kicker h.len 0 lowest h
contains_control_kind trio_chain_pair lowest h =
    leb (lowest + 1) (h.key_point + h.len) || any_kicker h.len 0 lowest h
contains_control_kind trio_solo lowest h = leb lowest h.key_point || leb lowest (kicker_at h 0)
contains_control_kind trio_pair lowest h = leb lowest h.key_point || leb lowest (kicker_at h 0)
contains_control_kind _ lowest h = true

unfoldable pub contains_control : ℕ → Hand → Bool
unfolding contains_control_kind
contains_control lowest h = contains_control_kind h.type lowest h

-- `w` for each of the `n` kickers from the `i`-th on that is a control.
kicker_control : ℕ → ℕ → ℕ → ℕ → Hand → ℕ
kicker_control zero i w lowest h = 0
kicker_control (suc n) i w lowest h =
    (if leb lowest (kicker_at h i) then w else 0) + kicker_control n (i + 1) w lowest h

abbrev if_control : ℕ → Hand → ℕ → ℕ
if_control lowest h w = if leb lowest h.key_point then w else 0

-- `max(keyPoint + len - lowestControl + 1, 0)`.
abbrev chain_control : ℕ → Hand → ℕ
chain_control lowest h = h.key_point + h.len + 1 - lowest

cal_hand_control_kind : HandType → Hand → ℕ → ℕ
unfolding kicker_control
cal_hand_control_kind solo h lowest = if_control lowest h 1
cal_hand_control_kind pair h lowest = if_control lowest h 2
cal_hand_control_kind trio h lowest = if_control lowest h 3
cal_hand_control_kind trio_solo h lowest = if_control lowest h 3 + kicker_control 1 0 1 lowest h
cal_hand_control_kind trio_pair h lowest = if_control lowest h 3 + kicker_control 1 0 2 lowest h
cal_hand_control_kind four_dual_solo h lowest =
    if_control lowest h 4 + kicker_control 2 0 1 lowest h
cal_hand_control_kind four_dual_pair h lowest =
    if_control lowest h 4 + kicker_control 2 0 2 lowest h
cal_hand_control_kind solo_chain h lowest = chain_control lowest h
cal_hand_control_kind pair_chain h lowest = 2 * chain_control lowest h
cal_hand_control_kind trio_chain h lowest = 3 * chain_control lowest h
cal_hand_control_kind trio_chain_solo h lowest =
    3 * chain_control lowest h + kicker_control h.len 0 1 lowest h
cal_hand_control_kind trio_chain_pair h lowest =
    3 * chain_control lowest h + kicker_control h.len 0 2 lowest h
cal_hand_control_kind _ h lowest = 0

unfoldable pub cal_hand_control : Hand → ℕ → ℕ
unfolding cal_hand_control_kind
cal_hand_control h lowest = cal_hand_control_kind h.type h lowest
