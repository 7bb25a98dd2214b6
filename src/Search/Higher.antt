-- ===== src/Search/Higher.antt =====
-- `findHigherHandFromPoints`: a hand of the same kind that beats another, from the points.
use robot_ddz.Prelude.{
  ℕ, zero, suc, ◌+◌, ◌-◌, Bool, true, false, ◌||◌, Option, some, none, ltb, leb, ◌==◌,
  if◌then◌else◌, pos, leb_ℤ,
}
use robot_ddz.Cards.Hands.{
  Hand, HandType, nothing, trio_chain_pair, trio_chain_solo, pair_chain, solo_chain, trio_pair,
  trio_solo, trio, pair, solo, make_hand, card_a, card_3, red_joker, is_type, is_chain,
}
use robot_ddz.Cards.Points.{Points, take_run}
use robot_ddz.Cards.Scan.{first_up}
use robot_ddz.Search.Kickers.{find_kicker_from_points}

-- `do { end = i; if (end - start == len - 1) break; ++i; } while (i <= CARD_A && points[i] >= k)`
-- with `n = CARD_A - i`: the end.
unfoldable pub run_to : ℕ → ℕ → ℕ → ℕ → ℕ → Points → ℕ
run_to zero len k start i c = i
run_to (suc n) len k start i c =
    let further = run_to n len k start (i + 1) c in
    if i + 1 == start + len then i else if leb_ℤ (pos k) (c (i + 1)) then further else i

-- `while (i <= maxKey)`: where the first run of `len` points begins that have `k` cards each. Each
-- round moves on, so as many rounds as points suffice.
unfoldable pub find_chain : ℕ → ℕ → ℕ → ℕ → Points → Option ℕ
unfolding run_to
find_chain zero len k i c = none
find_chain (suc fuel) len k i c =
    let end = run_to (card_a - i) len k i i c in
    let after_run = find_chain fuel len k (end + 2) c in
    let after_point = find_chain fuel len k (i + 1) c in
    if leb (i + len) (card_a + 1)
    then (if leb_ℤ (pos k) (c i)
        then (if end + 1 == i + len then some i else after_run)
        else after_point)
    else none

-- Cards of a point that the kind asks for.
unfoldable pub chain_number : HandType → ℕ
chain_number solo_chain = 1
chain_number pair_chain = 2
chain_number _ = 3

unfoldable pub single_number : HandType → ℕ
single_number solo = 1
single_number pair = 2
single_number trio = 3
single_number trio_solo = 3
single_number trio_pair = 3
single_number _ = 4

-- `Hand higher; higher.type = NOTHING;`
abbrev pub no_hand : Hand
no_hand = make_hand nothing 0

unfoldable pub higher_chain : Hand → Points → Hand × Points
higher_chain h c = elim (find_chain 12 h.len (chain_number h.type) (h.key_point + 1) c) [
  | none ↦ (no_hand, c)
  | some s ↦ (
    (if ltb card_3 s
        then record no_hand { type = h.type; key_point = s; len = h.len }
        else no_hand),
    take_run h.len (chain_number h.type) s c,
  )
]

unfoldable pub higher_single : Hand → Points → Hand × Points
higher_single h c =
    elim (first_up (red_joker - h.key_point) (h.key_point + 1)
      (λ i. leb_ℤ (pos (single_number h.type)) (c i))) [
        | none ↦ (no_hand, c)
        | some s ↦
            (record no_hand { type = h.type; key_point = s }, take_run 1 (single_number h.type) s c)
      ]

-- The hand without its kickers, and the cards that it leaves.
unfoldable pub higher_main : Hand → Points → Hand × Points
unfolding higher_chain higher_single is_chain
higher_main h c = if is_chain h.type then higher_chain h c else higher_single h c

abbrev pub wants_kicker : HandType → Bool
wants_kicker t =
    is_type t trio_solo
    || is_type t trio_pair
    || is_type t trio_chain_solo
    || is_type t trio_chain_pair

abbrev pub with_kicker : Hand × Bool → Hand
with_kicker (g, true) = g
with_kicker (g, false) = record g { type = nothing }

unfoldable pub find_higher_hand_from_points : Hand → Points → ℕ → ℕ → Points → Option Hand
unfolding higher_main
find_higher_hand_from_points h c lowest max_opp other =
    let (g, left) = higher_main h c in
    if wants_kicker g.type
    then elim (find_kicker_from_points left lowest max_opp other g) [
      | none ↦ none
      | some found ↦ some (with_kicker found)
    ]
    else some g
