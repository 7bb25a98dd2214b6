-- ===== src/Split/Chains.antt =====
-- `getTrioChain`, `getPairChain` and `optimizePairChain`.
pub mod Loop
pub mod Conservation
use robot_ddz.Prelude.{
  ℕ, zero, suc, ◌+◌, ◌-◌, ◌*◌, ◌≤◌, ◌<◌, ◌≡◌, refl, ◌&&◌, ◌⊎◌, inl, inr, List, [], ◌∷◌, ◌++◌, arith,
  ltb, leb, ◌==◌, if◌then◌else◌, ℤ, pos, pos_part, neg_part, Leaves, leb_ℤ, ltb_ℤ, Bool, true,
  false, Bool-cases, Option, none, some,
}
use robot_ddz.Cards.Hands.{
  HandType, Hand, make_chain, trio_chain, pair_chain, card_3, card_a, card_k, card_q,
}
use robot_ddz.Cards.Points.{Points, update, take_run, take_run_lem, run_at}
use robot_ddz.Cards.HandMap.{
  hands_of, set_hands, hands_at, hand_at, hands_at-append, map_at, map_at-set_hands,
}
use robot_ddz.Split.Work.{Deal, Work, Conserves, ConservesAt, on_key?}

-- The first point from `i` on, at most `n` further, where fewer than `k` cards are.
-- `while (i <= CARD_A && cards[i] >= k) ++i;` with `n = CARD_A + 1 - i`.
unfoldable pub run_end : ℕ → ℕ → ℕ → Points → ℕ
run_end zero k i c = i
run_end (suc n) k i c = if leb_ℤ (pos k) (c i) then run_end n k (i + 1) c else i

-- What the two loops do at `i`, and where they go on: the inner loop has moved `i` behind the
-- run, and `++i` skips one more point.
pub run_step : ℕ → (ℕ → ℕ → Work → Work) → ℕ → Work → ℕ × Work
unfolding run_end
run_step k use_run i w =
    if leb_ℤ (pos k) (w.cards i)
    then (let end = run_end (card_a - i) k (i + 1) w.cards in (end + 1, use_run i end w))
    else (i + 1, w)

-- `while (i <= last)`, on fuel.
pub run_loop : (ℕ → Work → ℕ × Work) → ℕ → ℕ → ℕ → Work → Option Work
run_loop step last zero i w = none
run_loop step last (suc fuel) i w =
    let next = step i w in
    let rest = run_loop step last fuel next.0 next.1 in if leb i last then rest else some w

-- The run from `i` to before `end` becomes a chain if it is long enough.
pub take_trio_chain : ℕ → ℕ → Work → Work
take_trio_chain i end w =
    if leb (i + 2) end
    then record {
      cards = take_run (end - i) 3 i w.cards;
      hands = w.hands ++ make_chain trio_chain i (end - i) ∷ [];
    }
    else w

unfoldable pub get_trio_chain : Deal → Option Deal
unfolding run_step run_loop take_trio_chain
get_trio_chain d =
    on_key? trio_chain (run_loop (run_step 3 take_trio_chain) card_k (card_k + 2) card_3) d

-- `while (hand.len > 3)` with `hand.len = n + 3`: the key and the length that are left.
pub shrink_pair_chain : ℕ → ℕ → Points → ℕ × ℕ
shrink_pair_chain zero key c = (key, 3)
shrink_pair_chain (suc n) key c = elim (ltb_ℤ (c key) (c (key + n + 3))) [
  | true ↦ shrink_pair_chain n key c
  | false ↦ elim (ltb_ℤ (pos 2) (c key)) [
    | true ↦ shrink_pair_chain n (key + 1) c
    | false ↦ (key, n + 4)
  ]
]

unfoldable pub optimize_pair_chain : Points → Hand → Hand
unfolding shrink_pair_chain
optimize_pair_chain c h =
    if ltb 3 h.len
    then (let left = shrink_pair_chain (h.len - 3) h.key_point c in
        record h { key_point = left.0; len = left.1 })
    else h

-- `for (j = 0; j <= hand.len; ++j) cards[hand.keyPoint + j] -= 2;` is one round more than the
-- chain is long.
pub push_pair_chain : Hand → Work → Work
push_pair_chain h w = record {
  cards = take_run (h.len + 1) 2 h.key_point w.cards;
  hands = w.hands ++ h ∷ [];
}

pub take_pair_chain : ℕ → ℕ → Work → Work
unfolding optimize_pair_chain push_pair_chain
take_pair_chain i end w =
    if leb (i + 3) end
    then push_pair_chain (optimize_pair_chain w.cards (make_chain pair_chain i (end - i))) w
    else w

unfoldable pub get_pair_chain : Deal → Option Deal
unfolding run_step run_loop take_pair_chain
get_pair_chain d =
    on_key? pair_chain (run_loop (run_step 2 take_pair_chain) card_q (card_q + 2) card_3) d
