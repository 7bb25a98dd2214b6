-- ===== src/Choice/Charge.antt =====
-- `isChargeHand` and `getHighestSoloChain`: whether an opponent can hardly beat a hand.
use robot_ddz.Prelude.{
  ℕ, zero, suc, ◌+◌, ◌-◌, Bool, true, false, ◌||◌, List, [], ◌∷◌, ◌++◌, Option, some, none, ltb,
  leb, ◌==◌, if◌then◌else◌, ℤ, pos, negsuc, leb_ℤ, ltb_ℤ,
}
use robot_ddz.Cards.Hands.{
  HandType, Hand, solo_chain, trio, trio_solo, trio_pair, pair, solo, card_a, card_2, red_joker,
  get_card_number, is_type,
}
use robot_ddz.Cards.Points.{Points}
use robot_ddz.Cards.Scan.{first_up, get_highest_trio}
use robot_ddz.Cards.HandMap.{HandMap, hands_of}
use robot_ddz.Split.Chains.{run_end}
use robot_ddz.Split.Kicker.{touch}

-- What the loop of `getHighestSoloChain` remembers; no `end` is -1.
pub record ChainScan : Type 0 where
  pub end : Option ℕ
  pub start : ℤ
  pub stop : Bool

pub chain_scan_step : ℕ → Points → ℕ → ChainScan → ChainScan
chain_scan_step len c i s =
    if s.stop
    then s
    else if ltb_ℤ (pos 0) (c i)
    then elim s.end [
      | none ↦ record s { end = some i }
      | some e ↦ record s { start = pos i; stop = (e + 1 == i + len) }
    ]
    else record s { end = none }

pub chain_scan : ℕ → Points → ℕ → ChainScan → ChainScan
unfolding chain_scan_step
chain_scan len c zero s = s
chain_scan len c (suc i) s = chain_scan len c i (chain_scan_step len c i s)

unfoldable pub get_highest_solo_chain : Points → ℕ → ℤ
unfolding chain_scan
get_highest_solo_chain c len =
    (chain_scan len c (card_a + 1) (record { end = none; start = negsuc 0; stop = false })).start

-- `for (i = last; i > key; --i) if (opp[i] >= k)`: whether none does.
unfoldable pub none_above : ℕ → ℕ → ℕ → Points → Bool
unfolding first_up
none_above last k key c = elim (first_up (last - key) (key + 1) (λ i. leb_ℤ (pos k) (c i))) [
  | none ↦ true
  | some i ↦ false
]

-- `while (start <= maxKey)`, the longest run that begins at one of `n` points from `start` on.
pub longest_run : ℕ → ℕ → Points → ℕ → ℕ
unfolding run_end
longest_run zero start c best = best
longest_run (suc n) start c best =
    let len = run_end (card_a + 1 - start) 1 start c - start in
    longest_run n (start + 1) c (if ltb best len then len else best)

pub entry : ℕ → List ℕ → Option ℕ
entry i [] = none
entry zero (x ∷ xs) = some x
entry (suc i) (x ∷ xs) = entry i xs

-- `SOLO_CHAIN_CHARGE_LEN[len - 5]`; outside the array there is none.
unfoldable pub solo_chain_charge_len : ℕ → Option ℕ
unfolding entry
solo_chain_charge_len len = elim (leb 5 len) [
  | false ↦ none
  | true ↦ entry (len - 5) (7 ∷ 9 ∷ 11 ∷ 13 ∷ 15 ∷ 17 ∷ 18 ∷ 18 ∷ [])
]

unfoldable pub charge_straight : Hand → ℕ → Points → Option Bool
unfolding solo_chain_charge_len longest_run
charge_straight h max_opp opp = elim (solo_chain_charge_len h.len) [
  | none ↦ none
  | some bound ↦ some (
      ltb max_opp bound
      || ltb (longest_run (card_a + 1 - h.len - h.key_point) (h.key_point + 1) opp 0) h.len)
]

abbrev pub is_trio_kind : HandType → Bool
is_trio_kind t = is_type t trio || is_type t trio_solo || is_type t trio_pair

-- The first part: by the number of cards, and by what the opponents hold.
unfoldable pub charge_alone : Hand → ℕ → Points → Option Bool
unfolding none_above charge_straight
charge_alone h max_opp opp =
    if ltb max_opp (get_card_number h)
    then some true
    else if is_type h.type solo
    then some (none_above red_joker 1 h.key_point opp)
    else if is_type h.type pair
    then some (none_above card_2 2 h.key_point opp)
    else if is_trio_kind h.type
    then some (none_above card_2 3 h.key_point opp)
    else if is_type h.type solo_chain
    then charge_straight h max_opp opp
    else some true

-- The keys of the hands, those of one length only, or all.
pub keys_of_len : ℕ → List Hand → List ℕ
keys_of_len len [] = []
keys_of_len len (h ∷ hs) =
    let rest = keys_of_len len hs in if h.len == len then h.key_point ∷ rest else rest

pub keys : List Hand → List ℕ
keys [] = []
keys (h ∷ hs) = h.key_point ∷ keys hs

-- `highetCount`
pub count_above : ℤ → List ℕ → ℕ
count_above bound [] = 0
count_above bound (k ∷ ks) = (if ltb_ℤ bound (pos k) then 1 else 0) + count_above bound ks

-- Whether one of the first `n` keys is not below `key`.
pub reaches : ℕ → ℕ → List ℕ → Bool
reaches key zero ks = false
reaches key (suc n) [] = false
reaches key (suc n) (k ∷ ks) = leb key k || reaches key n ks

unfoldable pub rivals : Hand → HandMap → List ℕ
unfolding keys_of_len keys
rivals h m =
    if is_type h.type solo_chain
    then keys_of_len h.len (hands_of solo_chain m)
    else keys (hands_of trio m) ++ keys (hands_of trio_solo m) ++ keys (hands_of trio_pair m)

-- `operator[]` of the second part makes the entries that it reads.
abbrev pub touch_rivals : Hand → HandMap → HandMap
touch_rivals h m =
    if is_type h.type solo_chain
    then touch solo_chain m
    else touch trio_pair (touch trio_solo (touch trio m))

-- The second part: by the hands of the same kind.
unfoldable pub charge_among : Hand → Points → HandMap → Bool
unfolding rivals count_above reaches get_highest_solo_chain
charge_among h opp m =
    let ks = rivals h m in
    let highest =
      if is_type h.type solo_chain
      then get_highest_solo_chain opp h.len
      else get_highest_trio opp in
    reaches h.key_point (count_above highest ks) ks

-- `isChargeHand` with a map, without which the answer is `charge_alone`; the map comes back with the entries it has made. A straight of fewer
-- than five cards, which reads outside `SOLO_CHAIN_CHARGE_LEN`, gives none.
unfoldable pub is_charge_hand : Hand → ℕ → Points → HandMap → Option (Bool × HandMap)
unfolding charge_alone charge_among
is_charge_hand h max_opp opp m = elim (charge_alone h max_opp opp) [
  | none ↦ none
  | some true ↦ some (true, m)
  | some false ↦
      if is_trio_kind h.type || is_type h.type solo_chain
      then some (charge_among h opp (touch_rivals h m), touch_rivals h m)
      else some (false, m)
]
