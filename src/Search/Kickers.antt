-- ===== src/Search/Kickers.antt =====
-- `findKickerFromPoints`: kickers for a trio or a chain of trios.
pub mod Kicked
use robot_ddz.Prelude.{
  ℕ, zero, suc, ◌+◌, ◌-◌, Bool, true, false, not, ◌&&◌, ◌||◌, List, [], ◌∷◌, ◌++◌, Option, some,
  none, ltb, leb, ◌==◌, if◌then◌else◌, pos, leb_ℤ, length,
}
use robot_ddz.Cards.Hands.{
  Hand, trio_solo, trio_pair, trio_chain_solo, solo, pair, solo_chain, pair_chain, card_3, card_2,
  red_joker, is_type,
}
use robot_ddz.Cards.Points.{Points}
use robot_ddz.Cards.Scan.{first_up}
use robot_ddz.Cards.HandMap.{HandMap, hands_of}
use robot_ddz.Choice.Sort.{sort_hands_with_best_kind}

-- The first hand of another point than `key`.
pub other_key : ℕ → List Hand → Option ℕ
other_key key [] = none
other_key key (h ∷ hs) = if h.key_point == key then other_key key hs else some h.key_point

-- The straights behind one that begin at its last point, and not at `key`.
pub next_straight : ℕ → Hand → List Hand → Option ℕ
next_straight key h [] = none
next_straight key h (g ∷ gs) =
    if (h.key_point + h.len == g.key_point + 1) && not (g.key_point == key)
    then some g.key_point
    else next_straight key h gs

pub touching : ℕ → List Hand → Option ℕ
unfolding next_straight
touching key [] = none
touching key (h ∷ hs) = elim (next_straight key h hs) [ some k ↦ some k | none ↦ touching key hs ]

-- An end of the first straight of more than five cards.
pub long_end : ℕ → List Hand → Option ℕ
long_end key [] = none
long_end key (h ∷ hs) =
    if ltb 5 h.len
    then some (if h.key_point == key then h.key_point + h.len - 1 else h.key_point)
    else long_end key hs

abbrev pub or_else : Option ℕ → Option ℕ → Option ℕ
or_else none b = b
or_else (some a) b = some a

-- A point other than `key` that has `k` cards.
abbrev pub spare : ℕ → ℕ → ℕ → Points → Option ℕ
spare n k key c = first_up n card_3 (λ i. leb_ℤ (pos k) (c i) && not (i == key))

unfoldable pub solo_kicker : ℕ → Points → HandMap → Option ℕ
unfolding other_key touching long_end first_up
solo_kicker key c m = or_else (other_key key (hands_of solo m)) (
    or_else (touching key (hands_of solo_chain m))
      (or_else (long_end key (hands_of solo_chain m)) (spare (red_joker + 1) 1 key c)))

abbrev pub first_key : List Hand → Option ℕ
first_key [] = none
first_key (h ∷ hs) = some h.key_point

-- Only the first pair chain is looked at.
abbrev pub long_pair_chain : List Hand → Option ℕ
long_pair_chain [] = none
long_pair_chain (h ∷ hs) = if ltb 3 h.len then some h.key_point else none

unfoldable pub pair_kicker : ℕ → Points → HandMap → Option ℕ
unfolding first_up
pair_kicker key c m =
    or_else (first_key (hands_of pair m))
      (or_else (long_pair_chain (hands_of pair_chain m)) (spare (card_2 + 1) 2 key c))

-- The keys of the single cards outside the chain of trios.
pub outer_keys : Hand → List Hand → List ℕ
outer_keys t [] = []
outer_keys t (h ∷ hs) =
    let rest = outer_keys t hs in
    if ltb h.key_point t.key_point || ltb (t.key_point + t.len) (h.key_point + 1)
    then h.key_point ∷ rest
    else rest

abbrev pub nth : List Hand → ℕ → Option Hand
nth [] i = none
nth (h ∷ hs) zero = some h
nth (h ∷ hs) (suc i) = nth hs i

-- `chain.keyPoint < hand.keyPoint || soloHands[i].keyPoint > ...`: the index `i` of the straight is
-- used for the single cards. A read outside their vector gives none.
pub takes_front : Hand → Hand → Option Hand → Option Bool
takes_front t s single =
    if ltb s.key_point t.key_point
    then some true
    else elim single [ none ↦ none | some h ↦ some (ltb (t.key_point + t.len) (h.key_point + 1)) ]

-- `while (k.size() < hand->len && soloChainHands[i].len > 5)`, with `n = hand->len - k.size()`.
pub peel : ℕ → Hand → Hand → Option Hand → List ℕ → Option (List ℕ)
unfolding takes_front
peel zero t s single ks = some ks
peel (suc n) t s single ks = elim (ltb 5 s.len) [
  | false ↦ some ks
  | true ↦ elim (takes_front t s single) [
    | none ↦ none
    | some true ↦
        peel n t (record s { key_point = s.key_point + 1; len = s.len - 1 }) single
          (ks ++ s.key_point ∷ [])
    | some false ↦
        peel n t (record s { len = s.len - 1 }) single (ks ++ (s.key_point + s.len - 1) ∷ [])
  ]
]

-- The loop over the straights, from the `i`-th on.
pub peel_all : ℕ → Hand → List Hand → List Hand → List ℕ → Option (List ℕ)
unfolding peel
peel_all i t singles [] ks = some ks
peel_all i t singles (s ∷ ss) ks = elim (peel (t.len - length ks) t s (nth singles i) ks) [
  | none ↦ none
  | some ks' ↦ if leb t.len (length ks') then some ks' else peel_all (i + 1) t singles ss ks'
]

-- The last loop, `n` points from `i` on; it asks neither whether the point is in the chain, nor
-- whether its card is a kicker already.
pub fill_up : ℕ → ℕ → ℕ → Points → List ℕ → List ℕ
fill_up zero i len c ks = ks
fill_up (suc n) i len c ks =
    fill_up n (i + 1) len c
      (if ltb (length ks) len && leb_ℤ (pos 1) (c i) then ks ++ i ∷ [] else ks)

-- `hand->kicker[i] = k[i]` for `i < hand->len`; the array holds five.
pub set_kickers : ℕ → List ℕ → List ℕ → Option (List ℕ)
set_kickers zero ks old = some old
set_kickers (suc n) [] old = none
set_kickers (suc n) (k ∷ ks) [] = none
set_kickers (suc n) (k ∷ ks) (o ∷ old) = elim (set_kickers n ks old) [
  | none ↦ none
  | some rest ↦ some (k ∷ rest)
]

unfoldable pub chain_kickers : Hand → Points → HandMap → Option (List ℕ)
unfolding outer_keys peel_all fill_up
chain_kickers t c m =
    let ks = outer_keys t (hands_of solo m) in
    elim (if ltb (length ks) t.len
      then peel_all 0 t (hands_of solo m) (hands_of solo_chain m) ks
      else some ks) [ none ↦ none | some ks' ↦ some (fill_up (red_joker + 1) card_3 t.len c ks') ]

abbrev pub set_first : ℕ → List ℕ → List ℕ
set_first k [] = []
set_first k (x ∷ xs) = k ∷ xs

-- `hand->kicker[0] = k; return true;`
abbrev pub kick_one : Hand → Option ℕ → Hand × Bool
kick_one t none = (t, false)
kick_one t (some k) = (record t { kicker = set_first k t.kicker }, true)

unfoldable pub kick_chain : Hand → Points → HandMap → Option (Hand × Bool)
unfolding chain_kickers set_kickers
kick_chain t c m = elim (chain_kickers t c m) [
  | none ↦ none
  | some ks ↦
      if leb t.len (length ks)
      then elim (set_kickers t.len ks t.kicker) [
        | none ↦ none
        | some written ↦ some (record t { kicker = written }, true)
      ]
      else some (t, false)
]

-- `hand->type = TRIO_CHAIN_SOLO` in the condition assigns, so every other kind becomes that one,
-- and the branch for pairs behind it is not reached.
unfoldable pub kick_with : Hand → Points → HandMap → Option (Hand × Bool)
unfolding solo_kicker pair_kicker kick_chain
kick_with t c m =
    if is_type t.type trio_solo
    then some (kick_one t (solo_kicker t.key_point c m))
    else if is_type t.type trio_pair
    then some (kick_one t (pair_kicker t.key_point c m))
    else kick_chain (record t { type = trio_chain_solo }) c m

unfoldable pub find_kicker_from_points : Points → ℕ → ℕ → Points → Hand → Option (Hand × Bool)
unfolding kick_with
find_kicker_from_points c lowest max_opp other t =
    elim (sort_hands_with_best_kind lowest max_opp other c false) [
      | none ↦ none
      | some (m, s) ↦ kick_with t c m
    ]
