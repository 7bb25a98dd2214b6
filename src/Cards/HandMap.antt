-- ===== src/Cards/HandMap.antt =====
-- `std::map<HandType, std::vector<Hand> >`: a list of entries in the order of the keys, and how
-- many cards of each point it holds.
use robot_ddz.Prelude.{ℕ, zero, suc, ◌+◌, ◌≡◌, List, [], ◌∷◌, ◌++◌, arith, ltb, ◌==◌, if◌then◌else◌}
use robot_ddz.Cards.Hands.{
  HandType, trio_chain_pair, trio_chain_solo, trio_chain, pair_chain, solo_chain, trio_pair,
  trio_solo, trio, pair, solo, four_dual_pair, four_dual_solo, bomb, nuke, rank, Hand, kicker_at,
}
use robot_ddz.Cards.Points.{run_at}

abbrev pub HandMap : Type 0
HandMap = List (HandType × List Hand)

-- The hands under a key; `operator[]` of a missing key is the empty vector.
unfoldable pub hands_of : HandType → HandMap → List Hand
hands_of k [] = []
hands_of k ((j, hs) ∷ m) =
    if rank j == rank k then hs else if ltb (rank k) (rank j) then [] else hands_of k m

-- What the vector under a key becomes; `operator[]` makes a missing entry.
unfoldable pub set_hands : HandType → List Hand → HandMap → HandMap
set_hands k hs [] = (k, hs) ∷ []
set_hands k hs ((j, old) ∷ m) =
    if rank j == rank k
    then (k, hs) ∷ m
    else if ltb (rank k) (rank j)
    then (k, hs) ∷ (j, old) ∷ m
    else (j, old) ∷ set_hands k hs m

-- `handMap[k].push_back(h)`
unfoldable pub push_hand : HandType → Hand → HandMap → HandMap
push_hand k h m = set_hands k (hands_of k m ++ h ∷ []) m

abbrev pub one_if : ℕ → ℕ → ℕ → ℕ
one_if w q p = if q == p then w else 0

-- `w` cards for each of the first `n` kickers, from the `i`-th on.
unfoldable pub kickers_at : ℕ → ℕ → ℕ → Hand → ℕ → ℕ
kickers_at zero i w h p = 0
kickers_at (suc n) i w h p = one_if w (kicker_at h i) p + kickers_at n (i + 1) w h p

abbrev kind_at : HandType → Hand → ℕ → ℕ
kind_at nuke h p = one_if 1 13 p + one_if 1 14 p
kind_at solo h p = one_if 1 h.key_point p
kind_at pair h p = one_if 2 h.key_point p
kind_at trio h p = one_if 3 h.key_point p
kind_at trio_solo h p = one_if 3 h.key_point p + kickers_at 1 0 1 h p
kind_at trio_pair h p = one_if 3 h.key_point p + kickers_at 1 0 2 h p
kind_at bomb h p = one_if 4 h.key_point p
kind_at four_dual_solo h p = one_if 4 h.key_point p + kickers_at 2 0 1 h p
kind_at four_dual_pair h p = one_if 4 h.key_point p + kickers_at 2 0 2 h p
kind_at solo_chain h p = run_at 1 h.key_point h.len p
kind_at pair_chain h p = run_at 2 h.key_point h.len p
kind_at trio_chain h p = run_at 3 h.key_point h.len p
kind_at trio_chain_solo h p = run_at 3 h.key_point h.len p + kickers_at h.len 0 1 h p
kind_at trio_chain_pair h p = run_at 3 h.key_point h.len p + kickers_at h.len 0 2 h p
kind_at _ h p = 0

-- The rules' own account of a hand: how many cards of the point `p` it has.
abbrev pub hand_at : Hand → ℕ → ℕ
hand_at h p = kind_at h.type h p

abbrev pub hands_at : List Hand → ℕ → ℕ
hands_at [] p = 0
hands_at (h ∷ hs) p = hand_at h p + hands_at hs p

abbrev pub map_at : HandMap → ℕ → ℕ
map_at [] p = 0
map_at ((k, hs) ∷ m) p = hands_at hs p + map_at m p

pub hands_at-append :
    (hs gs : List Hand) (p : ℕ) → hands_at (hs ++ gs) p ≡ hands_at hs p + hands_at gs p
hands_at-append [] gs p = omega arith
hands_at-append (h ∷ hs) gs p = omega (arith, hands_at-append hs gs p)

-- A vector is replaced by another: nothing else changes.
pub map_at-set_hands :
    (k : HandType) (hs : List Hand) (m : HandMap) (p : ℕ)
    → map_at (set_hands k hs m) p + hands_at (hands_of k m) p ≡ map_at m p + hands_at hs p
unfolding hands_of set_hands
map_at-set_hands k hs [] p = omega arith
map_at-set_hands k hs ((j, old) ∷ m) p = ground (arith, map_at-set_hands k hs m p)

pub map_at-push_hand :
    (k : HandType) (h : Hand) (m : HandMap) (p : ℕ)
    → map_at (push_hand k h m) p ≡ map_at m p + hand_at h p
unfolding push_hand
map_at-push_hand k h m p = omega (
  arith,
  map_at-set_hands k (hands_of k m ++ h ∷ []) m p,
  hands_at-append (hands_of k m) (h ∷ []) p,
)

pub hands_of-set_hands :
    (k : HandType) (hs : List Hand) (m : HandMap) → hands_of k (set_hands k hs m) ≡ hs
unfolding hands_of set_hands
hands_of-set_hands k hs [] = ground arith
hands_of-set_hands k hs ((j, old) ∷ m) = ground (arith, hands_of-set_hands k hs m)
