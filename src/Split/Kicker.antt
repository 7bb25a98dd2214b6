-- ===== src/Split/Kicker.antt =====
-- `findKickerForTrioOrTrioChain`: trios and trio chains take single cards or pairs along.
pub mod Loose
pub mod Take
pub mod Keep
pub mod Rounds
pub mod Settled
use robot_ddz.Prelude.{
  ℕ, zero, suc, ◌+◌, List, [], ◌∷◌, leb, ltb, ◌||◌, ◌==◌, if◌then◌else◌, Bool, true, length, Option,
  none, some,
}
use robot_ddz.Cards.Hands.{
  Hand, HandType, trio_chain, trio_chain_solo, trio_chain_pair, trio, trio_solo, trio_pair, solo,
  pair, black_joker, red_joker,
}
use robot_ddz.Cards.HandMap.{HandMap, hands_of, set_hands, push_hand}

-- A hand whose point is not one of the chain's.
abbrev pub outside : Hand → Hand → Bool
outside t h = ltb h.key_point t.key_point || ltb (t.key_point + t.len) (h.key_point + 1)

pub count_if : (Hand → Bool) → List Hand → ℕ
count_if test [] = 0
count_if test (h ∷ hs) = (if test h then 1 else 0) + count_if test hs

abbrev pub is_joker : Hand → Bool
is_joker h = (h.key_point == black_joker) || (h.key_point == red_joker)

-- `usefulSoloCount >= tChain.len`: a pair of jokers is not counted.
pub enough_solos : Hand → List Hand → Bool
unfolding count_if
enough_solos t solos =
    leb (t.len + (if count_if is_joker solos == 2 then 2 else 0)) (count_if (outside t) solos)

-- `while (k.size() < n && it != end)`: the first `n` hands that pass the test, and the others.
pub pick : (Hand → Bool) → ℕ → List Hand → List Hand × List Hand
pick test zero hs = ([], hs)
pick test (suc n) [] = ([], [])
pick test (suc n) (h ∷ hs) =
    let with = pick test n hs in
    let without = pick test (suc n) hs in
    if test h then (h ∷ with.0, with.1) else (without.0, h ∷ without.1)

-- `hand.kicker[i] = k[i]` for every `i` within the array; `room` sees to those outside it.
pub write_kickers : List Hand → List ℕ → List ℕ
write_kickers [] old = old
write_kickers (h ∷ hs) [] = []
write_kickers (h ∷ hs) (x ∷ old) = h.key_point ∷ write_kickers hs old

abbrev pub always : Hand → Bool
always h = true

-- The chain `t` takes `picked.0`, hands of the kind `k`, and becomes a hand of the kind `key`.
pub attach : HandType → HandType → Hand → List Hand → List Hand × List Hand → HandMap → HandMap
unfolding write_kickers
attach key k t ts picked m = set_hands trio_chain ts (
    push_hand key (record t { type = key; kicker = write_kickers picked.0 t.kicker })
      (set_hands k picked.1 m))

-- `handMap[k]`, which makes an entry if there is none.
abbrev pub touch : HandType → HandMap → HandMap
touch k m = set_hands k (hands_of k m) m

-- The chain takes as many kickers as it has points; one outside its array is a fault.
abbrev pub room : Hand → Option HandMap → Option HandMap
room t next = if leb t.len (length t.kicker) then next else none

-- `while (!trioChains.empty())`; each round erases the first chain or breaks.
pub kick_chains : List Hand → HandMap → Option HandMap
unfolding enough_solos pick attach
kick_chains [] m = some m
kick_chains (t ∷ ts) m =
    let m1 = touch solo m in
    let m2 = touch pair m1 in
    let solos = hands_of solo m1 in
    let pairs = hands_of pair m2 in
    let with_solos =
      kick_chains ts (attach trio_chain_solo solo t ts (pick (outside t) t.len solos) m1) in
    let with_pairs =
      kick_chains ts (attach trio_chain_pair pair t ts (pick always t.len pairs) m2) in
    if enough_solos t solos
    then room t with_solos
    else if leb t.len (length pairs)
    then room t with_pairs
    else some m2

-- The trio takes the first hand `x` of the kind `k`.
pub attach_one : HandType → HandType → Hand → List Hand → Hand → List Hand → HandMap → HandMap
unfolding write_kickers
attach_one key k t ts x rest m = set_hands trio ts (
    push_hand key (record t { type = key; kicker = write_kickers (x ∷ []) t.kicker })
      (set_hands k rest m))

-- `while (!trios.empty())`, by the solos and pairs at hand: a pair is taken if there is no solo, or
-- the lowest pair is below the lowest solo.
pub kick_trio : Hand → List Hand → List Hand → List Hand → HandMap → (HandMap → HandMap) → HandMap
unfolding attach_one
kick_trio t ts [] [] m next = m
kick_trio t ts [] (q ∷ pairs) m next = next (attach_one trio_pair pair t ts q pairs m)
kick_trio t ts (x ∷ solos) [] m next = next (attach_one trio_solo solo t ts x solos m)
kick_trio t ts (x ∷ solos) (q ∷ pairs) m next =
    if ltb q.key_point x.key_point
    then next (attach_one trio_pair pair t ts q pairs m)
    else next (attach_one trio_solo solo t ts x solos m)

pub kick_trios : List Hand → HandMap → HandMap
unfolding kick_trio
kick_trios [] m = m
kick_trios (t ∷ ts) m =
    let m1 = touch pair (touch solo m) in
    kick_trio t ts (hands_of solo m1) (hands_of pair m1) m1 (kick_trios ts)

unfoldable pub find_kicker_for_trio_or_trio_chain : HandMap → Option HandMap
unfolding kick_chains kick_trios
find_kicker_for_trio_or_trio_chain m =
    let m1 = touch trio_chain m in
    elim (kick_chains (hands_of trio_chain m1) m1) [
      | none ↦ none
      | some kicked ↦ let m2 = touch trio kicked in some (kick_trios (hands_of trio m2) m2)
    ]
