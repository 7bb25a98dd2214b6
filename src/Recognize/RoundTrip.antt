-- ===== src/Recognize/RoundTrip.antt =====
-- A hand laid out as points is recognised again.
use native.Mathlib.Decide.{ℕ_discrete}
use robot_ddz.Prelude.{
  ℕ, ◌+◌, ◌≤◌, ◌<◌, ◌≡◌, ◌≢◌, refl, Bool, true, false, not, ◌&&◌, ◌||◌, [], ◌∷◌, Option, some, leb,
  ◌==◌, all_below, all_below_sound, arith,
}
use robot_ddz.Cards.Hands.{
  HandType, nothing, trio_chain, pair_chain, solo_chain, trio_pair, trio_solo, Hand, make_hand,
  make_chain,
}
use robot_ddz.Cards.Points.{sum_from}
use robot_ddz.Recognize.{overlong, hand_to_points_array, get_hand, points_with, overfull, classify}

Hand-discrete : Discrete (Option Hand)
Hand-discrete = hlevel ℕ_discrete

abbrev is_yes {ℓ} : {P : Type ℓ} → Dec P → Bool
is_yes (yes p) = true
is_yes (no p) = false

is_yes_sound {ℓ} : {P : Type ℓ} (d : Dec P) → is_yes d ≡ true → P
is_yes_sound (yes p) h = p
is_yes_sound (no p) h = cc

-- Whether `getHand` gives the hand back from its points.
recognised : Hand → Bool
unfolding hand_to_points_array get_hand classify points_with overfull sum_from Hand-discrete
    ℕ_discrete
recognised h =
    is_yes (Hand-discrete (get_hand (hand_to_points_array h) (make_hand nothing 0)) (some h))

recognised_sound :
    (h : Hand)
    → recognised h ≡ true
    → get_hand (hand_to_points_array h) (make_hand nothing 0) ≡ some h
unfolding recognised
recognised_sound h t = is_yes_sound (Hand-discrete _ _) t

-- A test of two numbers, where a condition on them holds.
abbrev table : ℕ → ℕ → (ℕ → ℕ → Bool) → (ℕ → ℕ → Bool) → Bool
table n m when test = all_below n (λ i. all_below m (λ j. not (when i j) || test i j))

table_sound :
    (n m : ℕ) (when test : ℕ → ℕ → Bool) (i j : ℕ)
    → table n m when test ≡ true
    → i < n
    → j < m
    → when i j ≡ true
    → test i j ≡ true
table_sound n m when test i j t h k w =
    let row = all_below_sound n (λ i. all_below m (λ j. not (when i j) || test i j)) i t h in
    let cell = all_below_sound m (λ j. not (when i j) || test i j) j row k in ground arith

abbrev legal : ℕ → ℕ → ℕ → Bool
legal least k n = leb least n && leb (k + n) 12

solo_chain_table : table 12 13 (legal 5) (λ k n. recognised (make_chain solo_chain k n)) ≡ true
unfolding recognised all_below overlong
solo_chain_table = refl

pair_chain_table : table 12 13 (legal 3) (λ k n. recognised (make_chain pair_chain k n)) ≡ true
unfolding recognised all_below overlong
pair_chain_table = refl

trio_chain_table : table 12 13 (legal 2) (λ k n. recognised (make_chain trio_chain k n)) ≡ true
unfolding recognised all_below overlong
trio_chain_table = refl

-- The chains of the rules, with their least lengths; none goes above the ace.
pub data LegalChain : HandType → ℕ → ℕ → Type 0 where
  of_solos : {k n : ℕ} → 5 ≤ n → k + n ≤ 12 → LegalChain solo_chain k n
  of_pairs : {k n : ℕ} → 3 ≤ n → k + n ≤ 12 → LegalChain pair_chain k n
  of_trios : {k n : ℕ} → 2 ≤ n → k + n ≤ 12 → LegalChain trio_chain k n

-- Every legal chain without kickers is recognised by getHand from its points, with its kind, key
-- and length.
pub get_hand-chain :
    {t : HandType} {k n : ℕ}
    → LegalChain t k n
    → get_hand (hand_to_points_array (make_chain t k n)) (make_hand nothing 0)
      ≡ some (make_chain t k n)
get_hand-chain {k = k} {n = n} (of_solos h l) = recognised_sound (make_chain solo_chain k n) (
    table_sound 12 13 (legal 5) (λ k n. recognised (make_chain solo_chain k n)) k n solo_chain_table
      (omega arith) (omega arith) (ground arith))
get_hand-chain {k = k} {n = n} (of_pairs h l) = recognised_sound (make_chain pair_chain k n) (
    table_sound 12 13 (legal 3) (λ k n. recognised (make_chain pair_chain k n)) k n pair_chain_table
      (omega arith) (omega arith) (ground arith))
get_hand-chain {k = k} {n = n} (of_trios h l) = recognised_sound (make_chain trio_chain k n) (
    table_sound 12 13 (legal 2) (λ k n. recognised (make_chain trio_chain k n)) k n trio_chain_table
      (omega arith) (omega arith) (ground arith))

abbrev pub with_kicker : HandType → ℕ → ℕ → Hand
with_kicker t k q = record { type = t; key_point = k; len = 0; kicker = q ∷ 0 ∷ 0 ∷ 0 ∷ 0 ∷ [] }

abbrev apart : ℕ → ℕ → Bool
apart k q = not (k == q)

trio_solo_table : table 13 15 apart (λ k q. recognised (with_kicker trio_solo k q)) ≡ true
unfolding recognised all_below overlong
trio_solo_table = refl

trio_pair_table : table 13 13 apart (λ k q. recognised (with_kicker trio_pair k q)) ≡ true
unfolding recognised all_below overlong
trio_pair_table = refl

-- A trio with a single card of another point is recognised by getHand from its points.
pub get_hand-trio_solo :
    (k q : ℕ)
    → k < 13
    → q < 15
    → k ≢ q
    → get_hand (hand_to_points_array (with_kicker trio_solo k q)) (make_hand nothing 0)
      ≡ some (with_kicker trio_solo k q)
get_hand-trio_solo k q h l d = recognised_sound (with_kicker trio_solo k q) (
    table_sound 13 15 apart (λ k q. recognised (with_kicker trio_solo k q)) k q trio_solo_table h l
      (ground arith))

-- A trio with a pair of another point is recognised by getHand from its points.
pub get_hand-trio_pair :
    (k q : ℕ)
    → k < 13
    → q < 13
    → k ≢ q
    → get_hand (hand_to_points_array (with_kicker trio_pair k q)) (make_hand nothing 0)
      ≡ some (with_kicker trio_pair k q)
get_hand-trio_pair k q h l d = recognised_sound (with_kicker trio_pair k q) (
    table_sound 13 13 apart (λ k q. recognised (with_kicker trio_pair k q)) k q trio_pair_table h l
      (ground arith))
