-- ===== src/Split/Solo/Trim.antt =====
-- `optimizeSoloChain`: straights give cards back at their ends.
use robot_ddz.Prelude.{
  All, refl, ℕ, zero, suc, ◌+◌, ◌-◌, ◌≤◌, ◌≡◌, List, [], ◌∷◌, arith, leb, ltb, ◌&&◌, ◌||◌,
  if◌then◌else◌, pos, pos_part, neg_part, ltb_ℤ, leb_ℤ,
}
use robot_ddz.Cards.Hands.{Hand, solo_chain}
use robot_ddz.Cards.Points.{Points, give_run, give_run_lem, NonNeg, give_run-NonNeg}
use robot_ddz.Cards.HandMap.{hand_at, hands_at}
use robot_ddz.Split.Work.{Work, KeepsBy}
use robot_ddz.Split.Solo.Five.{IsStraight, AllStraight}
use robot_ddz.Split.Solo.Grow.{straight_at}

-- `while (ll < n && cards[start + ll] > 0) ++ll;`
pub count_up : ℕ → ℕ → Points → ℕ
count_up zero i c = 0
count_up (suc n) i c =
    let more = count_up n (i + 1) c in if ltb_ℤ (pos 0) (c i) then more + 1 else 0

-- `while (hl < n && cards[end - hl] > 0) ++hl;`
pub count_down : ℕ → ℕ → Points → ℕ
count_down zero i c = 0
count_down (suc n) i c =
    let more = count_down n (i - 1) c in if ltb_ℤ (pos 0) (c i) then more + 1 else 0

-- How many points the first loop cuts off at the two ends, where `ll` and `hl` points there have
-- a card to spare and `n = maxPairLen`. The upper cut is as long as the lower count.
pub cuts : ℕ → ℕ → ℕ → ℕ × ℕ
cuts n ll hl = (
  (if leb 3 ll && (leb hl ll || leb (ll + hl) n) then ll else 0),
  (if leb 3 hl && (ltb ll hl || leb (ll + hl) n) then ll else 0),
)

-- A straight shortened by `front` and `back` points, whose cards are given back.
pub cut_hand : ℕ × ℕ → Hand → Points → Hand × Points
cut_hand (front, back) h c = (
  record h { key_point = h.key_point + front; len = h.len - front - back },
  give_run back (h.key_point + h.len - back) (give_run front h.key_point c),
)

-- One round of the first loop.
pub free_pairs : Hand → Points → ℕ × ℕ
unfolding count_up count_down cuts
free_pairs h c =
    let n = h.len - 5 in
    if leb 3 n
    then cuts n (count_up n h.key_point c) (count_down n (h.key_point + h.len - 1) c)
    else (0, 0)

-- `while (newEnd - newStart >= 5)` with `newEnd = newStart + n + 4`: the points cut off.
pub shed : ℕ → ℕ → Points → ℕ × ℕ
shed zero i c = (0, 0)
shed (suc n) i c =
    let lower = shed n (i + 1) c in
    let upper = shed n i c in
    let end = i + n + 5 in
    if ltb_ℤ (pos 0) (c i) && leb_ℤ (c end) (c i)
    then (lower.0 + 1, lower.1)
    else if ltb_ℤ (c i) (c end)
    then (upper.0, upper.1 + 1)
    else (0, 0)

-- One round of the second loop.
pub shed_hand : Hand → Points → ℕ × ℕ
unfolding shed
shed_hand h c = shed (h.len - 5) h.key_point c

-- A loop over the vector that shortens each straight in turn.
pub cut_all : (Hand → Points → ℕ × ℕ) → List Hand → Points → List Hand × Points
unfolding cut_hand
cut_all plan [] c = ([], c)
cut_all plan (h ∷ hs) c =
    let one = cut_hand (plan h c) h c in
    let rest = cut_all plan hs one.1 in (one.0 ∷ rest.0, rest.1)

unfoldable pub optimize_solo_chain : Work → Work
unfolding cut_all free_pairs shed_hand
optimize_solo_chain w =
    let first = cut_all free_pairs w.hands w.cards in
    let second = cut_all shed_hand first.0 first.1 in record { cards = second.1; hands = second.0 }

-- A straight that the first loop may leave: four points or more.
abbrev pub IsRun : Hand → Type 0
IsRun h = (h.type ≡ solo_chain) × (4 ≤ h.len) × (h.key_point + h.len ≤ 12)

abbrev pub AllRun : List Hand → Type 0
AllRun hs = All IsRun hs

cut_hand_keeps :
    (front back : ℕ) (h : Hand) (c : Points)
    → h.type ≡ solo_chain
    → front + back ≤ h.len
    → let (h', c') = cut_hand (front, back) h c in
      (p : ℕ)
      → pos_part (c p) + hand_at h p + neg_part (c' p)
        ≡ pos_part (c' p) + hand_at h' p + neg_part (c p)
unfolding cut_hand
cut_hand_keeps front back h c t le p =
    let h' : Hand = record h { key_point = h.key_point + front; len = h.len - front - back } in
    ground (
      arith,
      straight_at h p t,
      straight_at h' p t,
      give_run_lem front h.key_point c p,
      give_run_lem back (h.key_point + h.len - back) (give_run front h.key_point c) p,
    )

count_up-le : (n i : ℕ) (c : Points) → count_up n i c ≤ n
unfolding count_up
count_up-le zero i c = omega arith
count_up-le (suc n) i c = ground (arith, count_up-le n (i + 1) c)

cuts_bound :
    (n ll hl : ℕ) → ll ≤ n → n ≤ 7 → let (front, back) = cuts n ll hl in front + back ≤ n + 1
unfolding cuts
cuts_bound n ll hl h k = ground arith

free_pairs_bound :
    (h : Hand) (c : Points)
    → IsStraight h
    → let (front, back) = free_pairs h c in front + back + 4 ≤ h.len
unfolding free_pairs
free_pairs_bound h c s =
    let n : ℕ = h.len - 5 in
    ground (
      arith,
      count_up-le n h.key_point c,
      cuts_bound n (count_up n h.key_point c) (count_down n (h.key_point + h.len - 1) c),
    )

shed_bound : (n i : ℕ) (c : Points) → let (front, back) = shed n i c in front + back ≤ n
unfolding shed
shed_bound zero i c = omega arith
shed_bound (suc n) i c = ground (arith, shed_bound n (i + 1) c, shed_bound n i c)

shed_hand_bound :
    (h : Hand) (c : Points) → IsRun h → (shed_hand h c).0 + (shed_hand h c).1 + 4 ≤ h.len
unfolding shed_hand
shed_hand_bound h c r = omega (arith, shed_bound (h.len - 5) h.key_point c)

-- A plan that leaves four points of each straight of a kind.
module _ (P : Hand → Type 0) (plan : Hand → Points → ℕ × ℕ) (is_run : (h : Hand) → P h → IsRun h)
    (bound : (h : Hand) (c : Points) → P h → (plan h c).0 + (plan h c).1 + 4 ≤ h.len) where
  cut_all_lem :
      (hs : List Hand) (c : Points)
      → All P hs
      → let (hs', c') = cut_all plan hs c in
        AllRun hs'
        × KeepsBy hands_at (record { cards = c; hands = hs }) (record { cards = c'; hands = hs' })
  unfolding cut_all
  cut_all_lem [] c a = (tt, λ p. refl)
  cut_all_lem (h ∷ hs) c a =
      let r : IsRun h = is_run h a.0 in
      let b = bound h c a.0 in
      let kept = cut_hand_keeps (plan h c).0 (plan h c).1 h c r.0 (omega arith) in
      let (a', kept') = cut_all_lem hs (cut_hand (plan h c) h c).1 a.1 in
      (((r.0, omega arith, omega arith), a'), λ p. omega (arith, kept p, kept' p))

-- Cutting at the ends keeps every card, and leaves runs of four points at least.
pub optimize_solo_chain_lem :
    (w : Work)
    → AllStraight w.hands
    → AllRun (optimize_solo_chain w).hands × KeepsBy hands_at w (optimize_solo_chain w)
unfolding optimize_solo_chain
optimize_solo_chain_lem w a =
    let first : List Hand × Points = cut_all free_pairs w.hands w.cards in
    let (a', kept) =
      cut_all_lem IsStraight free_pairs (λ h s. (s.0, omega arith, s.2)) free_pairs_bound w.hands
        w.cards a in
    let (a'', kept') = cut_all_lem IsRun shed_hand (λ h s. s) shed_hand_bound first.0 first.1 a' in
    (a'', λ p. omega (arith, kept p, kept' p))

cut_all-NonNeg :
    (plan : Hand → Points → ℕ × ℕ) (hs : List Hand) (c : Points)
    → NonNeg c
    → NonNeg (cut_all plan hs c).1
unfolding cut_all cut_hand
cut_all-NonNeg plan [] c h = h
cut_all-NonNeg plan (x ∷ hs) c h = cut_all-NonNeg plan hs (cut_hand (plan x c) x c).1 (
    give_run-NonNeg (plan x c).1 (x.key_point + x.len - (plan x c).1)
      (give_run (plan x c).0 x.key_point c) (give_run-NonNeg (plan x c).0 x.key_point c h))

pub optimize_solo_chain-NonNeg : (w : Work) → NonNeg w.cards → NonNeg (optimize_solo_chain w).cards
unfolding optimize_solo_chain
optimize_solo_chain-NonNeg w h =
    let first : List Hand × Points = cut_all free_pairs w.hands w.cards in
    cut_all-NonNeg shed_hand first.0 first.1 (cut_all-NonNeg free_pairs w.hands w.cards h)
