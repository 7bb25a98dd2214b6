-- ===== src/Split/Solo/Grow.antt =====
-- `expandSoloChain`: straights grow at their upper end, then join one that follows on.
use robot_ddz.Prelude.{
  ℕ, zero, suc, ◌+◌, ◌-◌, ◌≤◌, ◌≡◌, refl, ap, inl, inr, List, [], ◌∷◌, arith, ◌==◌, if◌then◌else◌,
  pos, pos_part, neg_part, ltb_ℤ, ◌-ℤ◌, -ℤ_parts, Leaves, Bool-cases, length,
}
use robot_ddz.Cards.Hands.{Hand, card_a, solo_chain}
use robot_ddz.Cards.Points.{Points, update, run_at, NonNeg}
use robot_ddz.Cards.HandMap.{hands_at, hand_at}
use robot_ddz.Split.Work.{Work, KeepsBy}
use robot_ddz.Split.Solo.Five.{IsStraight, AllStraight}

-- `while (newEnd <= CARD_A && cards[newEnd] > 0)` with `n = CARD_A + 1 - newEnd`: by how much the
-- straight grows, and the cards left.
pub grow : ℕ → ℕ → Points → ℕ × Points
grow zero e c = (0, c)
grow (suc n) e c =
    let more = grow n (e + 1) (update c e (c e -ℤ pos 1)) in
    if ltb_ℤ (pos 0) (c e) then (more.0 + 1, more.1) else (0, c)

pub grow_hand : Hand → Points → Hand × Points
unfolding grow
grow_hand h c =
    let grown = grow (card_a + 1 - (h.key_point + h.len)) (h.key_point + h.len) c in
    (record h { len = h.len + grown.0 }, grown.1)

-- The first loop over the vector.
pub grow_all : List Hand → Points → List Hand × Points
unfolding grow_hand
grow_all [] c = ([], c)
grow_all (h ∷ hs) c =
    let one = grow_hand h c in let rest = grow_all hs one.1 in (one.0 ∷ rest.0, rest.1)

-- The inner loop of the second: the first straight that begins where `h` ends is joined to it.
pub absorb : Hand → List Hand → Hand × List Hand
absorb h [] = (h, [])
absorb h (g ∷ gs) =
    let rest = absorb h gs in
    if h.key_point + h.len == g.key_point
    then (record h { len = h.len + g.len }, gs)
    else (rest.0, g ∷ rest.1)

-- The second loop, a round for each straight that is left; as many rounds as straights suffice.
pub merge_rounds : ℕ → List Hand → List Hand
unfolding absorb
merge_rounds zero hs = hs
merge_rounds (suc n) [] = []
merge_rounds (suc n) (h ∷ hs) = let joined = absorb h hs in joined.0 ∷ merge_rounds n joined.1

unfoldable pub expand_solo_chain : Work → Work
unfolding grow_all merge_rounds
expand_solo_chain w =
    let grown = grow_all w.hands w.cards in
    record { cards = grown.1; hands = merge_rounds (length grown.0) grown.0 }

length-absorb : (h : Hand) (hs : List Hand) → length (absorb h hs).1 ≤ length hs
unfolding absorb
length-absorb h [] = omega arith
length-absorb h (g ∷ gs) = ground (arith, length-absorb h gs)

-- The rounds suffice: with more of them the vector comes out the same.
pub merge_rounds_enough :
    (n m : ℕ) (hs : List Hand)
    → length hs ≤ n
    → length hs ≤ m
    → merge_rounds n hs ≡ merge_rounds m hs
unfolding merge_rounds
merge_rounds_enough zero zero hs h k = refl
merge_rounds_enough zero (suc m) [] h k = refl
merge_rounds_enough zero (suc m) (x ∷ hs) h k = elim h [ ]
merge_rounds_enough (suc n) zero [] h k = refl
merge_rounds_enough (suc n) zero (x ∷ hs) h k = elim k [ ]
merge_rounds_enough (suc n) (suc m) [] h k = refl
merge_rounds_enough (suc n) (suc m) (x ∷ hs) h k =
    let short = length-absorb x hs in
    ap (◌∷◌ (absorb x hs).0) (merge_rounds_enough n m (absorb x hs).1 (omega arith) (omega arith))

grow_lem :
    (n e : ℕ) (c : Points) (p : ℕ)
    → let grown = grow n e c in Leaves (c p) (run_at 1 e grown.0 p) (grown.1 p)
unfolding grow
grow_lem zero e c p = ground arith
grow_lem (suc n) e c p =
    ground (arith, grow_lem n (e + 1) (update c e (c e -ℤ pos 1)) p, -ℤ_parts (c e) (pos 1))

grow-le : (n e : ℕ) (c : Points) → (grow n e c).0 ≤ n
unfolding grow
grow-le zero e c = omega arith
grow-le (suc n) e c = ground (arith, grow-le n (e + 1) (update c e (c e -ℤ pos 1)))

grow-NonNeg : (n e : ℕ) (c : Points) → NonNeg c → NonNeg (grow n e c).1
unfolding grow
grow-NonNeg zero e c h = h
grow-NonNeg (suc n) e c h = elim (Bool-cases (ltb_ℤ (pos 0) (c e))) [
  | inl held ↦ rw held (
      grow-NonNeg n (e + 1) (update c e (c e -ℤ pos 1))
        (λ p. ground (arith, h p, h e, -ℤ_parts (c e) (pos 1))))
  | inr empty ↦ rw empty h
]

grow_all-NonNeg : (hs : List Hand) (c : Points) → NonNeg c → NonNeg (grow_all hs c).1
unfolding grow_all grow_hand
grow_all-NonNeg [] c h = h
grow_all-NonNeg (x ∷ hs) c h =
    let e : ℕ = x.key_point + x.len in
    grow_all-NonNeg hs (grow_hand x c).1 (grow-NonNeg (card_a + 1 - e) e c h)

pub straight_at :
    (h : Hand) (p : ℕ) → h.type ≡ solo_chain → hand_at h p ≡ run_at 1 h.key_point h.len p
straight_at h p t = rw t refl

grow_hand_lem :
    (h : Hand) (c : Points)
    → IsStraight h
    → let (h', c') = grow_hand h c in
      IsStraight h'
      × ((p : ℕ)
          → pos_part (c p) + hand_at h p + neg_part (c' p)
            ≡ pos_part (c' p) + hand_at h' p + neg_part (c p))
unfolding grow_hand
grow_hand_lem h c s =
    let e : ℕ = h.key_point + h.len in
    let bound = grow-le (card_a + 1 - e) e c in
    let grown : ℕ × Points = grow (card_a + 1 - e) e c in
    (
      (s.0, omega arith, omega arith),
      λ p. ground (
        arith,
        straight_at h p s.0,
        straight_at (record h { len = h.len + grown.0 }) p s.0,
        grow_lem (card_a + 1 - e) e c p,
      ),
    )

grow_all_lem :
    (hs : List Hand) (c : Points)
    → AllStraight hs
    → let (hs', c') = grow_all hs c in
      AllStraight hs'
      × KeepsBy hands_at (record { cards = c; hands = hs }) (record { cards = c'; hands = hs' })
unfolding grow_all
grow_all_lem [] c a = (tt, λ p. refl)
grow_all_lem (h ∷ hs) c a =
    let (s, kept) = grow_hand_lem h c a.0 in
    let (a', kept') = grow_all_lem hs (grow_hand h c).1 a.1 in
    ((s, a'), λ p. omega (arith, kept p, kept' p))

absorb_lem :
    (h : Hand) (hs : List Hand)
    → IsStraight h
    → AllStraight hs
    → let (h', hs') = absorb h hs in
      IsStraight h'
      × AllStraight hs'
      × ((p : ℕ) → hand_at h' p + hands_at hs' p ≡ hand_at h p + hands_at hs p)
unfolding absorb
absorb_lem h [] s a = (s, tt, λ p. refl)
absorb_lem h (g ∷ gs) s a = elim (Bool-cases (h.key_point + h.len == g.key_point)) [
  | inl meets ↦ rw meets (
    (s.0, omega arith, ground arith),
    a.1,
    λ p. ground (
      arith,
      straight_at h p s.0,
      straight_at g p a.0.0,
      straight_at (record h { len = h.len + g.len }) p s.0,
    ),
  )
  | inr apart ↦
      let (s', a', same) = absorb_lem h gs s a.1 in
      rw apart (s', (a.0, a'), λ p. omega (arith, same p))
]

merge_rounds_lem :
    (n : ℕ) (hs : List Hand)
    → AllStraight hs
    → AllStraight (merge_rounds n hs) × ((p : ℕ) → hands_at (merge_rounds n hs) p ≡ hands_at hs p)
unfolding merge_rounds
merge_rounds_lem zero hs a = (a, λ p. refl)
merge_rounds_lem (suc n) [] a = (a, λ p. refl)
merge_rounds_lem (suc n) (h ∷ hs) a =
    let (s, a', same) = absorb_lem h hs a.0 a.1 in
    let (a'', same') = merge_rounds_lem n (absorb h hs).1 a' in
    ((s, a''), λ p. omega (arith, same p, same' p))

-- Growing and joining keep every card, and straights stay straights.
pub expand_solo_chain_lem :
    (w : Work)
    → AllStraight w.hands
    → AllStraight (expand_solo_chain w).hands × KeepsBy hands_at w (expand_solo_chain w)
unfolding expand_solo_chain
expand_solo_chain_lem w a =
    let (a', kept) = grow_all_lem w.hands w.cards a in
    let grown : List Hand = (grow_all w.hands w.cards).0 in
    let (a'', same) = merge_rounds_lem (length grown) grown a' in
    (a'', λ p. omega (arith, kept p, same p))

pub expand_solo_chain-NonNeg : (w : Work) → NonNeg w.cards → NonNeg (expand_solo_chain w).cards
unfolding expand_solo_chain
expand_solo_chain-NonNeg w h = grow_all-NonNeg w.hands w.cards h
