-- ===== src/Split/Solo/Five.antt =====
-- The first loop of `getSoloChain`: straights of five.
use robot_ddz.Prelude.{
  All, ℕ, zero, suc, ◌+◌, ◌-◌, ◌≤◌, ◌<◌, ◌≡◌, refl, inl, inr, List, [], ◌∷◌, ◌++◌, arith, leb, ◌&&◌,
  ◌==◌, if◌then◌else◌, pos, pos_part, leb_ℤ, true, Bool-cases, Option, some, none,
}
use robot_ddz.Cards.Hands.{Hand, card_a, card_t, make_chain, solo_chain}
use robot_ddz.Cards.Points.{Points, take_run, take_run_lem, NonNeg, take_run-NonNeg}
use robot_ddz.Cards.HandMap.{hands_at, hands_at-append}
use robot_ddz.Split.Work.{Work, KeepsBy}

-- `while (end + 1 <= CARD_A && cards[end + 1] >= 1 && end - start < 4) ++end;` with
-- `n = 4 - (end - start)`.
pub reach : ℕ → ℕ → Points → ℕ
reach zero end c = end
reach (suc n) end c =
    if leb (end + 1) card_a && leb_ℤ (pos 1) (c (end + 1)) then reach n (end + 1) c else end

-- Where the loop goes on, and what it leaves. A straight is taken without moving `i`.
pub solo_step : ℕ → Work → ℕ × Work
unfolding reach
solo_step i w =
    if leb_ℤ (pos 1) (w.cards i)
    then (let end = reach 4 i w.cards in
        if leb (i + 4) end
        then (
          i,
          record {
            cards = take_run (end + 1 - i) 1 i w.cards;
            hands = w.hands ++ make_chain solo_chain i (end + 1 - i) ∷ [];
          },
        )
        else (end + 1, w))
    else (i + 1, w)

-- `while (i <= CARD_T)`, on fuel.
unfoldable pub solo_loop : ℕ → ℕ → Work → Option Work
unfolding solo_step
solo_loop zero i w = none
solo_loop (suc fuel) i w =
    let next = solo_step i w in
    let rest = solo_loop fuel next.0 next.1 in if leb i card_t then rest else some w

-- The cards of the first `n` points.
unfoldable pub low_cards : ℕ → Points → ℕ
low_cards zero c = 0
low_cards (suc n) c = pos_part (c n) + low_cards n c

-- Enough for every round: each one takes a card of a point up to `CARD_T`, or moves on.
abbrev pub solo_fuel : Points → ℕ
solo_fuel c = low_cards 8 c + 9

reach-ge : (n end : ℕ) (c : Points) → end ≤ reach n end c
unfolding reach
reach-ge zero end c = omega arith
reach-ge (suc n) end c = ground (arith, reach-ge n (end + 1) c)

reach-le :
    (n end : ℕ) (c : Points) → end ≤ card_a → (reach n end c ≤ end + n) × (reach n end c ≤ card_a)
unfolding reach
reach-le zero end c h = omega arith
reach-le (suc n) end c h = ground (arith, reach-le n (end + 1) c)

reach_held : (n end : ℕ) (c : Points) (p : ℕ) → end < p → p ≤ reach n end c → 1 ≤ pos_part (c p)
unfolding reach
reach_held zero end c p above within = omega arith
reach_held (suc n) end c p above within = elim (Bool-cases (p == end + 1)) [
  | inl here ↦ let e : p ≡ end + 1 = ground arith in rw e (ground arith)
  | inr beyond ↦ ground (arith, reach_held n (end + 1) c p)
]

reach_all_held :
    (i : ℕ) (c : Points)
    → leb_ℤ (pos 1) (c i) ≡ true
    → (p : ℕ) → i ≤ p
    → p < i + (reach 4 i c + 1 - i)
    → 1 ≤ pos_part (c p)
reach_all_held i c held p above within = elim (Bool-cases (p == i)) [
  | inl here ↦ let e : p ≡ i = ground arith in rw e (ground arith)
  | inr beyond ↦ reach_held 4 i c p (ground arith) (omega (arith, reach-ge 4 i c))
]

low_cards_mono :
    (n : ℕ) (c c' : Points)
    → ((p : ℕ) → pos_part (c' p) ≤ pos_part (c p))
    → low_cards n c' ≤ low_cards n c
unfolding low_cards
low_cards_mono zero c c' h = omega arith
low_cards_mono (suc n) c c' h = omega (arith, h n, low_cards_mono n c c' h)

low_cards-lt :
    (n i : ℕ) (c c' : Points)
    → ((p : ℕ) → pos_part (c' p) ≤ pos_part (c p))
    → pos_part (c' i) < pos_part (c i)
    → i < n
    → low_cards n c' < low_cards n c
unfolding low_cards
low_cards-lt zero i c c' h l k = elim k [ ]
low_cards-lt (suc n) i c c' h l k = elim (Bool-cases (i == n)) [
  | inl here ↦
      let e : i ≡ n = ground arith in
      let l' : pos_part (c' n) < pos_part (c n) = rw e at l in
      omega (arith, l', low_cards_mono n c c' h)
  | inr below ↦ omega (arith, h n, low_cards-lt n i c c' h l (ground arith))
]

-- What one straight does to the counts.
take_run-le : (n s : ℕ) (c : Points) (p : ℕ) → pos_part (take_run n 1 s c p) ≤ pos_part (c p)
take_run-le n s c p = ground (arith, take_run_lem n 1 s c p)

take_run-lt :
    (n s : ℕ) (c : Points)
    → leb_ℤ (pos 1) (c s) ≡ true
    → 0 < n
    → pos_part (take_run n 1 s c s) < pos_part (c s)
take_run-lt n s c h l = ground (arith, take_run_lem n 1 s c s)

-- A straight: five points or more, none above the ace.
abbrev pub IsStraight : Hand → Type 0
IsStraight h = (h.type ≡ solo_chain) × (5 ≤ h.len) × (h.key_point + h.len ≤ 12)

abbrev pub AllStraight : List Hand → Type 0
AllStraight hs = All IsStraight hs

AllStraight-append :
    (hs : List Hand) (h : Hand) → AllStraight hs → IsStraight h → AllStraight (hs ++ h ∷ [])
AllStraight-append [] h a s = (s, tt)
AllStraight-append (x ∷ hs) h a s = (a.0, AllStraight-append hs h a.1 s)

-- What the loop needs of one round.
abbrev Round : ℕ → Work → ℕ × Work → Type 0
Round i w next =
    (low_cards 8 next.1.cards + (8 - next.0) < low_cards 8 w.cards + (8 - i))
    × KeepsBy hands_at w next.1
    × (AllStraight w.hands → AllStraight next.1.hands)
    × (NonNeg w.cards → NonNeg next.1.cards)

taken-Round :
    (i n : ℕ) (w : Work)
    → i ≤ card_t
    → n ≡ 5
    → ((p : ℕ) → i ≤ p → p < i + n → 1 ≤ pos_part (w.cards p))
    → leb_ℤ (pos 1) (w.cards i) ≡ true
    → Round i w (
      i,
      record { cards = take_run n 1 i w.cards; hands = w.hands ++ make_chain solo_chain i n ∷ [] },
    )
taken-Round i n w h e held some_left = (
  omega (
    arith,
    low_cards-lt 8 i w.cards (take_run n 1 i w.cards) (take_run-le n i w.cards)
        (take_run-lt n i w.cards some_left (omega arith)) (omega arith),
  ),
  λ p. ground (
    arith,
    take_run_lem n 1 i w.cards p,
    hands_at-append w.hands (make_chain solo_chain i n ∷ []) p,
  ),
  λ a. AllStraight-append w.hands (make_chain solo_chain i n) a (refl, omega arith, omega arith),
  λ h'. take_run-NonNeg n 1 i w.cards h' held,
)

moved-Round : (i i' : ℕ) (w : Work) → i ≤ card_t → i < i' → Round i w (i', w)
moved-Round i i' w h l = (omega arith, λ p. refl, λ a. a, λ h'. h')

solo_step-Round : (i : ℕ) (w : Work) → i ≤ card_t → Round i w (solo_step i w)
unfolding solo_step
solo_step-Round i w h = elim (Bool-cases (leb_ℤ (pos 1) (w.cards i))) [
  | inr empty ↦ rw empty (moved-Round i (i + 1) w h (omega arith))
  | inl held ↦
      let end = reach 4 i w.cards in
      let lo = reach-ge 4 i w.cards in
      let hi = reach-le 4 i w.cards (omega arith) in
      elim (Bool-cases (leb (i + 4) end)) [
        | inl long ↦
            rw (held, long)
              (taken-Round i (end + 1 - i) w h (ground arith) (reach_all_held i w.cards held) held)
        | inr short ↦ rw (held, short) (moved-Round i (end + 1) w h (omega arith))
      ]
]

-- The loop returns, keeps every card, leaves straights only and makes no count negative.
pub solo_loop_lem :
    (fuel i : ℕ) (w : Work)
    → low_cards 8 w.cards + (8 - i) < fuel
    → AllStraight w.hands
    → (w' : Work) × (solo_loop fuel i w ≡ some w')
      × KeepsBy hands_at w w'
      × AllStraight w'.hands
      × (NonNeg w.cards → NonNeg w'.cards)
unfolding solo_loop
solo_loop_lem zero i w h a = elim h [ ]
solo_loop_lem (suc fuel) i w h a = elim (Bool-cases (leb i card_t)) [
  | inr done ↦ (w, rw done refl, λ p. refl, a, λ h'. h')
  | inl more ↦
      let next : ℕ × Work = solo_step i w in
      let (falls, keeps, straight, sound) = solo_step-Round i w (ground arith) in
      let (w', e, kept, a', sound') = solo_loop_lem fuel next.0 next.1 (omega arith) (straight a) in
      (w', rw more e, λ p. omega (arith, keeps p, kept p), a', λ h'. sound' (sound h'))
]
