-- ===== src/Split/Work.antt =====
-- The state that the splitting functions change: the cards not yet in a hand, and the hands.
use robot_ddz.Prelude.{Option, none, some, ℕ, ◌+◌, ◌≡◌, List, arith, pos_part, neg_part}
use robot_ddz.Cards.Hands.{HandType, Hand}
use robot_ddz.Cards.Points.{Points}
use robot_ddz.Cards.HandMap.{HandMap, hands_of, set_hands, hands_at, map_at, map_at-set_hands}

-- `int cards[]` and `std::map<HandType, std::vector<Hand> > &handMap`.
pub record Deal : Type 0 where
  pub cards : Points
  pub hand_map : HandMap

-- `int cards[]` and the vector of one key, `std::vector<Hand> &hands`.
pub record Work : Type 0 where
  pub cards : Points
  pub hands : List Hand

-- At each point, the cards left and those in hands are as many after as before.
abbrev pub Conserves : Deal → Deal → Type 0
Conserves a b =
    (p : ℕ)
    → pos_part (a.cards p) + map_at a.hand_map p + neg_part (b.cards p)
      ≡ pos_part (b.cards p) + map_at b.hand_map p + neg_part (a.cards p)

abbrev pub ConservesAt : ℕ → Work → Work → Type 0
ConservesAt p a b =
    pos_part (a.cards p) + hands_at a.hands p + neg_part (b.cards p)
    ≡ pos_part (b.cards p) + hands_at b.hands p + neg_part (a.cards p)

pub Conserves-refl : (d : Deal) → Conserves d d
Conserves-refl d p = omega arith

pub Conserves-trans : (a b c : Deal) → Conserves a b → Conserves b c → Conserves a c
Conserves-trans a b c h k p = omega (arith, h p, k p)

-- `std::vector<Hand> &hands = handMap[k];` and work on that vector.
abbrev pub on_key : HandType → (Work → Work) → Deal → Deal
on_key k f d =
    let w = f (record { cards = d.cards; hands = hands_of k d.hand_map }) in
    record { cards = w.cards; hand_map = set_hands k w.hands d.hand_map }

pub on_key-Conserves :
    (k : HandType) (f : Work → Work) (d : Deal)
    → ((w : Work) (p : ℕ) → ConservesAt p w (f w))
    → Conserves d (on_key k f d)
on_key-Conserves k f d h p =
    let w : Work = record { cards = d.cards; hands = hands_of k d.hand_map } in
    omega (arith, h w p, map_at-set_hands k (f w).hands d.hand_map p)

-- The same for work that may run out of fuel.
abbrev pub finish_key : HandType → Deal → Option Work → Option Deal
finish_key k d none = none
finish_key k d (some w) =
    some (record { cards = w.cards; hand_map = set_hands k w.hands d.hand_map })

abbrev pub on_key? : HandType → (Work → Option Work) → Deal → Option Deal
on_key? k f d = finish_key k d (f (record { cards = d.cards; hands = hands_of k d.hand_map }))

-- The code returns, and what it returns keeps every card.
abbrev pub Splits : Deal → Option Deal → Type 0
Splits d r = (d' : Deal) × (r ≡ some d') × Conserves d d'

-- At each point the cards left and a weight of the hands add up to the same.
abbrev pub KeepsBy : (List Hand → ℕ → ℕ) → Work → Work → Type 0
KeepsBy weight a b =
    (p : ℕ)
    → pos_part (a.cards p) + weight a.hands p + neg_part (b.cards p)
      ≡ pos_part (b.cards p) + weight b.hands p + neg_part (a.cards p)
