-- ===== src/Split/Kicker/Loose.antt =====
-- The keys that `findKickerForTrioOrTrioChain` works on, and what a move between them keeps.
use robot_ddz.Prelude.{
  sym, All, Bool-cases, inl, inr, false, ℕ, ◌+◌, ◌≤◌, ◌≡◌, refl, List, [], ◌∷◌, ◌++◌, arith, ◌==◌,
  length, ◌∙◌,
}
use robot_ddz.Cards.Hands.{Hand, HandType, trio_chain, trio, solo, pair, rank}
use robot_ddz.Cards.HandMap.{
  HandMap, hands_of, set_hands, push_hand, hand_at, hands_at, map_at, map_at-set_hands,
  map_at-push_hand, hands_of-set_hands,
}
use robot_ddz.Split.Kicker.{touch}

-- Keys apart in the map.
abbrev pub Apart : HandType → HandType → Type 0
Apart j k = (rank j == rank k) ≡ false

pub hands_of-set_hands_other :
    (j k : HandType) (hs : List Hand) (m : HandMap)
    → Apart j k
    → hands_of k (set_hands j hs m) ≡ hands_of k m
unfolding hands_of set_hands
hands_of-set_hands_other j k hs [] a = ground arith
hands_of-set_hands_other j k hs ((i, old) ∷ m) a =
    ground (arith, hands_of-set_hands_other j k hs m a)

pub hands_of-push_hand_other :
    (j k : HandType) (h : Hand) (m : HandMap)
    → Apart j k
    → hands_of k (push_hand j h m) ≡ hands_of k m
unfolding push_hand
hands_of-push_hand_other j k h m a = hands_of-set_hands_other j k (hands_of j m ++ h ∷ []) m a

hands_of-rank : (j k : HandType) (m : HandMap) → rank j ≡ rank k → hands_of j m ≡ hands_of k m
unfolding hands_of
hands_of-rank j k [] e = refl
hands_of-rank j k ((i, hs) ∷ m) e = rw e (rw (hands_of-rank j k m e) refl)

-- Making an empty entry changes no vector, and no count.
pub hands_of-touch : (j k : HandType) (m : HandMap) → hands_of j (touch k m) ≡ hands_of j m
hands_of-touch j k m = elim (Bool-cases (rank k == rank j)) [
  | inl same ↦
      let e : rank j ≡ rank k = ground arith in
      hands_of-rank j k (touch k m) e
      ∙ hands_of-set_hands k (hands_of k m) m
      ∙ sym (hands_of-rank j k m e)
  | inr apart ↦ hands_of-set_hands_other k j (hands_of k m) m apart
]

pub map_at-touch : (k : HandType) (m : HandMap) (p : ℕ) → map_at (touch k m) p ≡ map_at m p
map_at-touch k m p = omega (arith, map_at-set_hands k (hands_of k m) m p)

-- A hand under the key `k` is of that kind, and has room for the kickers it may take.
abbrev pub IsLoose : HandType → Hand → Type 0
IsLoose k h = (h.type ≡ k) × (h.len ≤ length h.kicker) × (1 ≤ length h.kicker)

abbrev pub Loose : HandType → HandMap → Type 0
Loose k m = All (IsLoose k) (hands_of k m)

abbrev pub Tidy : HandMap → Type 0
Tidy m = Loose solo m × Loose pair m × Loose trio m × Loose trio_chain m

pub Loose-set_hands :
    (k : HandType) (hs : List Hand) (m : HandMap) → All (IsLoose k) hs → Loose k (set_hands k hs m)
Loose-set_hands k hs m a = rw (hands_of-set_hands k hs m) a

pub Loose-other :
    (j k : HandType) (hs : List Hand) (m : HandMap)
    → Apart j k
    → Loose k m
    → Loose k (set_hands j hs m)
Loose-other j k hs m a l = rw (hands_of-set_hands_other j k hs m a) l

pub Tidy-touch : (k : HandType) (m : HandMap) → Tidy m → Tidy (touch k m)
Tidy-touch k m (s, q, t, c) = (
  rw (hands_of-touch solo k m) s,
  rw (hands_of-touch pair k m) q,
  rw (hands_of-touch trio k m) t,
  rw (hands_of-touch trio_chain k m) c,
)

-- A hand moves from the key `base` to the key `key`, as `t'`, and takes hands of the key `k` along.
abbrev pub place : HandType → HandType → HandType → List Hand → Hand → List Hand → HandMap → HandMap
place base key k ts t' rest m = set_hands base ts (push_hand key t' (set_hands k rest m))

pub map_at-place :
    (base key k : HandType) (t t' : Hand) (ts rest : List Hand) (m : HandMap)
    → Apart key base
    → Apart k base
    → hands_of base m ≡ t ∷ ts
    → (p : ℕ)
    → map_at (place base key k ts t' rest m) p + hand_at t p + hands_at (hands_of k m) p
      ≡ map_at m p + hands_at rest p + hand_at t' p
map_at-place base key k t t' ts rest m a b e p =
    let m1 : HandMap = set_hands k rest m in
    let m2 : HandMap = push_hand key t' m1 in
    let front : hands_of base m2 ≡ t ∷ ts =
      hands_of-push_hand_other key base t' m1 a ∙ hands_of-set_hands_other k base rest m b ∙ e in
    let whole = map_at-set_hands base ts m2 p in
    let whole' : map_at (set_hands base ts m2) p + hands_at (t ∷ ts) p
        ≡ map_at m2 p + hands_at ts p =
      rw front at whole in
    omega (arith, whole', map_at-push_hand key t' m1 p, map_at-set_hands k rest m p)
