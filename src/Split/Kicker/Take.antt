-- ===== src/Split/Kicker/Take.antt =====
-- A trio, or a chain of trios, takes its kickers along.
use robot_ddz.Prelude.{
  All, Bool, Bool-cases, inl, inr, ℕ, zero, suc, ◌+◌, ◌≤◌, ◌≡◌, refl, List, [], ◌∷◌, arith, length,
}
use robot_ddz.Cards.Hands.{Hand, HandType}
use robot_ddz.Cards.HandMap.{
  HandMap, hands_of, set_hands, push_hand, hand_at, hands_at, map_at, kickers_at, one_if,
}
use robot_ddz.Split.Kicker.{write_kickers, pick, count_if}
use robot_ddz.Split.Kicker.Loose.{
  Apart, IsLoose, Loose, place, map_at-place, Loose-set_hands, Loose-other,
  hands_of-push_hand_other,
}

-- The search parts the hands in two.
pub hands_at-pick :
    (test : Hand → Bool) (n : ℕ) (hs : List Hand) (p : ℕ)
    → hands_at (pick test n hs).0 p + hands_at (pick test n hs).1 p ≡ hands_at hs p
unfolding pick
hands_at-pick test zero hs p = omega arith
hands_at-pick test (suc n) [] p = omega arith
hands_at-pick test (suc n) (h ∷ hs) p =
    ground (arith, hands_at-pick test n hs p, hands_at-pick test (suc n) hs p)

pub pick-All :
    (P : Hand → Type 0) (test : Hand → Bool) (n : ℕ) (hs : List Hand)
    → All P hs
    → All P (pick test n hs).0 × All P (pick test n hs).1
unfolding pick
pick-All P test zero hs a = (tt, a)
pick-All P test (suc n) [] a = (tt, tt)
pick-All P test (suc n) (h ∷ hs) (x, a) = elim (Bool-cases (test h)) [
  | inl useful ↦ let (b, c) = pick-All P test n hs a in rw useful ((x, b), c)
  | inr useless ↦ let (b, c) = pick-All P test (suc n) hs a in rw useless (b, (x, c))
]

-- It finds as many as it looks for, if there are as many.
pub length-pick :
    (test : Hand → Bool) (n : ℕ) (hs : List Hand)
    → n ≤ count_if test hs
    → length (pick test n hs).0 ≡ n
unfolding pick count_if
length-pick test zero hs h = refl
length-pick test (suc n) [] h = elim h [ ]
length-pick test (suc n) (x ∷ hs) h = elim (Bool-cases (test x)) [
  | inl useful ↦ rw useful (omega (arith, length-pick test n hs (ground arith)))
  | inr useless ↦ rw useless (length-pick test (suc n) hs (ground arith))
]

kickers_at_shift :
    (n i w x : ℕ) (ks : List ℕ) (h : Hand) (p : ℕ)
    → kickers_at n (suc i) w (record h { kicker = x ∷ ks }) p
      ≡ kickers_at n i w (record h { kicker = ks }) p
unfolding kickers_at
kickers_at_shift zero i w x ks h p = refl
kickers_at_shift (suc n) i w x ks h p =
    let e : suc i + 1 ≡ suc (i + 1) = omega arith in
    rw e (omega (arith, kickers_at_shift n (i + 1) w x ks h p))

-- What one hand of the kind `k` adds as a kicker.
abbrev pub Weighs : HandType → ℕ → Type 0
Weighs k w = (g : Hand) (p : ℕ) → g.type ≡ k → hand_at g p ≡ one_if w g.key_point p

-- The kickers written are the cards of the hands taken.
kickers_at-write :
    (k : HandType) (w : ℕ)
    → Weighs k w
    → (hs : List Hand) (old : List ℕ) (h : Hand) (p : ℕ) → All (IsLoose k) hs
    → length hs ≤ length old
    → kickers_at (length hs) 0 w (record h { kicker = write_kickers hs old }) p ≡ hands_at hs p
unfolding kickers_at write_kickers
kickers_at-write k w weighs [] old h p a le = refl
kickers_at-write k w weighs (x ∷ hs) [] h p a le = elim le [ ]
kickers_at-write k w weighs (x ∷ hs) (y ∷ old) h p a le = omega (
  arith,
  weighs x p a.0.0,
  kickers_at_shift (length hs) 0 w x.key_point (write_kickers hs old) h p,
  kickers_at-write k w weighs hs old h p a.1 (omega arith),
)

-- A kind `key` that is the kind `base` with kickers of the kind `k`, `size` of them.
module _ (base key k : HandType) (w : ℕ) (size : Hand → ℕ) (weighs : Weighs k w)
    (grown : (t : Hand) (ks : List ℕ) (p : ℕ)
      → t.type ≡ base
      → let t' : Hand = record t { type = key; kicker = ks } in
        hand_at t' p ≡ hand_at t p + kickers_at (size t) 0 w t' p)
    (key_apart : Apart key base) (k_apart : Apart k base) where
  pub place_keeps :
      (t : Hand) (ts picked rest : List Hand) (m : HandMap)
      → hands_of base m ≡ t ∷ ts
      → t.type ≡ base
      → length picked ≡ size t
      → size t ≤ length t.kicker
      → All (IsLoose k) picked
      → ((p : ℕ) → hands_at picked p + hands_at rest p ≡ hands_at (hands_of k m) p)
      → (p : ℕ)
      → map_at
          (place base key k ts
            (record t { type = key; kicker = write_kickers picked t.kicker })
            rest
            m)
          p
        ≡ map_at m p
  place_keeps t ts picked rest m e is_base len room a parts p =
      let ks : List ℕ = write_kickers picked t.kicker in
      let t' : Hand = record t { type = key; kicker = ks } in
      let written = kickers_at-write k w weighs picked t.kicker t' p a (omega arith) in
      let written' : kickers_at (size t) 0 w t' p ≡ hands_at picked p = rw len at written in
      omega (
        arith,
        map_at-place base key k t t' ts rest m key_apart k_apart e p,
        grown t ks p is_base,
        parts p,
        written',
      )

-- What is left under the keys.
module _ (base key k : HandType) (ts rest : List Hand) (t' : Hand) (m : HandMap) where
  pub place-front : All (IsLoose base) ts → Loose base (place base key k ts t' rest m)
  place-front a = Loose-set_hands base ts (push_hand key t' (set_hands k rest m)) a

  pub place-taken :
      Apart base k → Apart key k → All (IsLoose k) rest → Loose k (place base key k ts t' rest m)
  place-taken b c a =
      Loose-other base k ts (push_hand key t' (set_hands k rest m)) b
        (rw (hands_of-push_hand_other key k t' (set_hands k rest m) c) (Loose-set_hands k rest m a))

  pub place-other :
      (j : HandType)
      → Apart base j
      → Apart key j
      → Apart k j
      → Loose j m
      → Loose j (place base key k ts t' rest m)
  place-other j b c d a =
      Loose-other base j ts (push_hand key t' (set_hands k rest m)) b
        (rw (hands_of-push_hand_other key j t' (set_hands k rest m) c) (Loose-other k j rest m d a))
