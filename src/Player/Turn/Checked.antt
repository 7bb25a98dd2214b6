-- ===== src/Player/Turn/Checked.antt =====
-- The cards that a player may hold can be recognised.
use robot_ddz.Prelude.{
  ℕ, zero, suc, ◌*◌, length, leb, ltb, ◌+◌, ◌≤◌, ◌<◌, ◌≡◌, refl, Bool, true, false, List, [], ◌∷◌,
  none, some, arith, ◌==◌, ◌&&◌, if◌then◌else◌, ℤ, pos, negsuc, pos_part, neg_part, eq_of_parts,
  ◌+ℤ◌,
}
use robot_ddz.Cards.Hands.{Hand, card_3}
use robot_ddz.Cards.Points.{
  Points, no_points, update, card_to_point, bump_point, count_cards, card_vec_to_point_arr,
}
use robot_ddz.Recognize.{get_hand, overfull, overlong, points_with}
use robot_ddz.Search.Higher.{no_hand}
use robot_ddz.Player.Take.Parted.{cards_of, Known}
use robot_ddz.Player.Turn.{check_hand}

-- Cards of one deck that a player may hold: each of some point, four of a point at most, and twenty
-- at most, which are the lord's.
abbrev pub InDeck : List ℤ → Type 0
InDeck cards = Known cards × ((p : ℕ) → cards_of p cards ≤ 4) × (length cards ≤ 20)

card_to_point_bound : (card : ℤ) → pos_part (card_to_point card) < 16
unfolding card_to_point
card_to_point_bound (pos n) = ground arith
card_to_point_bound (negsuc n) = ground arith

bump : (c : Points) (p : ℕ) → p < 16 → bump_point c (pos p) ≡ some (update c p (c p +ℤ pos 1))
unfolding bump_point
bump c p h = ground arith

-- Each point's cards are counted.
abbrev Counted : Points → List ℤ → Points → Type 0
Counted c cards r =
    (p : ℕ) → (pos_part (r p) ≡ pos_part (c p) + cards_of p cards) × (neg_part (r p) ≡ 0)

one_more :
    (a : ℤ)
    → neg_part a ≡ 0
    → (neg_part (a +ℤ pos 1) ≡ 0) × (pos_part (a +ℤ pos 1) ≡ pos_part a + 1)
unfolding ◌+ℤ◌
one_more a up = (ground arith, ground arith)

counts_one :
    (c : Points) (p q : ℕ)
    → neg_part (c p) ≡ 0
    → neg_part (c q) ≡ 0
    → let c' = update c p (c p +ℤ pos 1) in
      (neg_part (c' q) ≡ 0) × (pos_part (c' q) ≡ pos_part (c q) + (if p == q then 1 else 0))
counts_one c p q up up' = (ground (arith, one_more (c p) up), ground (arith, one_more (c p) up))

count_cards-Counted :
    (c : Points) (cards : List ℤ)
    → Known cards
    → ((p : ℕ) → neg_part (c p) ≡ 0)
    → (r : Points) × (count_cards c cards ≡ some r) × Counted c cards r
unfolding count_cards
count_cards-Counted c [] known up = (c, refl, λ p. (omega arith, up p))
count_cards-Counted c (card ∷ cards) known up =
    let p : ℕ = pos_part (card_to_point card) in
    let at : card_to_point card ≡ pos p =
      eq_of_parts (card_to_point card) (pos p) (omega (arith, known.0)) in
    let c' : Points = update c p (c p +ℤ pos 1) in
    let (r, done, counted) =
      count_cards-Counted c' cards known.1 (λ q. (counts_one c p q (up p) (up q)).0) in
    let step = bump c p (card_to_point_bound card) in
    (
      r,
      rw (count_cards, at, step, done) refl,
      λ q. (ground (arith, counted q, counts_one c p q (up p) (up q)), (counted q).1),
    )

overfull_lem : (n i : ℕ) (c : Points) → ((p : ℕ) → pos_part (c p) ≤ 4) → overfull n i c ≡ false
unfolding overfull
overfull_lem zero i c h = refl
overfull_lem (suc n) i c h = ground (arith, h i, overfull_lem n (i + 1) c h)

-- How many cards the `n` points from `i` on have.
abbrev held : ℕ → ℕ → Points → ℕ
held zero i c = 0
held (suc n) i c = pos_part (c i) + held n (i + 1) c

-- The points with one, two and three cards account for no more than there are.
length-points_with :
    (n i : ℕ) (c : Points)
    → length (points_with n i 1 c)
        + 2 * length (points_with n i 2 c)
        + 3 * length (points_with n i 3 c)
      ≤ held n i c
unfolding points_with
length-points_with zero i c = omega arith
length-points_with (suc n) i c = ground (arith, length-points_with n (i + 1) c)

overlong_lem :
    (s1 s2 s3 s4 : List ℕ)
    → length s1 + 2 * length s2 + 3 * length s3 ≤ 20
    → overlong s1 s2 s3 s4 ≡ false
unfolding overlong
overlong_lem s1 s2 s3 s4 few = ground arith

-- How many of the cards are of the `n` points from `i` on.
abbrev cards_from : ℕ → ℕ → List ℤ → ℕ
cards_from zero i cards = 0
cards_from (suc n) i cards = cards_of i cards + cards_from n (i + 1) cards

-- A card is of one point only.
one_point :
    (n i : ℕ) (x : ℤ) (cards : List ℤ)
    → cards_from n i (x ∷ cards)
      ≡ (if leb i (pos_part (card_to_point x))
            && ltb (pos_part (card_to_point x)) (i + n)
            && (neg_part (card_to_point x) == 0)
          then 1
          else 0)
        + cards_from n i cards
one_point zero i x cards = ground arith
one_point (suc n) i x cards = ground (arith, one_point n (i + 1) x cards)

cards_from-length : (n i : ℕ) (cards : List ℤ) → cards_from n i cards ≤ length cards
cards_from-length n i [] = no_cards n i
  where
    no_cards : (n i : ℕ) → cards_from n i [] ≤ 0
    no_cards zero i = omega arith
    no_cards (suc n) i = omega (arith, no_cards n (i + 1))
cards_from-length n i (x ∷ cards) =
    ground (arith, one_point n i x cards, cards_from-length n i cards)

held-cards_from :
    (n i : ℕ) (c : Points) (cards : List ℤ)
    → ((p : ℕ) → pos_part (c p) ≡ cards_of p cards)
    → held n i c ≡ cards_from n i cards
held-cards_from zero i c cards h = refl
held-cards_from (suc n) i c cards h = omega (arith, h i, held-cards_from n (i + 1) c cards h)

either-some :
    (b o : Bool) (x y : Hand)
    → o ≡ false
    → (g : Hand) × ((if b then some x else if o then none else some y) ≡ some g)
either-some true o x y e = (x, refl)
either-some false true x y e = grind arith
either-some false false x y e = (y, refl)

get_hand-some :
    (c : Points) (old : Hand)
    → ((p : ℕ) → pos_part (c p) ≤ 4)
    → held 15 card_3 c ≤ 20
    → (g : Hand) × (get_hand c old ≡ some g)
unfolding get_hand
get_hand-some c old h few =
    let short =
      overlong_lem (points_with 15 card_3 1 c) (points_with 15 card_3 2 c)
        (points_with 15 card_3 3 c) (points_with 15 card_3 4 c)
        (omega (arith, length-points_with 15 card_3 c)) in
    either-some _ _ _ _ (rw (overfull_lem 15 card_3 c h, short) refl)

-- Cards that each have a point can be counted.
pub card_vec_to_point_arr-some :
    (cards : List ℤ) → Known cards → (c : Points) × (card_vec_to_point_arr cards ≡ some c)
unfolding card_vec_to_point_arr
card_vec_to_point_arr-some cards known =
    let (r, done, counted) = count_cards-Counted no_points cards known (λ p. refl) in (r, done)

-- Cards that a player may hold can be recognised.
pub check_hand-some : (cards : List ℤ) → InDeck cards → (g : Hand) × (check_hand cards ≡ some g)
unfolding check_hand card_vec_to_point_arr
check_hand-some cards (known, four, few) =
    let (r, done, counted) = count_cards-Counted no_points cards known (λ p. refl) in
    let all = held-cards_from 15 card_3 r cards (λ p. omega (arith, counted p)) in
    let (g, found) =
      get_hand-some r no_hand (λ p. omega (arith, counted p, four p))
        (omega (arith, all, cards_from-length 15 card_3 cards)) in
    (g, rw (check_hand, card_vec_to_point_arr, done) found)
