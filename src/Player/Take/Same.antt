-- ===== src/Player/Take/Same.antt =====
-- Cards without their order.
pub use robot_ddz.Prelude.{count, count-append}
use robot_ddz.Prelude.{
  erase_first, count-erase_first, suc, ◌+◌, ◌≤◌, ◌≡◌, ◌↔◌, inl, inr, refl, sym, ◌∙◌, ap, true,
  Bool-cases, List, [], ◌∷◌, length, arith, ◌==◌, if◌then◌else◌, ℤ, eqb_ℤ, eq_of_parts,
}
use robot_ddz.Player.Take.{insert_card, sort_cards, all_same, is_same_cards_info}

-- The same cards, each as often.
abbrev pub SameCards : List ℤ → List ℤ → Type 0
SameCards xs ys = (x : ℤ) → count x xs ≡ count x ys

insert_comm :
    (x y : ℤ) (l : List ℤ) → insert_card x (insert_card y l) ≡ insert_card y (insert_card x l)
unfolding insert_card
insert_comm x y [] = ground (arith, eq_of_parts x y)
insert_comm x y (z ∷ l) = ground (arith, eq_of_parts x y, insert_comm x y l)

count-insert_card :
    (c x : ℤ) (l : List ℤ) → count c (insert_card x l) ≡ (if eqb_ℤ x c then 1 else 0) + count c l
unfolding insert_card
count-insert_card c x [] = refl
count-insert_card c x (y ∷ l) = ground (arith, count-insert_card c x l)

count-sort_cards : (c : ℤ) (l : List ℤ) → count c (sort_cards l) ≡ count c l
unfolding sort_cards
count-sort_cards c [] = refl
count-sort_cards c (x ∷ l) =
    omega (arith, count-insert_card c x (sort_cards l), count-sort_cards c l)

sort_cards-erase_first :
    (x : ℤ) (l : List ℤ)
    → 1 ≤ count x l
    → sort_cards l ≡ insert_card x (sort_cards (erase_first x l))
unfolding sort_cards erase_first
sort_cards-erase_first x [] h = ground arith
sort_cards-erase_first x (y ∷ l) h = elim (Bool-cases (eqb_ℤ y x)) [
  | inl here ↦ let same = eq_of_parts y x (ground arith) in rw (erase_first, here) (rw same refl)
  | inr away ↦
      let ih = sort_cards-erase_first x l (ground arith) in
      rw (erase_first, away) (rw ih (insert_comm y x (sort_cards (erase_first x l))))
]

empty : (l : List ℤ) → SameCards [] l → l ≡ []
empty [] h = refl
empty (x ∷ l) h = ground (arith, h x)

sort_cons : (x : ℤ) (xs zs : List ℤ) → sort_cards xs ≡ zs → sort_cards (x ∷ xs) ≡ insert_card x zs
unfolding sort_cards
sort_cons x xs zs e = ap (insert_card x) e

sort_cards-SameCards : (xs ys : List ℤ) → SameCards xs ys → sort_cards xs ≡ sort_cards ys
sort_cards-SameCards [] ys h = rw (empty ys h) refl
sort_cards-SameCards (x ∷ xs) ys h =
    let there : 1 ≤ count x ys = ground (arith, h x) in
    let rest =
      sort_cards-SameCards xs (erase_first x ys)
        (λ c. omega (arith, h c, count-erase_first c x ys there)) in
    sort_cons x xs (sort_cards (erase_first x ys)) rest ∙ sym (sort_cards-erase_first x ys there)

length-insert_card : (x : ℤ) (l : List ℤ) → length (insert_card x l) ≡ suc (length l)
unfolding insert_card
length-insert_card x [] = refl
length-insert_card x (y ∷ l) = ground (arith, length-insert_card x l)

length-sort_cards : (l : List ℤ) → length (sort_cards l) ≡ length l
unfolding sort_cards
length-sort_cards [] = refl
length-sort_cards (x ∷ l) = omega (arith, length-insert_card x (sort_cards l), length-sort_cards l)

pub SameCards-length : (xs ys : List ℤ) → SameCards xs ys → length xs ≡ length ys
SameCards-length xs ys h =
    let same : length (sort_cards xs) ≡ length (sort_cards ys) =
      ap length (sort_cards-SameCards xs ys h) in
    omega (arith, length-sort_cards xs, length-sort_cards ys)

all_same-eq : (xs ys : List ℤ) → length xs ≡ length ys → all_same xs ys ≡ true → xs ≡ ys
unfolding all_same
all_same-eq [] [] n h = refl
all_same-eq [] (y ∷ ys) n h = ground arith
all_same-eq (x ∷ xs) [] n h = ground arith
all_same-eq (x ∷ xs) (y ∷ ys) n h =
    let head = eq_of_parts x y (ground arith) in
    let tail = all_same-eq xs ys (omega arith) (ground arith) in rw (head, tail) refl

all_same_refl : (xs : List ℤ) → all_same xs xs ≡ true
unfolding all_same
all_same_refl [] = refl
all_same_refl (x ∷ xs) = ground (arith, all_same_refl xs)

-- IsSameCardsInfo says true exactly when each card is as often in the one list as in the other.
pub is_same_cards_info_iff : (xs ys : List ℤ) → (is_same_cards_info xs ys ≡ true) ↔ SameCards xs ys
unfolding is_same_cards_info
is_same_cards_info_iff xs ys = (says, holds)
  where
    says : is_same_cards_info xs ys ≡ true → SameCards xs ys
    says e c = elim (Bool-cases (length xs == length ys)) [
      | inr differ ↦ let e' = rw (is_same_cards_info, differ) at e in grind arith
      | inl alike ↦
          let e' = rw (is_same_cards_info, alike) at e in
          let same =
            all_same-eq (sort_cards xs) (sort_cards ys)
              (ground (arith, length-sort_cards xs, length-sort_cards ys)) e' in
          sym (count-sort_cards c xs) ∙ ap (count c) same ∙ count-sort_cards c ys
    ]

    holds : SameCards xs ys → is_same_cards_info xs ys ≡ true
    holds h =
        let same = sort_cards-SameCards xs ys h in
        let len : length (sort_cards xs) ≡ length (sort_cards ys) = ap length same in
        let alike : (length xs == length ys) ≡ true =
          ground (arith, length-sort_cards xs, length-sort_cards ys) in
        rw (is_same_cards_info, alike, same) (all_same_refl (sort_cards ys))
