-- ===== src/Player/Controls/Ends.antt =====
-- The loop of `calControl` ends.
use robot_ddz.Prelude.{
  ℕ, zero, suc, ◌+◌, ◌-◌, ◌*◌, ◌/◌, ◌≤◌, ◌<◌, ◌≡◌, refl, sym, ◌∙◌, ap, ◌⊎◌, inl, inr, Bool, true,
  false, Bool-cases, [], ◌∷◌, Option, none, some, arith, ◌&&◌, ℤ, pos, negsuc, pos_part, neg_part,
  ltb_ℤ, ◌-ℤ◌, ◌+ℤ◌, +ℤ_parts, -ℤ_parts, eq_of_parts, All,
}
use mathlib.Core.Path.{subst}
use robot_ddz.Cards.Points.{Points, NonNeg}
use robot_ddz.Player.Controls.{
  Counts, Contest, contest, contests, my_sum, opp_sum, score, cal_control, tens, ten_times,
  counts_from,
}

abbrev Fair : Counts → Type 0
Fair c = All (λ e. neg_part e.0 ≡ 0) c

Fair-sum : (c : Counts) → Fair c → neg_part (my_sum c) ≡ 0
Fair-sum [] f = refl
Fair-sum ((m, o) ∷ rest) f = ground (arith, Fair-sum rest f.1, +ℤ_parts m (my_sum rest))

-- What one round does to the own cards.
abbrev Shrinks : Counts → Contest → Counts × Contest → Type 0
Shrinks c s r =
    Fair r.0
    × (pos_part (my_sum r.0) ≤ pos_part (my_sum c))
    × (pos_part r.1.my_con_num + pos_part (my_sum c) + neg_part s.my_con_num
        ≡ pos_part s.my_con_num + pos_part (my_sum r.0) + neg_part r.1.my_con_num)
    × (r.1.last ≡ some true → (s.last ≡ some true) ⊎ (pos_part (my_sum r.0) < pos_part (my_sum c)))
    × (s.mine ≡ true → 1 ≤ pos_part (my_sum c) → pos_part (my_sum r.0) < pos_part (my_sum c))

unchanged :
    (m o o' : ℤ) (rest : Counts) (s s' : Contest) (r : Counts × Contest)
    → neg_part m ≡ 0
    → Fair rest
    → s'.my_con_num ≡ s.my_con_num
    → (s'.last ≡ some true → s.last ≡ some true)
    → (s.mine ≡ true → (s'.mine ≡ true) × (pos_part m ≡ 0))
    → Shrinks rest s' r
    → Shrinks ((m, o) ∷ rest) s ((m, o') ∷ r.0, r.1)
unchanged m o o' rest s s' r up fair same last mine (fair', less, sums, won, moved) =
    let a = +ℤ_parts m (my_sum rest) in
    let b = +ℤ_parts m (my_sum r.0) in
    let c = Fair-sum rest fair in
    let d = Fair-sum r.0 fair' in
    let same' : pos_part s'.my_con_num ≡ pos_part s.my_con_num = ap pos_part same in
    let same'' : neg_part s'.my_con_num ≡ neg_part s.my_con_num = ap neg_part same in
    (
      (up, fair'),
      ground arith,
      ground arith,
      λ w. elim (won w) [ inl before ↦ inl (last before) | inr fewer ↦ inr (ground arith) ],
      λ turn some_left.
          let (turn', bare) = mine turn in let fewer = moved turn' (ground arith) in ground arith,
    )

left : (m : ℤ) → neg_part m ≡ 0 → 1 ≤ pos_part m → neg_part (m -ℤ pos 1) ≡ 0
unfolding ◌-ℤ◌
left m up some_left = ground arith

taken :
    (m o : ℤ) (rest : Counts) (s s' : Contest) (r : Counts × Contest)
    → neg_part m ≡ 0
    → 1 ≤ pos_part m
    → Fair rest
    → s'.my_con_num ≡ s.my_con_num -ℤ pos 1
    → Shrinks rest s' r
    → Shrinks ((m, o) ∷ rest) s ((m -ℤ pos 1, o) ∷ r.0, r.1)
taken m o rest s s' r up some_left fair same (fair', less, sums, won, moved) =
    let a = +ℤ_parts m (my_sum rest) in
    let b = +ℤ_parts (m -ℤ pos 1) (my_sum r.0) in
    let e = -ℤ_parts m (pos 1) in
    let g = -ℤ_parts s.my_con_num (pos 1) in
    let c = Fair-sum rest fair in
    let d = Fair-sum r.0 fair' in
    let same' : pos_part s'.my_con_num ≡ pos_part (s.my_con_num -ℤ pos 1) = ap pos_part same in
    let same'' : neg_part s'.my_con_num ≡ neg_part (s.my_con_num -ℤ pos 1) = ap neg_part same in
    let pos_left : neg_part (m -ℤ pos 1) ≡ 0 = left m up some_left in
    (
      (pos_left, fair'),
      ground arith,
      ground arith,
      λ w. inr (ground arith),
      λ turn held. ground arith,
    )

module _ (m o : ℤ) (rest : Counts) (s : Contest) where
  my_turn :
      s.mine ≡ true
      → ltb_ℤ (pos 0) m ≡ true
      → let r =
          contest rest
            (record s { my_con_num = s.my_con_num -ℤ pos 1; mine = false; last = some true }) in
        contest ((m, o) ∷ rest) s ≡ ((m -ℤ pos 1, o) ∷ r.0, r.1)
  unfolding contest
  my_turn mine held = rw (contest, mine, held) refl

  opp_turn :
      s.mine ≡ false
      → ltb_ℤ (pos 0) o ≡ true
      → let r =
          contest rest
            (record s { opp_con_num = s.opp_con_num -ℤ pos 1; mine = true; last = some false }) in
        contest ((m, o) ∷ rest) s ≡ ((m, o -ℤ pos 1) ∷ r.0, r.1)
  unfolding contest
  opp_turn theirs held = rw (contest, theirs, held) refl

  skipped :
      (s.mine ≡ true) × (ltb_ℤ (pos 0) m ≡ false) ⊎ (s.mine ≡ false) × (ltb_ℤ (pos 0) o ≡ false)
      → contest ((m, o) ∷ rest) s ≡ ((m, o) ∷ (contest rest s).0, (contest rest s).1)
  unfolding contest
  skipped (inl (mine, bare)) = rw (contest, mine, bare) refl
  skipped (inr (theirs, bare)) = rw (contest, theirs, bare) refl

contest-Shrinks : (c : Counts) (s : Contest) → Fair c → Shrinks c s (contest c s)
contest-Shrinks [] s f = unfold contest in (tt, omega arith, refl, λ w. inl w, λ w held. held)
contest-Shrinks ((m, o) ∷ rest) s f =
    let shrinks : Counts × Contest → Type 0 = λ r. Shrinks ((m, o) ∷ rest) s r in
    elim (Bool-cases s.mine) [
      | inl mine ↦ elim (Bool-cases (ltb_ℤ (pos 0) m)) [
        | inl held ↦
            let s' = record s {
              my_con_num = s.my_con_num -ℤ pos 1;
              mine = false;
              last = some true;
            } in
            subst shrinks (sym (my_turn m o rest s mine held)) (
              taken m o rest s s' (contest rest s') f.0 (ground arith) f.1 refl
                (contest-Shrinks rest s' f.1))
        | inr bare ↦ subst shrinks (sym (skipped m o rest s (inl (mine, bare)))) (
            unchanged m o o rest s s (contest rest s) f.0 f.1 refl (λ w. w) (λ t. (t, ground arith))
              (contest-Shrinks rest s f.1))
      ]
      | inr theirs ↦ elim (Bool-cases (ltb_ℤ (pos 0) o)) [
        | inl held ↦
            let s' = record s {
              opp_con_num = s.opp_con_num -ℤ pos 1;
              mine = true;
              last = some false;
            } in
            subst shrinks (sym (opp_turn m o rest s theirs held)) (
              unchanged m o (o -ℤ pos 1) rest s s' (contest rest s') f.0 f.1 refl (λ w. cc)
                (λ t. cc) (contest-Shrinks rest s' f.1))
        | inr bare ↦ subst shrinks (sym (skipped m o rest s (inr (theirs, bare)))) (
            unchanged m o o rest s s (contest rest s) f.0 f.1 refl (λ w. w) (λ t. cc)
              (contest-Shrinks rest s f.1))
      ]
    ]

score_bound :
    (l : Option Bool) (ret : ℤ) (a b : ℕ)
    → b ≤ a
    → (l ≡ some true → b < a)
    → pos_part (score l ret) + neg_part ret + 10 * b
      ≤ pos_part ret + 10 * a + neg_part (score l ret)
score_bound none ret a b less won = omega arith
score_bound (some true) ret a b less won = omega (arith, won refl, +ℤ_parts ret (pos 10))
score_bound (some false) ret a b less won = omega (arith, -ℤ_parts ret (pos 1))

abbrev start : ℤ → ℤ → Contest
start my opp = record { my_con_num = my; opp_con_num = opp; mine = true; last = none }

module _ (fuel : ℕ) (c : Counts) (my opp ret : ℤ) where
  goes_on :
      (ltb_ℤ (pos 0) my && ltb_ℤ (pos 0) opp) ≡ true
      → let r = contest c (start my opp) in
        contests (suc fuel) c my opp ret
        ≡ contests fuel r.0 r.1.my_con_num r.1.opp_con_num (score r.1.last ret)
  unfolding contests
  goes_on test = rw (contests, test) refl

  stops :
      (ltb_ℤ (pos 0) my && ltb_ℤ (pos 0) opp) ≡ false
      → contests (suc fuel) c my opp ret ≡ some (ret, my)
  unfolding contests
  stops test = rw (contests, test) refl

-- What the loop promises: it ends, and the tricks won are no more than the own cards.
abbrev Ends : ℤ → ℤ → Option (ℤ × ℤ) → Type 0
Ends my ret found =
    (r : ℤ × ℤ) × (found ≡ some r)
    × (neg_part r.1 ≡ 0)
    × (pos_part r.0 + 10 * pos_part r.1 + neg_part ret
        ≤ pos_part ret + 10 * pos_part my + neg_part r.0)

contests-Ends :
    (fuel : ℕ) (c : Counts) (my opp ret : ℤ)
    → Fair c
    → my ≡ my_sum c
    → pos_part my < fuel
    → Ends my ret (contests fuel c my opp ret)
contests-Ends zero c my opp ret f same enough = ground arith
contests-Ends (suc fuel) c my opp ret f same enough =
    elim (Bool-cases (ltb_ℤ (pos 0) my && ltb_ℤ (pos 0) opp)) [
      | inr test ↦
          let up : neg_part my ≡ 0 = rw same (Fair-sum c f) in
          ((ret, my), stops fuel c my opp ret test, up, omega arith)
      | inl test ↦
          let r : Counts × Contest = contest c (start my opp) in
          let (fair', less, sums, won, moved) = contest-Shrinks c (start my opp) f in
          let up = Fair-sum c f in
          let up' = Fair-sum r.0 fair' in
          let p : pos_part my ≡ pos_part (my_sum c) = ap pos_part same in
          let q : neg_part my ≡ neg_part (my_sum c) = ap neg_part same in
          let fewer : pos_part (my_sum r.0) < pos_part (my_sum c) = moved refl (ground arith) in
          let same' : r.1.my_con_num ≡ my_sum r.0 =
            eq_of_parts r.1.my_con_num (my_sum r.0) (omega arith) in
          let p' : pos_part r.1.my_con_num ≡ pos_part (my_sum r.0) = ap pos_part same' in
          let (end, found, left, bound) =
            contests-Ends fuel r.0 r.1.my_con_num r.1.opp_con_num (score r.1.last ret) fair' same'
              (omega arith) in
          let b =
            score_bound r.1.last ret (pos_part (my_sum c)) (pos_part (my_sum r.0)) less
              (λ w. fewer) in
          (end, goes_on fuel c my opp ret test ∙ found, left, omega arith)
    ]

counts_from-Fair : (n i : ℕ) (my opp : Points) → NonNeg my → Fair (counts_from n i my opp)
counts_from-Fair zero i my opp h = tt
counts_from-Fair (suc n) i my opp h = (h i, counts_from-Fair n (i + 1) my opp h)

tens_bound :
    (a b : ℤ) (n : ℕ)
    → neg_part b ≡ 0
    → pos_part a + 10 * pos_part b ≤ 10 * n + neg_part a
    → pos_part (tens (a +ℤ ten_times b)) ≤ n
unfolding ◌+ℤ◌
tens_bound a (pos b) n up h = ground arith
tens_bound a (negsuc b) n up h = ground arith

-- With own counts that are not negative, the loop of calControl ends within the rounds allowed, and
-- the result is at most the number of own cards from the lowest control on.
pub cal_control_bound :
    (my opp : Points) (lowest : ℕ)
    → NonNeg my
    → (n : ℕ) × (cal_control my opp lowest ≡ some (pos n))
      × (n ≤ pos_part (my_sum (counts_from (15 - lowest) lowest my opp)))
unfolding cal_control
cal_control_bound my opp lowest h =
    let c = counts_from (15 - lowest) lowest my opp in
    let (r, found, left, bound) =
      contests-Ends (pos_part (my_sum c) + 1) c (my_sum c) (opp_sum c) (pos 0)
        (counts_from-Fair (15 - lowest) lowest my opp h) refl (omega arith) in
    (
      pos_part (r.0 +ℤ ten_times r.1) / 10,
      rw (cal_control, found) refl,
      tens_bound r.0 r.1 (pos_part (my_sum c)) left (omega arith),
    )
