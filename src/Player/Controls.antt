-- ===== src/Player/Controls.antt =====
-- `calControl` (new_robot_client/src/AIUtils.cpp): how many tricks the high cards win.
pub mod Ends
use robot_ddz.Prelude.{
  ℕ, zero, suc, ◌+◌, ◌-◌, ◌*◌, ◌/◌, ◌≤◌, ◌≡◌, refl, Bool, true, false, List, [], ◌∷◌, Option, none,
  some, arith, ltb, ◌&&◌, if◌then◌else◌, ℤ, pos, negsuc, pos_part, neg_part, ltb_ℤ, ◌-ℤ◌, ◌+ℤ◌,
}
use robot_ddz.Cards.Points.{Points, NonNeg}

-- `myCon` and `oppCon`, in the order of their common keys.
abbrev pub Counts : Type 0
Counts = List (ℤ × ℤ)

-- `myConNum`, `oppConNum`, whether `curCon` is `myCon`, and `lastCon`.
pub record Contest : Type 0 where
  pub my_con_num : ℤ
  pub opp_con_num : ℤ
  pub mine : Bool
  pub last : Option Bool

-- The round over the points, each side in turn with its next higher card.
unfoldable pub contest : Counts → Contest → Counts × Contest
contest [] s = ([], s)
contest ((m, o) ∷ rest) s =
    if s.mine
    then (if ltb_ℤ (pos 0) m
        then (let (rest', s') =
              contest rest
                (record s { my_con_num = s.my_con_num -ℤ pos 1; mine = false; last = some true }) in
            ((m -ℤ pos 1, o) ∷ rest', s'))
        else (let (rest', s') = contest rest s in ((m, o) ∷ rest', s')))
    else (if ltb_ℤ (pos 0) o
        then (let (rest', s') =
              contest rest (record s {
                opp_con_num = s.opp_con_num -ℤ pos 1;
                mine = true;
                last = some false;
              }) in
            ((m, o -ℤ pos 1) ∷ rest', s'))
        else (let (rest', s') = contest rest s in ((m, o) ∷ rest', s')))

abbrev pub score : Option Bool → ℤ → ℤ
score none ret = ret
score (some true) ret = ret +ℤ pos 10
score (some false) ret = ret -ℤ pos 1

-- `while (myConNum > 0 && oppConNum > 0)`; the result is `ret` and what is left of `myConNum`.
unfoldable pub contests : ℕ → Counts → ℤ → ℤ → ℤ → Option (ℤ × ℤ)
unfolding contest
contests zero c my opp ret = none
contests (suc fuel) c my opp ret =
    let (c', s) =
      contest c (record { my_con_num = my; opp_con_num = opp; mine = true; last = none }) in
    let rest = contests fuel c' s.my_con_num s.opp_con_num (score s.last ret) in
    if ltb_ℤ (pos 0) my && ltb_ℤ (pos 0) opp then rest else some (ret, my)

-- `n` points from the `i`-th on.
abbrev pub counts_from : ℕ → ℕ → Points → Points → Counts
counts_from zero i my opp = []
counts_from (suc n) i my opp = (my i, opp i) ∷ counts_from n (i + 1) my opp

abbrev pub my_sum : Counts → ℤ
my_sum [] = pos 0
my_sum ((m, o) ∷ rest) = m +ℤ my_sum rest

abbrev pub opp_sum : Counts → ℤ
opp_sum [] = pos 0
opp_sum ((m, o) ∷ rest) = o +ℤ opp_sum rest

-- `if (ret < 0) ret = 0; return ret/10;`
abbrev pub tens : ℤ → ℤ
tens ret = pos (pos_part ret / 10)

abbrev pub ten_times : ℤ → ℤ
ten_times (pos n) = pos (10 * n)
ten_times (negsuc n) = negsuc (10 * n + 9)

-- Each round takes one of the own cards, so that many rounds suffice.
unfoldable pub cal_control : Points → Points → ℕ → Option ℤ
unfolding contests
cal_control my opp lowest =
    let c = counts_from (15 - lowest) lowest my opp in
    elim (contests (pos_part (my_sum c) + 1) c (my_sum c) (opp_sum c) (pos 0)) [
      | none ↦ none
      | some (ret, left) ↦ some (tens (ret +ℤ ten_times left))
    ]
