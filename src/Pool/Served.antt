-- ===== src/Pool/Served.antt =====
-- Robots that are asked for come, as far as there are any.
use mathlib.Core.Path.{subst}
use robot_ddz.Prelude.{
  ℕ, zero, suc, ◌+◌, ◌≡◌, ap, refl, sym, ◌∙◌, Bool, true, false, List, [], ◌∷◌, length,
  length-append, Option, some, arith, leb, if◌then◌else◌, ℤ, pos, eqb_ℤ, ◌-ℤ◌,
}
use robot_ddz.Pool.{Pool, add_robots, add_robot, move_from_task_to_untask}
use robot_ddz.Pool.Whole.{one_more, enough}

-- Of `n` robots asked for with `free` there, how many come.
abbrev pub served : ℕ → ℕ → ℕ
served n free = if leb n free then n else free

-- The call succeeds, and that many robots have gone over from the free ones.
abbrev pub Serves : ℕ → Pool → Pool × Bool → Type 0
Serves n p r =
    let k = served n (length p.task_robot_list) in
    (r.1 ≡ true)
    × (length r.0.untask_robot_list ≡ length p.untask_robot_list + k)
    × (length r.0.task_robot_list + k ≡ length p.task_robot_list)

one_less : (n : ℕ) → pos (suc n) -ℤ pos 1 ≡ pos n
unfolding ◌-ℤ◌
one_less n = ground arith

no_more : (n : ℕ) → eqb_ℤ (pos (suc n)) (pos 0) ≡ false
no_more n = ground arith

add_robots-Serves :
    (connect : ℕ → Option ℕ) (k n : ℕ) (xs : List ℤ) (p : Pool)
    → ((j : ℕ) → (fd : ℕ) × (connect j ≡ some fd))
    → xs ≡ p.task_robot_list
    → Serves n p (add_robots connect k (pos n) xs p)
add_robots-Serves connect k n [] p made same =
    let len : length {A = ℤ} [] ≡ length p.task_robot_list = ap length same in
    unfold add_robots in (refl, ground arith, ground arith)
add_robots-Serves connect k zero (y ∷ ys) p made same =
    subst (Serves 0 p) (sym (enough connect k (pos 0) y ys p refl))
      (refl, ground arith, ground arith)
add_robots-Serves connect k (suc n) (y ∷ ys) p made same =
    let (fd, connected) = made k in
    let q : Pool = move_from_task_to_untask fd y ys p in
    let step : add_robots connect k (pos (suc n)) (y ∷ ys) p
        ≡ add_robots connect (k + 1) (pos n) ys q =
      one_more connect k (pos (suc n)) y ys p fd (no_more n) connected
      ∙ ap (λ (m : ℤ). add_robots connect (k + 1) m ys q) (one_less n) in
    let (done, more, fewer) = add_robots-Serves connect (k + 1) n ys q made refl in
    let len : length (y ∷ ys) ≡ length p.task_robot_list = ap length same in
    let appended = length-append p.untask_robot_list (y ∷ []) in
    subst (Serves (suc n) p) (sym step) (done, ground arith, ground arith)

-- When every connection can be made, AddRobot for a number that is not negative succeeds, and that
-- many robots, or all the free ones if there are fewer, go over from the free robots to the others.
pub add_robot-Serves :
    (connect : ℕ → Option ℕ) (n : ℕ) (p : Pool)
    → ((j : ℕ) → (fd : ℕ) × (connect j ≡ some fd))
    → Serves n p (add_robot connect (pos n) p)
unfolding add_robot
add_robot-Serves connect n p made = add_robots-Serves connect 0 n p.task_robot_list p made refl
