-- ===== src/Pool/Whole.antt =====
-- No robot is lost or doubled.
use mathlib.Core.Path.{subst}
use robot_ddz.Prelude.{
  ℕ, ◌+◌, ◌≤◌, ◌≡◌, ◌≢◌, ap, inl, inr, refl, sym, ◌∙◌, Bool, true, false, Bool-cases, Option-cases,
  List, [], ◌∷◌, Option, none, some, arith, ◌==◌, if◌then◌else◌, ℤ, pos, eqb_ℤ, ◌-ℤ◌, count,
  count-append,
}
use robot_ddz.Pool.{Pool, robot_at, put_conn, erase_conn, add_robots, move_from_task_to_untask}

-- How many connections a robot has.
abbrev pub conns_of : ℤ → List (ℕ × ℤ) → ℕ
conns_of x [] = 0
conns_of x ((k, y) ∷ m) = (if eqb_ℤ y x then 1 else 0) + conns_of x m

pub put_conn_fresh :
    (fd : ℕ) (y x : ℤ) (m : List (ℕ × ℤ))
    → robot_at fd m ≡ none
    → conns_of x (put_conn fd y m) ≡ conns_of x m + (if eqb_ℤ y x then 1 else 0)
put_conn_fresh fd y x [] e = omega arith
put_conn_fresh fd y x ((k, z) ∷ m) e = ground (arith, put_conn_fresh fd y x m)

pub erase_conn_lem :
    (fd : ℕ) (y x : ℤ) (m : List (ℕ × ℤ))
    → robot_at fd m ≡ some y
    → conns_of x (erase_conn fd m) + (if eqb_ℤ y x then 1 else 0) ≡ conns_of x m
erase_conn_lem fd y x [] e = grind arith
erase_conn_lem fd y x ((k, z) ∷ m) e = elim (Bool-cases (k == fd)) [
  | inl here ↦
      let e' = rw (robot_at, here) at e in
      let same : z ≡ y = cc in rw (erase_conn, here, same) (omega arith)
  | inr away ↦
      let e' = rw (robot_at, away) at e in
      rw (erase_conn, away) (omega (arith, erase_conn_lem fd y x m e'))
]

pub conns_of-robot_at :
    (fd : ℕ) (y : ℤ) (m : List (ℕ × ℤ)) → robot_at fd m ≡ some y → 1 ≤ conns_of y m
conns_of-robot_at fd y m e = ground (arith, erase_conn_lem fd y y m e)

robot_at-put_conn :
    (fd k : ℕ) (y : ℤ) (m : List (ℕ × ℤ))
    → fd ≢ k
    → robot_at k m ≡ none
    → robot_at k (put_conn fd y m) ≡ none
robot_at-put_conn fd k y [] apart e = ground arith
robot_at-put_conn fd k y ((j, z) ∷ m) apart e = ground (arith, robot_at-put_conn fd k y m)

-- Each robot but the header is connected as often as it is taken.
abbrev pub Matched : Pool → Type 0
Matched p =
    (x : ℤ)
    → eqb_ℤ x p.header_robot_id ≡ false
    → count x p.untask_robot_list ≡ conns_of x p.map_conn

abbrev pub held : Pool → ℤ → ℕ
held p x = count x p.task_robot_list + count x p.untask_robot_list

-- After a step from `p` to `q`, `lost` robots have gone.
abbrev pub Steps : Pool → (ℤ → ℕ) → Pool → Type 0
Steps p lost q =
    (q.header_robot_id ≡ p.header_robot_id)
    × Matched q
    × ((x : ℤ) → eqb_ℤ x p.header_robot_id ≡ false → held q x + lost x ≡ held p x)

-- What the operating system promises: a new connection's number is not in use, and no two calls
-- give the same.
abbrev pub Fresh : (ℕ → Option ℕ) → ℕ → List (ℕ × ℤ) → Type 0
Fresh connect k m = (j fd : ℕ) → k ≤ j → connect j ≡ some fd → robot_at fd m ≡ none

abbrev pub Distinct : (ℕ → Option ℕ) → Type 0
Distinct connect = (i j fd : ℕ) → connect i ≡ some fd → connect j ≡ some fd → i ≡ j

pub stays : (p : Pool) → Matched p → Steps p (λ x. 0) p
stays p matched = (refl, matched, λ x other. omega arith)

pub then_Steps :
    (p q r : Pool) (l l' : ℤ → ℕ) → Steps p l q → Steps q l' r → Steps p (λ x. l x + l' x) r
then_Steps p q r l l' (same, matched, whole) (same', matched', whole') = (
  same' ∙ same,
  matched',
  λ x other.
      let other' : eqb_ℤ x q.header_robot_id ≡ false = rw same other in
      omega (arith, whole x other, whole' x other'),
)

module _ (connect : ℕ → Option ℕ) (k : ℕ) (n : ℤ) (y : ℤ) (ys : List ℤ) (p : Pool) where
  pub enough : eqb_ℤ n (pos 0) ≡ true → add_robots connect k n (y ∷ ys) p ≡ (p, true)
  unfolding add_robots
  enough done = rw (add_robots, done) refl

  unconnected :
      eqb_ℤ n (pos 0) ≡ false → connect k ≡ none → add_robots connect k n (y ∷ ys) p ≡ (p, false)
  unfolding add_robots
  unconnected more failed = rw (add_robots, more, failed) refl

  pub one_more :
      (fd : ℕ)
      → eqb_ℤ n (pos 0) ≡ false
      → connect k ≡ some fd
      → add_robots connect k n (y ∷ ys) p
        ≡ add_robots connect (k + 1) (n -ℤ pos 1) ys (move_from_task_to_untask fd y ys p)
  unfolding add_robots
  one_more fd more made = rw (add_robots, more, made) refl

moves :
    (fd : ℕ) (y : ℤ) (ys : List ℤ) (p : Pool)
    → (y ∷ ys) ≡ p.task_robot_list
    → robot_at fd p.map_conn ≡ none
    → Matched p
    → Steps p (λ x. 0) (move_from_task_to_untask fd y ys p)
moves fd y ys p same fresh matched = (
  refl,
  (λ x other. omega (
    arith,
    matched x other,
    put_conn_fresh fd y x p.map_conn fresh,
    count-append x p.untask_robot_list (y ∷ []),
  )),
  λ x other.
      let same' : count x (y ∷ ys) ≡ count x p.task_robot_list = ap (count x) same in
      omega (arith, count-append x p.untask_robot_list (y ∷ [])),
)

pub add_robots-Steps :
    (connect : ℕ → Option ℕ) (k : ℕ) (n : ℤ) (xs : List ℤ) (p : Pool)
    → xs ≡ p.task_robot_list
    → Distinct connect
    → Fresh connect k p.map_conn
    → Matched p
    → Steps p (λ x. 0) (add_robots connect k n xs p).0
add_robots-Steps connect k n [] p same distinct fresh matched = unfold add_robots in stays p matched
add_robots-Steps connect k n (y ∷ ys) p same distinct fresh matched =
    let ends : Pool × Bool → Type 0 = λ r. Steps p (λ x. 0) r.0 in
    elim (Bool-cases (eqb_ℤ n (pos 0))) [
      | inl done ↦ subst ends (sym (enough connect k n y ys p done)) (stays p matched)
      | inr more ↦ elim (Option-cases (connect k)) [
        | inl failed ↦
            subst ends (sym (unconnected connect k n y ys p more failed)) (stays p matched)
        | inr (fd, made) ↦
            let q : Pool = move_from_task_to_untask fd y ys p in
            let moved = moves fd y ys p same (fresh k fd (omega arith) made) matched in
            let later : Fresh connect (k + 1) q.map_conn = λ j g past made'.
              robot_at-put_conn fd g y p.map_conn
                (λ e. ground (arith, distinct k j fd made (made' ∙ ap some (sym e))))
                (fresh j g (omega arith) made') in
            let rest =
              add_robots-Steps connect (k + 1) (n -ℤ pos 1) ys q refl distinct later moved.1 in
            subst ends (sym (one_more connect k n y ys p fd more made)) (
              then_Steps p q (add_robots connect (k + 1) (n -ℤ pos 1) ys q).0 (λ x. 0) (λ x. 0)
                moved rest)
      ]
    ]
