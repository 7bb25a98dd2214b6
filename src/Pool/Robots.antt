-- ===== src/Pool/Robots.antt =====
-- The robots that `initParam` makes, through what happens to them.
use mathlib.Core.Path.{subst}
use robot_ddz.Prelude.{
  ℕ, zero, suc, ◌+◌, ◌≡◌, ap, inl, inr, refl, sym, Bool, true, false, Bool-cases, ◌&&◌, ◌||◌, List,
  [], some, arith, if◌then◌else◌, ℤ, pos, pos_part, eqb_ℤ, ltb_ℤ, leb_ℤ, ◌+ℤ◌, ◌-ℤ◌, count,
}
use robot_ddz.Pool.{Pool}
use robot_ddz.Pool.Start.{numbers_from, robot_num, init_param}
use robot_ddz.Pool.Whole.{Matched, held}
use robot_ddz.Pool.Run.{Event, happen_all, gone_all, AllPromised, happen_all-Steps}

count-numbers_from :
    (n i : ℕ) (x : ℤ)
    → count x (numbers_from n i) ≡ (if leb_ℤ (pos i) x && ltb_ℤ x (pos (i + n)) then 1 else 0)
count-numbers_from zero i x = ground arith
count-numbers_from (suc n) i x = ground (arith, count-numbers_from n (i + 1) x)

abbrev started : ℤ → ℤ → ℤ → Pool
started start end num = record {
  header_robot_id = start;
  task_robot_list = numbers_from (pos_part (robot_num start end num -ℤ pos 1)) (pos_part start + 1);
  untask_robot_list = [];
  map_conn = [];
  retries = 0;
}

starts :
    (start end num : ℤ) (p : Pool)
    → init_param start end num ≡ some p
    → (started start end num ≡ p)
      × (leb_ℤ start (pos 0) ≡ false)
      × (leb_ℤ num (pos 0) ≡ false)
      × (ltb_ℤ end start ≡ false)
unfolding init_param
starts start end num p e =
    elim (Bool-cases (leb_ℤ start (pos 0) || leb_ℤ end (pos 0) || leb_ℤ num (pos 0))) [
      | inl wrong ↦ let e' = rw (init_param, wrong) at e in grind arith
      | inr right ↦ elim (Bool-cases (ltb_ℤ end start)) [
        | inl wrong ↦ let e' = rw (init_param, right, wrong) at e in grind arith
        | inr fits ↦
            let e' = rw (init_param, right, fits) at e in (cc, ground arith, ground arith, fits)
      ]
    ]

robot_num_bound :
    (start end num : ℤ)
    → leb_ℤ num (pos 0) ≡ false
    → ltb_ℤ end start ≡ false
    → (leb_ℤ (robot_num start end num) (pos 0) ≡ false)
      × (leb_ℤ (start +ℤ robot_num start end num) (end +ℤ pos 1) ≡ true)
unfolding ◌+ℤ◌ ◌-ℤ◌
robot_num_bound start end num some_robots fits = (ground arith, ground arith)

in_range :
    (start r x : ℤ)
    → leb_ℤ start (pos 0) ≡ false
    → leb_ℤ r (pos 0) ≡ false
    → (leb_ℤ (pos (pos_part start + 1)) x
        && ltb_ℤ x (pos (pos_part start + 1 + pos_part (r -ℤ pos 1))))
      ≡ (ltb_ℤ start x && ltb_ℤ x (start +ℤ r))
unfolding ◌+ℤ◌ ◌-ℤ◌
in_range start r x up some_robots = ground arith

-- Each number behind the header robot's is there once.
initial :
    (start end num : ℤ) (x : ℤ)
    → leb_ℤ start (pos 0) ≡ false
    → leb_ℤ (robot_num start end num) (pos 0) ≡ false
    → held (started start end num) x
      ≡ (if ltb_ℤ start x && ltb_ℤ x (start +ℤ robot_num start end num) then 1 else 0)
initial start end num x up some_robots =
    let r : ℤ = robot_num start end num in
    let counted = count-numbers_from (pos_part (r -ℤ pos 1)) (pos_part start + 1) x in
    let same =
      ap (λ (b : Bool). if b then (suc zero) else zero) (in_range start r x up some_robots) in
    omega (arith, counted, same)

-- When initParam accepts the settings, and the numbers of new connections are not in use, then the
-- numbers of the task robots lie within the configured range; and through any sequence of requests
-- for robots, ended games, robots given up, closed connections and retries of the header robot,
-- each task robot is in the two lists together exactly once, or has been given up once, and no
-- number outside theirs, but that of the header robot, of which nothing is said, is in them.
pub init_param-held :
    (start end num : ℤ) (p : Pool) (es : List Event)
    → init_param start end num ≡ some p
    → AllPromised es p
    → (leb_ℤ (start +ℤ robot_num start end num) (end +ℤ pos 1) ≡ true)
      × ((x : ℤ)
          → eqb_ℤ x start ≡ false
          → held (happen_all es p) x + gone_all es p x
            ≡ (if ltb_ℤ start x && ltb_ℤ x (start +ℤ robot_num start end num) then 1 else 0))
init_param-held start end num p es e free =
    let (made, up, some_robots, fits) = starts start end num p e in
    let (positive, bound) = robot_num_bound start end num some_robots fits in
    let start_matched : Matched (started start end num) = λ x other. refl in
    let matched : Matched p = subst Matched made start_matched in
    let (same, matched', whole) = happen_all-Steps es p free matched in
    let head : p.header_robot_id ≡ start = ap (λ (q : Pool). q.header_robot_id) (sym made) in
    let held_at : (x : ℤ) → held (started start end num) x ≡ held p x =
      λ x. ap (λ (q : Pool). held q x) made in
    (
      bound,
      λ x other.
          let other' : eqb_ℤ x p.header_robot_id ≡ false = rw head other in
          omega (arith, whole x other', held_at x, initial start end num x up positive),
    )
