-- ===== src/Tests/Pool.antt =====
-- Robots 100 to 103, of which 100 is the header.
use robot_ddz.Pool.Served.{add_robot-Serves, Serves}
use robot_ddz.Prelude.{
  ℕ, ◌+◌, ◌≡◌, refl, arith, true, false, ◌&&◌, List, [], ◌∷◌, Option, some, ℤ, pos, ltb_ℤ, leb_ℤ,
  eqb_ℤ, ◌+ℤ◌, ◌-ℤ◌, if◌then◌else◌,
}
use robot_ddz.Pool.{Pool, add_robot, add_robots, del_robot, del_robot_and_close_connection}
use robot_ddz.Pool.Start.{init_param, robot_num}
use robot_ddz.Pool.Whole.{held, Distinct}
use robot_ddz.Pool.Run.{Event, asked, ended, given_up, retried, happen_all, gone_all, AllPromised}
use robot_ddz.Pool.Robots.{init_param-held}

abbrev four_robots : Pool
four_robots = record {
  header_robot_id = pos 100;
  task_robot_list = pos 101 ∷ pos 102 ∷ pos 103 ∷ [];
  untask_robot_list = [];
  map_conn = [];
  retries = 0;
}

-- The connections get 7, 8 and so on.
abbrev connect : ℕ → Option ℕ
connect k = some (k + 7)

connect-Distinct : Distinct connect
connect-Distinct i j fd e f = grind arith

-- Two robots are asked for; one ends its game, the other is given up, and the header connects.
abbrev day : List Event
day = asked connect (pos 2) ∷ ended 7 ∷ given_up 8 ∷ retried (some 9) ∷ []

day-AllPromised : AllPromised day four_robots
unfolding add_robot add_robots del_robot del_robot_and_close_connection ◌-ℤ◌
day-AllPromised = ((connect-Distinct, λ j fd past made. refl), (tt, (tt, (refl, tt))))

four_made : init_param (pos 100) (pos 103) (pos 8) ≡ some four_robots
unfolding init_param ◌-ℤ◌ ◌+ℤ◌
four_made = refl

init_param-held_example :
    (leb_ℤ (pos 100 +ℤ robot_num (pos 100) (pos 103) (pos 8)) (pos 103 +ℤ pos 1) ≡ true)
    × ((x : ℤ)
        → eqb_ℤ x (pos 100) ≡ false
        → held (happen_all day four_robots) x + gone_all day four_robots x ≡ (
            if ltb_ℤ (pos 100) x && ltb_ℤ x (pos 100 +ℤ robot_num (pos 100) (pos 103) (pos 8))
            then 1
            else 0))
init_param-held_example =
    init_param-held (pos 100) (pos 103) (pos 8) four_robots day four_made day-AllPromised

-- Of the three task robots two are asked for.
add_robot-Serves_example : Serves 2 four_robots (add_robot connect (pos 2) four_robots)
add_robot-Serves_example = add_robot-Serves connect 2 four_robots (λ j. (j + 7, refl))
